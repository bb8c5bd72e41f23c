-- ===== src/StreamCopy/Carries.antt =====
-- What a stream of apps/bidirectional_stream_copy.cc carries from one descriptor to another.
use sponge_2021fall.Common.{
  ℕ, ◌≡◌, sym, ap, ap₂, ◌∙◌, arith, true, false, List, ◌++◌, append_assoc, ◌==◌, if◌then◌else◌,
}
use sponge_2021fall.ByteStream.{ByteStream, end_input}
use sponge_2021fall.ByteStream.Fifo.{IsValid, end_input-IsValid}
use sponge_2021fall.FileDescriptor.{Descriptor, System}
use sponge_2021fall.FileDescriptor.Calls.{Behaves}
use sponge_2021fall.StreamCopy.Streams.{Filled, Drained, ended-str}

module _ {W : Type 0} (system : System W) (taken given : ℕ → W → List ℕ)
    (h : Behaves system taken given) where
  -- What one stream carries from a descriptor to another.
  pub record Carries (from to : ℕ) (stream : ByteStream) (w : W) : Type 0 where
    pub valid : IsValid stream
    pub in_order : taken from w ≡ given to w ++ stream.str

  pub quiet-Carries :
      (from to : ℕ) (stream : ByteStream) (w v : W)
      → taken from v ≡ taken from w
      → given to v ≡ given to w
      → Carries from to stream w
      → Carries from to stream v
  quiet-Carries from to stream w v t g k = record {
    valid = k.valid;
    in_order = t ∙ k.in_order ∙ ap (λ l. l ++ stream.str) (sym g);
  }

  pub Filled-Carries :
      (from to : ℕ) (d : Descriptor) (stream : ByteStream) (w : W) (r : Descriptor × ByteStream × W)
      → d.fd_num ≡ from
      → Filled system taken given h d stream w r
      → Carries from to stream w
      → Carries from to r.1 r.2
  Filled-Carries from to d stream w r e f k =
      let same : (from == d.fd_num) ≡ true = ground (arith, e) in
      record {
        valid = f.valid;
        in_order =
            f.took from
            ∙ ap (λ t. if t then taken from w ++ f.bytes else taken from w) same
            ∙ ap (λ l. l ++ f.bytes) k.in_order
            ∙ append_assoc (given to w) stream.str f.bytes
            ∙ ap₂ (λ g l. g ++ l) (sym (f.gave to)) (sym f.grown);
      }

  pub Drained-Carries :
      (from to : ℕ) (d : Descriptor) (stream : ByteStream) (w : W) (r : Descriptor × ByteStream × W)
      → d.fd_num ≡ to
      → Drained system taken given h d stream w r
      → Carries from to stream w
      → Carries from to r.1 r.2
  Drained-Carries from to d stream w r e f k =
      let same : (to == d.fd_num) ≡ true = ground (arith, e) in
      let gave = f.gave to ∙ ap (λ t. if t then given to w ++ f.bytes else given to w) same in
      record {
        valid = f.valid;
        in_order =
            f.took from
            ∙ k.in_order
            ∙ ap (λ l. given to w ++ l) f.shrunk
            ∙ sym (append_assoc (given to w) f.bytes r.1.str)
            ∙ ap (λ g. g ++ r.1.str) (sym gave);
      }

  -- A stream that the descriptor does not touch.
  pub Filled-other :
      (from to : ℕ) (d : Descriptor) (stream other : ByteStream) (w : W)
      (r : Descriptor × ByteStream × W)
      → (from == d.fd_num) ≡ false
      → Filled system taken given h d stream w r
      → Carries from to other w
      → Carries from to other r.2
  Filled-other from to d stream other w r e f k =
      quiet-Carries from to other w r.2
        (f.took from ∙ ap (λ t. if t then taken from w ++ f.bytes else taken from w) e) (f.gave to)
        k

  pub Drained-other :
      (from to : ℕ) (d : Descriptor) (stream other : ByteStream) (w : W)
      (r : Descriptor × ByteStream × W)
      → (to == d.fd_num) ≡ false
      → Drained system taken given h d stream w r
      → Carries from to other w
      → Carries from to other r.2
  Drained-other from to d stream other w r e f k =
      quiet-Carries from to other w r.2 (f.took from)
        (f.gave to ∙ ap (λ t. if t then given to w ++ f.bytes else given to w) e) k

  pub ended-Carries :
      (from to : ℕ) (stream : ByteStream) (w : W)
      → Carries from to stream w
      → Carries from to (end_input stream) w
  ended-Carries from to stream w k = record {
    valid = end_input-IsValid stream k.valid;
    in_order =
        k.in_order ∙ ap (λ l. given to w ++ l) (sym (ended-str system taken given h true stream));
  }
