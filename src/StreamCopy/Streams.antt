-- ===== src/StreamCopy/Streams.antt =====
-- What the callbacks of apps/bidirectional_stream_copy.cc do to a stream, on a system that behaves.
use sponge_2021fall.Common.{
  ℕ, zero, suc, ◌≡◌, ◌≤◌, refl, sym, ap, add32, ◌∙◌, arith, min, Bool, true, false, List, [], ◌∷◌,
  ◌++◌, length, take, length-take, take-append-drop, ◌==◌, if◌then◌else◌, Yields, ok-Yields,
  bind-Yields, map-Yields,
}
use sponge_2021fall.ByteStream.{
  ByteStream, write, peek_output, end_input, remaining_capacity, buffer_size, pop_output,
}
use sponge_2021fall.ByteStream.Fifo.{
  IsValid, write_all, remaining_capacity-eq, str-pop_output, pop_output-IsValid, end_input-IsValid,
}
use sponge_2021fall.FileDescriptor.{Descriptor, System}
use sponge_2021fall.FileDescriptor
use sponge_2021fall.FileDescriptor.Calls.{Behaves, read-Yields, write-Yields}
use sponge_2021fall.StreamCopy.{fill, drain, max_copy_length}

module _ {W : Type 0} (system : System W) (taken given : ℕ → W → List ℕ)
    (h : Behaves system taken given) where
  -- A stream that got `bytes` from the descriptor.
  pub record Filled (d : Descriptor) (stream : ByteStream) (w : W) (r : Descriptor × ByteStream × W)
      : Type 0 where
    pub valid : IsValid r.1
    pub number : r.0.fd_num ≡ d.fd_num
    pub counted : (d.read_count == r.0.read_count) ≡ false
    pub bytes : List ℕ
    pub grown : r.1.str ≡ stream.str ++ bytes
    pub took : (j : ℕ) → taken j r.2 ≡ (if j == d.fd_num then taken j w ++ bytes else taken j w)
    pub gave : (j : ℕ) → given j r.2 ≡ given j w

  -- A stream that gave `bytes` to the descriptor.
  pub record Drained (d : Descriptor) (stream : ByteStream) (w : W)
      (r : Descriptor × ByteStream × W) : Type 0 where
    pub valid : IsValid r.1
    pub number : r.0.fd_num ≡ d.fd_num
    pub counted : r.0.write_count ≡ add32 d.write_count 1
    pub bytes : List ℕ
    pub shrunk : stream.str ≡ bytes ++ r.1.str
    pub gave : (j : ℕ) → given j r.2 ≡ (if j == d.fd_num then given j w ++ bytes else given j w)
    pub took : (j : ℕ) → taken j r.2 ≡ taken j w

  pub ended-IsValid :
      (b : Bool) (stream : ByteStream)
      → IsValid stream
      → IsValid (if b then end_input stream else stream)
  ended-IsValid true stream v = end_input-IsValid stream v
  ended-IsValid false stream v = v

  pub ended-str :
      (b : Bool) (stream : ByteStream) → (if b then end_input stream else stream).str ≡ stream.str
  unfolding end_input
  ended-str true stream = refl
  ended-str false stream = refl

  pub fill-Yields :
      (d : Descriptor) (stream : ByteStream) (w : W)
      → IsValid stream
      → Yields (Filled d stream w) (fill system d stream w)
  unfolding fill
  fill-Yields d stream w v =
      let room = remaining_capacity-eq v in
      bind-Yields _ _ _ _ (read-Yields system taken given h d (remaining_capacity stream) w) (λ r k.
        let (_, more, _, valid) = write_all stream r.0 v (omega (arith, room, k.0)) in
        ok-Yields _ _ (record {
          valid = ended-IsValid r.1.eof (write stream r.0).1 valid;
          number = k.1;
          counted = k.2;
          bytes = r.0;
          grown = ended-str r.1.eof (write stream r.0).1 ∙ more;
          took = k.3;
          gave = k.4;
        }))

  -- The bytes that are offered, and those of them that are taken.
  take-take : (k n : ℕ) (s : List ℕ) → k ≤ n → take k (take n s) ≡ take k s
  take-take zero n s l = refl
  take-take (suc k) zero s l = absurd (omega arith)
  take-take (suc k) (suc n) [] l = refl
  take-take (suc k) (suc n) (x ∷ s) l = ap (λ t. x ∷ t) (take-take k n s (omega arith))

  offered : ByteStream → List ℕ
  offered stream = peek_output stream (min max_copy_length (buffer_size stream))

  offered-eq :
      (stream : ByteStream)
      → IsValid stream
      → offered stream ≡ take (min max_copy_length (length stream.str)) stream.str
  unfolding offered peek_output buffer_size
  offered-eq stream v = ap (λ n. take n stream.str) (omega (arith, v.sized))

  -- What is written of the bytes at the front of a stream.
  pub offer-Yields :
      (d : Descriptor) (stream : ByteStream) (w : W)
      → IsValid stream
      → Yields
          (λ (r : ℕ × Descriptor × W). Drained d stream w (r.1, pop_output stream r.0, r.2))
          (FileDescriptor.write system d
            (peek_output stream (min max_copy_length (buffer_size stream)))
            false
            w)
  unfolding offered
  offer-Yields d stream w v =
      let bytes = offered stream in
      let peeked = offered-eq stream v in
      let size : length bytes ≤ min max_copy_length (length stream.str) = omega (
        arith,
        ap length peeked,
        length-take (min max_copy_length (length stream.str)) stream.str,
      ) in
      map-Yields _ _ _
        (write-Yields system taken given h d bytes w (omega (arith, size, v.fits, v.word)))
        (λ r k. record {
          valid = pop_output-IsValid stream r.0 v;
          number = k.1;
          counted = k.2;
          bytes = take r.0 stream.str;
          shrunk = sym (
              ap (λ t. take r.0 stream.str ++ t) (str-pop_output stream r.0 v)
              ∙ take-append-drop r.0 stream.str);
          gave = λ j.
              k.3 j
              ∙ ap (λ t. if j == d.fd_num then given j w ++ t else given j w)
                  (ap (take r.0) peeked
                    ∙ take-take r.0 (min max_copy_length (length stream.str)) stream.str
                        (omega (arith, k.0, size)));
          took = k.4;
        })

  pub drain-Yields :
      (d : Descriptor) (stream : ByteStream) (w : W)
      → IsValid stream
      → Yields (Drained d stream w) (drain system d stream w)
  unfolding drain
  drain-Yields d stream w v =
      bind-Yields _ _ _ _ (offer-Yields d stream w v) (λ r k. ok-Yields _ _ k)
