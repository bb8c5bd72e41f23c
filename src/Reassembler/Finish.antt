-- ===== src/Reassembler/Finish.antt =====
-- The bytes that a reassembler of libsponge/stream_reassembler.cc holds, and the code at its label
-- `out`.
use sponge_2021fall.Common.{ℕ, Bool, List, length, ◌+◌, ltb, ◌-◌, ◌≡◌, ◌≤◌, ◌||◌, if_cases}
use sponge_2021fall.ByteStream.{end_input}
use sponge_2021fall.ByteStream.Fifo
use sponge_2021fall.ByteStream.Fifo.{write_all}
use sponge_2021fall.Reassembler.{Reassembler, finish}
use sponge_2021fall.Reassembler.Stream.{Carries}
use sponge_2021fall.Reassembler.Nodes.{Separated, within, stored, AllCarry}

-- The first index that does not fit.
abbrev pub top : Reassembler → ℕ
top r = r.cur_index + (r.output.capacity - length r.output.str)

-- Is the byte at index `i` written to the stream or stored.
abbrev pub knows : Reassembler → ℕ → Bool
knows r i = ltb i r.cur_index || stored i r.list

pub record IsValid (r : Reassembler) : Type 0 where
  pub output : Fifo.IsValid r.output
  pub nodes : Separated r.cur_index (top r) r.list

-- All bytes held are those of the stream `f`.
pub record Holds (f : ℕ → ℕ) (r : Reassembler) : Type 0 where
  pub back : length r.output.str ≤ r.cur_index
  pub buffered : Carries f (r.cur_index - length r.output.str) r.output.str
  pub nodes : AllCarry f r.list

-- `r'` is `r` with the bytes from `left` to `past` added.
pub record Adds (r : Reassembler) (s : List ℕ) (left past : ℕ) (r' : Reassembler) : Type 0 where
  pub valid : IsValid r'
  pub same_top : top r' ≡ top r
  pub known : (i : ℕ) → knows r' i ≡ (knows r i || within i left past)
  pub carried : (f : ℕ → ℕ) → Carries f left s → Holds f r → Holds f r'

pub finish_cases :
    (P : Reassembler → Type 0) (r : Reassembler) (b : Bool)
    → ((e : Bool) → P (record r { eof = e }))
    → ((e : Bool) → P (record r { eof = e; output = end_input r.output }))
    → P (finish r b)
unfolding finish
finish_cases P r b plain ended = if_cases P _ (ended _) (plain _)

end_input-Adds :
    (r q : Reassembler) (s : List ℕ) (left past : ℕ) (e : Bool)
    → Adds r s left past q
    → Adds r s left past (record q { eof = e; output = end_input q.output })
unfolding end_input
end_input-Adds r q s left past e a = record {
  valid = record {
    output = record {
      sized = a.valid.output.sized;
      fits = a.valid.output.fits;
      word = a.valid.output.word;
      counted = a.valid.output.counted;
    };
    nodes = a.valid.nodes;
  };
  same_top = a.same_top;
  known = a.known;
  carried = λ f c h.
      let k = a.carried f c h in record { back = k.back; buffered = k.buffered; nodes = k.nodes };
}

pub finish-Adds :
    (r q : Reassembler) (s : List ℕ) (left past : ℕ) (b : Bool)
    → Adds r s left past q
    → Adds r s left past (finish q b)
finish-Adds r q s left past b a =
    finish_cases (Adds r s left past) q b
      (λ e. record {
        valid = record { output = a.valid.output; nodes = a.valid.nodes };
        same_top = a.same_top;
        known = a.known;
        carried = λ f c h.
            let k = a.carried f c h in
            record { back = k.back; buffered = k.buffered; nodes = k.nodes };
      })
      (λ e. end_input-Adds r q s left past e a)
