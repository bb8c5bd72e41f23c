-- ===== src/Reassembler/Eof.antt =====
-- When `push_substring` of libsponge/stream_reassembler.cc ends the stream.
use sponge_2021fall.Common.{
  ℕ, refl, List, ◌<◌, ◌≡◌, Bool, true, false, suc, ◌+◌, ◌≤◌, IsU64, arith, length, ◌∷◌, ◌-◌, ◌⊎◌,
  add64, [], inl, inr, zero, ok, subst, ltb,
}
use native.Mathlib.Decide.{dec_le}
use sponge_2021fall.Reassembler.{Reassembler, push_substring, sum_sizes, empty, Node}
use sponge_2021fall.Reassembler.Nodes.{stored, stop, Separated}
use sponge_2021fall.Reassembler.Finish.{top, knows, IsValid}
use sponge_2021fall.Reassembler.Push.{Pushed, push_substring-Pushed}
use sponge_2021fall.Reassembler.Flags.{Flags, Flagged, lasts, push_substring-Flagged}

-- Nothing is stored up to the bound of the list.
stored_below : (i lo hi : ℕ) (ns : List Node) → i ≤ lo → Separated lo hi ns → stored i ns ≡ false
stored_below i lo hi [] h sep = refl
stored_below i lo hi (n ∷ ns) h sep = ground (arith, stored_below i (stop n) hi ns)

-- In a valid reassembler the bytes known up to the index `_cur_index` are those below it: what has
-- been written to the output is all that is known before the first gap.
pub cur_index_first_unknown :
    (r : Reassembler) (i : ℕ) → IsValid r → i ≤ r.cur_index → knows r i ≡ ltb i r.cur_index
cur_index_first_unknown r i v h =
    ground (arith, stored_below i r.cur_index (top r) r.list h v.nodes)

-- If the sizes add up to 0 nothing is stored.
sum_sizes_zero :
    (i lo hi ret : ℕ) (ns : List Node)
    → Separated lo hi ns
    → lo ≤ hi
    → IsU64 (ret + (hi - lo))
    → sum_sizes ret ns ≡ 0
    → (ret ≡ 0) × (stored i ns ≡ false)
unfolding sum_sizes
sum_sizes_zero i lo hi ret [] sep h1 h2 h3 = (h3, refl)
sum_sizes_zero i lo hi ret (n ∷ ns) sep h1 h2 h3 =
    let rest =
      sum_sizes_zero i (stop n) hi (add64 ret (length n.s)) ns sep.3 sep.2
        (omega (arith, sep.0, sep.2)) h3 in
    (omega (arith, sep.0, sep.2), ground (arith, rest))

empty-stored :
    (r : Reassembler) (i : ℕ) → IsValid r → IsU64 (top r) → empty r ≡ true → stored i r.list ≡ false
unfolding empty
empty-stored r i v h e =
    (sum_sizes_zero i r.cur_index (top r) 0 r.list v.nodes (omega arith) (omega arith)
      (ground arith)).1

-- A reassembler for a stream of `total` bytes.
pub record Awaits (total : ℕ) (r : Reassembler) : Type 0 where
  pub inside : (i : ℕ) → knows r i ≡ true → i < total
  pub closing : r.eof ≡ true → (i : ℕ) → suc i ≡ total → knows r i ≡ true
  pub ended : r.output.input_is_end ≡ true → r.cur_index ≡ total

-- What a call of `push_substring` is to keep to: its bytes are in the stream, and with `eof` they
-- end it. A call with `eof` and no bytes comes when all bytes are written.
pub record Fits (total : ℕ) (r : Reassembler) (s : List ℕ) (index : ℕ) (eof : Bool) : Type 0 where
  pub within_total : index + length s ≤ total
  pub last : eof ≡ true → index + length s ≡ total
  pub not_bare : eof ≡ true → (0 < length s) ⊎ (total ≤ r.cur_index)

-- To bound a number by what is below it.
all_below : (n total : ℕ) → ((i : ℕ) → i < n → i < total) → n ≤ total
all_below zero total h = omega arith
all_below (suc n) total h = h n (omega arith)

-- A stream of which all bytes are known, up to the first unknown one, is written whole.
written_whole :
    (total : ℕ) (r : Reassembler)
    → IsValid r
    → ((i : ℕ) → i < total → knows r i ≡ true)
    → total ≤ r.cur_index
written_whole total r v h = elim (dec_le total r.cur_index) [
  | yes le ↦ le
  | no gt ↦
      absurd (ground (arith, cur_index_first_unknown r r.cur_index v (omega arith), h r.cur_index))
]

-- If it does, the stream is ended only when all its bytes are written.
Awaits-Pushed :
    (total : ℕ) (r r' : Reassembler) (s : List ℕ) (index : ℕ) (eof : Bool)
    → IsValid r
    → IsU64 (top r)
    → Awaits total r
    → Fits total r s index eof
    → Pushed r s index r'
    → Flags r (lasts r s index eof) r'
    → Awaits total r'
Awaits-Pushed total r r' s index eof v h1 a c p f = record {
  inside = inside';
  closing = closing';
  ended = ended';
}
  where
    inside' : (i : ℕ) → knows r' i ≡ true → i < total
    inside' i h = ground (arith, p.known i, a.inside i, c.within_total)

    closing' : r'.eof ≡ true → (i : ℕ) → suc i ≡ total → knows r' i ≡ true
    closing' h i e = elim (f.eof_from h) [
      | inl now ↦
          let set : eof ≡ true = ground arith in
          let fits : index + length s ≤ top r = ground arith in
          ground (arith, p.known i, c.last set, c.not_bare set)
      | inr before ↦ ground (arith, p.known i, a.closing before i e)
    ]

    still_known : (i : ℕ) → knows r i ≡ true → knows r' i ≡ true
    still_known i h = ground (arith, p.known i)

    not_past : r'.cur_index ≤ total
    not_past = all_below r'.cur_index total (λ i h. inside' i (ground arith))

    last_written : (n : ℕ) → n ≡ total → r'.eof ≡ true → empty r' ≡ true → r'.cur_index ≡ total
    last_written zero e flag none_left = omega (arith, not_past)
    last_written (suc i) e flag none_left =
        let known = closing' flag i e in
        let gone = empty-stored r' i p.valid (omega (arith, p.same_top)) none_left in
        let written : i < r'.cur_index = ground arith in omega (arith, not_past)

    ended' : r'.output.input_is_end ≡ true → r'.cur_index ≡ total
    ended' h = elim (f.end_from h) [
      | inl before ↦
          let whole =
            written_whole total r' p.valid
              (λ i k. still_known i (ground (arith, a.ended before))) in
          omega (arith, not_past)
      | inr (flag, none_left) ↦ last_written total refl flag none_left
    ]

-- On a valid reassembler that awaits a stream of `total` bytes, a call that starts in the window or
-- before it and keeps to that stream is not refused, and leaves a valid reassembler that awaits that
-- stream: it knows no byte past the end, and its output is ended only when all bytes have been
-- written. To keep to the stream, the call's bytes are within the `total` bytes, they end there if
-- `eof` is set, and a call that has `eof` and no bytes comes only when all bytes are written.
pub push_substring-Awaits :
    (total : ℕ) (r : Reassembler) (s : List ℕ) (index : ℕ) (eof : Bool)
    → IsValid r
    → IsU64 (top r)
    → index ≤ top r
    → IsU64 (index + length s)
    → Awaits total r
    → Fits total r s index eof
    → (r' : Reassembler) × (push_substring r s index eof ≡ ok r') × IsValid r' × Awaits total r'
push_substring-Awaits total r s index eof v h1 h2 h3 a c =
    let (r', e, p) = push_substring-Pushed r s index eof v h1 h2 h3 in
    (
      r',
      e,
      p.valid,
      Awaits-Pushed total r r' s index eof v h1 a c p (
          subst (Flagged r (lasts r s index eof)) e (push_substring-Flagged r s index eof v h1 h3)),
    )
