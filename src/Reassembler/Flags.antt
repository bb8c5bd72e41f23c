-- ===== src/Reassembler/Flags.antt =====
-- Which calls of `push_substring` in libsponge/stream_reassembler.cc may set `_eof` and end the
-- stream.
use sponge_2021fall.Common.{
  ℕ, Bool, List, ◌≡◌, arith, ok, true, ◌⊎◌, IsU64, Result, false, if_cases, ◌&&◌, leb, throw, ◌+◌,
  ◌==◌, ◌>>=◌, length, refl, sub64, Bool-cases, add64, ltb, inl, inr, runtime_error, drop,
  length-drop, take,
}
use sponge_2021fall.ByteStream.{write, remaining_capacity}
use sponge_2021fall.Reassembler.{
  Reassembler, empty, finish, store, settle, assemble, fit, push_substring, Outcome, covered,
  merged, merge, insert,
}
use sponge_2021fall.Reassembler.Finish.{top, IsValid}
use sponge_2021fall.ByteStream.Fifo.{remaining_capacity-eq}

-- The flags of `r'` after a push to `r`, where `b` tells whether the push may set `_eof`.
pub record Flags (r : Reassembler) (b : Bool) (r' : Reassembler) : Type 0 where
  pub eof_from : r'.eof ≡ true → (b ≡ true) ⊎ (r.eof ≡ true)
  pub end_from :
      r'.output.input_is_end ≡ true
      → (r.output.input_is_end ≡ true) ⊎ ((r'.eof ≡ true) × (empty r' ≡ true))

finish-Flags :
    (r q : Reassembler) (b : Bool)
    → q.eof ≡ r.eof
    → q.output.input_is_end ≡ r.output.input_is_end
    → Flags r b (finish q b)
unfolding finish
finish-Flags r q b h1 h2 = record { eof_from = λ h. ground arith; end_from = λ h. ground arith }

abbrev pub Flagged : Reassembler → Bool → Result Reassembler → Type 0
Flagged r b (ok r') = Flags r b r'
Flagged r b (throw e) = Unit {0}

settle-Flagged : (r : Reassembler) (b : Bool) (o : Outcome) → Flagged r b (settle r b o)
unfolding settle store
settle-Flagged r b (covered ns) = finish-Flags r (record r { list = ns }) b refl refl
settle-Flagged r b (merged s left right ns) =
    let written = record r {
      output = (write r.output s).1;
      cur_index = add64 r.cur_index (length s);
      list = ns;
    } in
    let kept = record r { list = insert (record { s = s; beg = left; end = right }) ns } in
    if_cases (Flagged r b) (left == r.cur_index)
      (if_cases (Flagged r b) (length s == (write r.output s).0) {x = ok (finish written b)}
        {y = throw runtime_error} (finish-Flags r written b refl refl) tt)
      (finish-Flags r kept b refl refl)

assemble-Flagged :
    (r : Reassembler) (s : List ℕ) (left : ℕ) (b : Bool) → Flagged r b (assemble r s left b)
unfolding assemble
assemble-Flagged r s left b = after_merge (merge left (sub64 (add64 left (length s)) 1) s r.list)
  where
    after_merge : (o : Result Outcome) → Flagged r b (o >>= settle r b)
    after_merge (ok o) = settle-Flagged r b o
    after_merge (throw e) = tt

weaken-Flagged :
    (r : Reassembler) (b : Bool) (o : Result Reassembler) → Flagged r false o → Flagged r b o
weaken-Flagged r b (ok r') f = record {
  eof_from = λ h. ground (arith, f.eof_from h);
  end_from = f.end_from;
}
weaken-Flagged r b (throw e) f = tt

-- A push may set `_eof` only if its last byte is in the window.
abbrev pub lasts : Reassembler → List ℕ → ℕ → Bool → Bool
lasts r s index eof = eof && leb (index + length s) (top r)

fit-Flagged :
    (r : Reassembler) (s : List ℕ) (left t : ℕ) (b : Bool)
    → IsU64 (left + length s)
    → Flagged r (b && leb (left + length s) t) (fit r s left b t)
unfolding fit
fit-Flagged r s left t b h = elim (Bool-cases (ltb t (add64 left (length s)))) [
  | inl long ↦ rw long (
      weaken-Flagged r (b && leb (left + length s) t) _
        (assemble-Flagged r (take (sub64 t left) s) left false))
  | inr short ↦
      let fits : (b && leb (left + length s) t) ≡ b = ground arith in
      rw (short, fits) (assemble-Flagged r s left b)
]

pub push_substring-Flagged :
    (r : Reassembler) (s : List ℕ) (index : ℕ) (eof : Bool)
    → IsValid r
    → IsU64 (top r)
    → IsU64 (index + length s)
    → Flagged r (lasts r s index eof) (push_substring r s index eof)
unfolding push_substring
push_substring-Flagged r s index eof v h1 h2 =
    let first : add64 r.cur_index (remaining_capacity r.output) ≡ top r =
      omega (arith, remaining_capacity-eq v.output) in
    rw first (elim (Bool-cases (top r == r.cur_index)) [
      | inl full ↦ rw full (record { eof_from = λ h. inr h; end_from = λ h. inl h })
      | inr room ↦ elim (Bool-cases (ltb index r.cur_index)) [
        | inl old ↦ elim (Bool-cases (leb (length s) (sub64 r.cur_index index))) [
          | inl all ↦
              let fits : lasts r s index eof ≡ eof = ground arith in
              rw (room, old, all, fits) (finish-Flags r r eof refl refl)
          | inr some_new ↦
              let offset = sub64 r.cur_index index in
              let past : r.cur_index + length (drop offset s) ≡ index + length s =
                ground (arith, length-drop offset s) in
              rw (room, old, some_new, ← past)
                (fit-Flagged r (drop offset s) r.cur_index (top r) eof (omega arith))
        ]
        | inr new ↦ rw (room, new) (fit-Flagged r s index (top r) eof h2)
      ]
    ])
