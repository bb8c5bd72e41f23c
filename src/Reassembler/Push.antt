-- ===== src/Reassembler/Push.antt =====
-- `push_substring` of libsponge/stream_reassembler.cc as an update of the set of known bytes.
use sponge_2021fall.Common.{
  ℕ, Bool, List, IsU64, min, ◌+◌, ◌≡◌, ◌≤◌, length, ltb, ◌<◌, ◌||◌, arith, drop, ok, Bool-cases,
  add64, sub64, ◌&&◌, inl, length-drop, refl, ◌==◌, inr, length-take, ◌∙◌, leb, take, false, sym,
}
use sponge_2021fall.ByteStream.{remaining_capacity}
use sponge_2021fall.ByteStream.Fifo.{remaining_capacity-eq}
use sponge_2021fall.Reassembler.{finish, fit, push_substring, Reassembler}
use sponge_2021fall.Reassembler.Stream.{Carries, Carries-drop, Carries-take}
use sponge_2021fall.Reassembler.Finish.{top, knows, Holds, IsValid, finish-Adds}
use sponge_2021fall.Reassembler.Update.{assemble-Adds}
use sponge_2021fall.Reassembler.Nodes.{stored, within}

-- The update by the bytes of `s` from `index` on in full, with what is held of a stream `f`.
record Pushes (r : Reassembler) (s : List ℕ) (index : ℕ) (r' : Reassembler) : Type 0 where
  valid : IsValid r'
  same_top : top r' ≡ top r
  known : (i : ℕ) → knows r' i ≡ (knows r i || within i index (index + length s) && ltb i (top r))
  carried : (f : ℕ → ℕ) → Carries f index s → Holds f r → Holds f r'

-- Cutting a substring at the end of the window, and at the end of the written bytes.
within_cut :
    (k : Bool) (i left past t last : ℕ)
    → last ≡ min past t
    → (k || within i left last) ≡ (k || within i left past && ltb i t)
within_cut k i left past t last h = ground arith

within_trim :
    (k : Bool) (i written index past t : ℕ)
    → index ≤ written
    → ((ltb i written || k) || within i written past && ltb i t)
      ≡ ((ltb i written || k) || within i index past && ltb i t)
within_trim k i written index past t h = ground arith

within_known :
    (k : Bool) (i written index past t : ℕ)
    → min past t ≤ written
    → (ltb i written || k) ≡ ((ltb i written || k) || within i index past && ltb i t)
within_known k i written index past t h = ground arith

fit-Pushes :
    (r : Reassembler) (s : List ℕ) (left : ℕ) (b : Bool)
    → IsValid r
    → IsU64 (top r)
    → r.cur_index ≤ left
    → left ≤ top r
    → IsU64 (left + length s)
    → (r' : Reassembler) × (fit r s left b (top r) ≡ ok r') × Pushes r s left r'
unfolding fit
fit-Pushes r s left b v h1 h2 h3 h4 = elim (Bool-cases (ltb (top r) (add64 left (length s)))) [
  | inl long ↦
      let room = sub64 (top r) left in
      let size = length-take room s in
      let longer : top r < left + length s = ground arith in
      let (r', e, a) = assemble-Adds r (take room s) left false v h1 h2 (omega arith) in
      (
        r',
        rw long e,
        record {
          valid = a.valid;
          same_top = a.same_top;
          known = λ i.
              a.known i ∙ within_cut (knows r i) i left (left + length s) (top r) _ (omega arith);
          carried = λ f c h. a.carried f (Carries-take f left room s c) h;
        },
      )
  | inr short ↦
      let shorter : left + length s ≤ top r = ground arith in
      let (r', e, a) = assemble-Adds r s left b v h1 h2 shorter in
      (
        r',
        rw short e,
        record {
          valid = a.valid;
          same_top = a.same_top;
          known = λ i.
              a.known i ∙ within_cut (knows r i) i left (left + length s) (top r) _ (omega arith);
          carried = a.carried;
        },
      )
]

-- A substring that ends before the stream does.
old-Pushes :
    (r : Reassembler) (s : List ℕ) (index : ℕ)
    → IsValid r
    → min (index + length s) (top r) ≤ r.cur_index
    → Pushes r s index r
old-Pushes r s index v h = record {
  valid = v;
  same_top = refl;
  known = λ i. within_known (stored i r.list) i r.cur_index index (index + length s) (top r) h;
  carried = λ f c k. k;
}

within_old :
    (k : Bool) (i written index past : ℕ)
    → past ≤ written
    → (ltb i written || k) ≡ ((ltb i written || k) || within i index past)
within_old k i written index past h = ground arith

finish-Pushes :
    (r : Reassembler) (s : List ℕ) (index : ℕ) (b : Bool)
    → IsValid r
    → index + length s ≤ r.cur_index
    → Pushes r s index (finish r b)
finish-Pushes r s index b v h =
    let old = λ (i : ℕ). within_old (stored i r.list) i r.cur_index index (index + length s) h in
    let p = old-Pushes r s index v (omega arith) in
    let a =
      finish-Adds r r s index (index + length s) b
        (record { valid = v; same_top = refl; known = old; carried = λ f c k. k }) in
    record {
      valid = a.valid;
      same_top = a.same_top;
      known = λ i. a.known i ∙ sym (old i) ∙ p.known i;
      carried = a.carried;
    }

-- The bytes that the stream has already are cut off.
fit_rest-Pushes :
    (r : Reassembler) (s : List ℕ) (index : ℕ) (b : Bool)
    → IsValid r
    → IsU64 (top r)
    → index < r.cur_index
    → r.cur_index < index + length s
    → IsU64 (index + length s)
    → (r' : Reassembler) × (fit r (drop (sub64 r.cur_index index) s) r.cur_index b (top r) ≡ ok r')
      × Pushes r s index r'
fit_rest-Pushes r s index b v h1 h2 h3 h4 =
    let offset = sub64 r.cur_index index in
    let size = length-drop offset s in
    let past : r.cur_index + length (drop offset s) ≡ index + length s = omega arith in
    let (r', e, p) =
      fit-Pushes r (drop offset s) r.cur_index b v h1 (omega arith) (omega arith) (omega arith) in
    (
      r',
      e,
      record {
        valid = p.valid;
        same_top = p.same_top;
        known = λ i.
            p.known i
            ∙ rw past (
                within_trim (stored i r.list) i r.cur_index index (index + length s) (top r)
                  (omega arith));
        carried = λ f c h.
            p.carried f (Carries-drop f index r.cur_index offset s (omega arith) (omega arith) c) h;
      },
    )

push_substring-Pushes :
    (r : Reassembler) (s : List ℕ) (index : ℕ) (eof : Bool)
    → IsValid r
    → IsU64 (top r)
    → index ≤ top r
    → IsU64 (index + length s)
    → (r' : Reassembler) × (push_substring r s index eof ≡ ok r') × Pushes r s index r'
unfolding push_substring
push_substring-Pushes r s index eof v h1 h2 h3 =
    let first : add64 r.cur_index (remaining_capacity r.output) ≡ top r =
      omega (arith, remaining_capacity-eq v.output) in
    rw first (elim (Bool-cases (top r == r.cur_index)) [
      | inl full ↦ (r, rw full, old-Pushes r s index v (ground arith))
      | inr room ↦ elim (Bool-cases (ltb index r.cur_index)) [
        | inl old ↦ elim (Bool-cases (leb (length s) (sub64 r.cur_index index))) [
          | inl all ↦ (_, rw (room, old, all), finish-Pushes r s index eof v (ground arith))
          | inr some_new ↦
              rw (room, old, some_new)
                (fit_rest-Pushes r s index eof v h1 (ground arith) (ground arith) h3)
        ]
        | inr new ↦ rw (room, new) (fit-Pushes r s index eof v h1 (ground arith) h2 h3)
      ]
    ])

-- What `push_substring` is to do with the bytes of `s` from `index` on: add those in the window.
pub record Pushed (r : Reassembler) (s : List ℕ) (index : ℕ) (r' : Reassembler) : Type 0 where
  pub valid : IsValid r'
  pub same_top : top r' ≡ top r
  pub known :
      (i : ℕ) → knows r' i ≡ (knows r i || within i index (index + length s) && ltb i (top r))

-- On a valid reassembler a substring that starts in the window or before it is never refused with
-- an exception. Of its bytes exactly those in the window become known, the window keeps its end,
-- and the reassembler stays valid.
pub push_substring-Pushed :
    (r : Reassembler) (s : List ℕ) (index : ℕ) (eof : Bool)
    → IsValid r
    → IsU64 (top r)
    → index ≤ top r
    → IsU64 (index + length s)
    → (r' : Reassembler) × (push_substring r s index eof ≡ ok r') × Pushed r s index r'
push_substring-Pushed r s index eof v h1 h2 h3 =
    let (r', e, p) = push_substring-Pushes r s index eof v h1 h2 h3 in
    (r', e, record { valid = p.valid; same_top = p.same_top; known = p.known })

-- If all bytes that a valid reassembler holds, written or stored, are those of the stream `f`, and
-- so are the bytes of a substring that starts in the window or before it, then all bytes held after
-- the call are those of `f`, each at its index.
pub push_substring-Holds :
    (f : ℕ → ℕ) (r : Reassembler) (s : List ℕ) (index : ℕ) (eof : Bool)
    → IsValid r
    → IsU64 (top r)
    → index ≤ top r
    → IsU64 (index + length s)
    → Carries f index s
    → Holds f r
    → (r' : Reassembler) × (push_substring r s index eof ≡ ok r') × Holds f r'
push_substring-Holds f r s index eof v h1 h2 h3 c h =
    let (r', e, p) = push_substring-Pushes r s index eof v h1 h2 h3 in (r', e, p.carried f c h)
