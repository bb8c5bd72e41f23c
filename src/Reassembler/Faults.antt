-- ===== src/Reassembler/Faults.antt =====
-- Where `push_substring` of libsponge/stream_reassembler.cc departs from its documentation.
use sponge_2021fall.Common.{
  ℕ, [], ok, IsU64, List, Bool, ◌≡◌, ◌<◌, ◌+◌, ◌≤◌, length, true, ◌-◌, ◌∷◌, add64, arith, ◌==◌,
  false, ltb, refl, take, sub64, take-all,
}
use sponge_2021fall.ByteStream.{remaining_capacity, end_input}
use sponge_2021fall.ByteStream.Fifo.{remaining_capacity-eq}
use sponge_2021fall.Reassembler.{
  Reassembler, push_substring, Node, unassembled_bytes, merge, finish,
}
use sponge_2021fall.Reassembler.Finish.{top, knows, IsValid, finish_cases}

-- A call with `eof` and no bytes, ahead of the bytes written so far and within the window, ends the
-- stream although the bytes up to its index have not come, where nothing is stored.
pub bare_eof_ends_early :
    (r : Reassembler) (index : ℕ)
    → IsValid r
    → IsU64 (top r)
    → r.list ≡ []
    → r.cur_index < index
    → index ≤ top r
    → (r' : Reassembler) × (push_substring r [] index true ≡ ok r')
      × (r'.output.input_is_end ≡ true)
      × (r'.cur_index < index)
unfolding push_substring
bare_eof_ends_early r index v h1 e h2 h3 =
    let first : add64 r.cur_index (remaining_capacity r.output) ≡ top r =
      omega (arith, remaining_capacity-eq v.output) in
    let room : (top r == r.cur_index) ≡ false = ground arith in
    let new : ltb index r.cur_index ≡ false = ground arith in
    let fits : ltb (top r) (add64 index 0) ≡ false = ground arith in
    let stays : (index == r.cur_index) ≡ false = ground arith in
    (
      record r {
        output = end_input r.output;
        eof = true;
        list = record { s = []; beg = index; end = sub64 (add64 index 0) 1 } ∷ [];
      },
      rw (first, room, new, fits, e, merge, stays) refl,
      refl,
      h2,
    )

-- A substring that starts past the window is stored whole, whatever the capacity, where nothing is
-- stored yet and the stream has room.
pub beyond_window_stored :
    (r : Reassembler) (s : List ℕ) (index i : ℕ) (eof : Bool)
    → IsValid r
    → IsU64 (top r)
    → r.cur_index < top r
    → r.list ≡ []
    → top r < index
    → IsU64 (index + length s)
    → IsU64 (length s + (index - top r))
    → index ≤ i
    → i < index + length s
    → (r' : Reassembler) × (push_substring r s index eof ≡ ok r')
      × (unassembled_bytes r' ≡ length s)
      × (knows r' i ≡ true)
unfolding push_substring
beyond_window_stored r s index i eof v h1 h2 e h3 h4 h5 lo hi =
    let first : add64 r.cur_index (remaining_capacity r.output) ≡ top r =
      omega (arith, remaining_capacity-eq v.output) in
    let room : (top r == r.cur_index) ≡ false = ground arith in
    let new : ltb index r.cur_index ≡ false = ground arith in
    let long : ltb (top r) (add64 index (length s)) ≡ true = ground arith in
    let stays : (index == r.cur_index) ≡ false = ground arith in
    let whole : take (sub64 (top r) index) s ≡ s = take-all (sub64 (top r) index) s (omega arith) in
    let node : Node = record { s = s; beg = index; end = sub64 (add64 index (length s)) 1 } in
    let q : Reassembler = record r { list = node ∷ [] } in
    (
      finish q false,
      rw (first, room, new, long, whole, e, merge, stays) refl,
      finish_cases (λ p. unassembled_bytes p ≡ length s) q false (λ b. omega arith)
          (λ b. omega arith),
      finish_cases (λ p. knows p i ≡ true) q false (λ b. ground arith) (λ b. ground arith),
    )
