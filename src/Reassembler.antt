-- ===== src/Reassembler.antt =====
-- libsponge/stream_reassembler.hh and .cc: substrings of a byte stream, in any order and with
-- overlaps, put together in order. `goto out` is a call of `finish`, `throw` is `Result.throw`, and
-- `size_t` arithmetic wraps: `right + 1` is the end of the substring, also when it is empty at 0.
pub mod Stream
pub mod Nodes
pub mod Overlaps
pub mod Merge
pub mod Finish
pub mod Update
pub mod Push
pub mod Flags
pub mod Eof
pub mod Faults
mod Examples
use sponge_2021fall.Common.{
  ℕ, ◌+◌, ◌-◌, ◌%◌, ◌^◌, ◌≡◌, Bool, true, false, ◌&&◌, ◌||◌, List, [], ◌∷◌, ◌++◌, length, take,
  drop, add64, sub64, ltb, leb, ◌==◌, if◌then◌else◌, Result, ok, throw, runtime_error, out_of_range,
  ◌>>=◌,
}
use sponge_2021fall.ByteStream.{ByteStream, remaining_capacity, write, end_input}
use sponge_2021fall.ByteStream

-- `_list_node`: the bytes from `beg` to `end`, both included.
pub record Node : Type 0 where
  pub s : List ℕ
  pub beg : ℕ
  pub end : ℕ

pub record Reassembler : Type 0 where
  pub output : ByteStream
  pub capacity : ℕ
  pub cur_index : ℕ
  pub eof : Bool
  pub list : List Node

-- The constructor `StreamReassembler(capacity)`.
unfoldable pub init : ℕ → Reassembler
unfolding ByteStream.init
init capacity = record {
  output = ByteStream.init capacity;
  capacity = capacity;
  cur_index = 0;
  eof = false;
  list = [];
}

-- The loop of `unassembled_bytes`, with its `ret`.
pub sum_sizes : ℕ → List Node → ℕ
sum_sizes ret [] = ret
sum_sizes ret (e ∷ es) = sum_sizes (add64 ret (length e.s)) es

unfoldable pub unassembled_bytes : Reassembler → ℕ
unfolding sum_sizes
unassembled_bytes r = sum_sizes 0 r.list

unfoldable pub empty : Reassembler → Bool
unfolding unassembled_bytes
empty r = unassembled_bytes r == 0

-- The branches of the first loop, for a stored node against the substring from `left` to `right`.
pub data Overlap : Type 0 where
  irrelevant covers inside before after impossible : Overlap

pub overlap : ℕ → ℕ → Node → Overlap
overlap left right n =
    if ltb (add64 n.end 1) left || ltb (add64 right 1) n.beg
    then irrelevant
    else if leb n.beg left && leb right n.end
    then covers
    else if leb n.end right && leb left n.beg
    then inside
    else if leb left (add64 n.end 1) && leb (add64 n.end 1) right
    then before
    else if leb (add64 left 1) n.beg && leb n.beg (add64 right 1)
    then after
    else impossible

-- How the first loop ends: by `goto out`, or with the substring grown and the touched nodes erased.
pub data Outcome : Type 0 where
  covered : List Node → Outcome
  merged : List ℕ → ℕ → ℕ → List Node → Outcome

-- `++it`: the node stays.
pub keep : Node → Result Outcome → Result Outcome
keep n (ok (covered ns)) = ok (covered (n ∷ ns))
keep n (ok (merged s left right ns)) = ok (merged s left right (n ∷ ns))
keep n (throw e) = throw e

-- `s.substr(from, npos)`
pub substr_from : List ℕ → ℕ → Result (List ℕ)
substr_from s from = if leb from (length s) then ok (drop from s) else throw out_of_range

pub merge : ℕ → ℕ → List ℕ → List Node → Result Outcome
unfolding overlap keep substr_from
merge left right s [] = ok (merged s left right [])
merge left right s (n ∷ ns) = elim (overlap left right n) [
  | irrelevant ↦ keep n (merge left right s ns)
  | covers ↦ ok (covered (n ∷ ns))
  | inside ↦ merge left right s ns
  | before ↦ merge n.beg right (take (sub64 left n.beg) n.s ++ s) ns
  | after ↦ (substr_from n.s (sub64 (add64 right 1) n.beg) >>= λ t. merge left n.end (s ++ t) ns)
  | impossible ↦ throw runtime_error
]

-- The second loop: before the first node that begins past the new one.
pub insert : Node → List Node → List Node
insert n [] = n ∷ []
insert n (m ∷ ms) = if ltb (add64 n.end 1) m.beg then n ∷ m ∷ ms else m ∷ insert n ms

-- The code at the label `out`.
pub finish : Reassembler → Bool → Reassembler
unfolding empty end_input
finish r should_set_eof =
    let e = should_set_eof || r.eof in
    let r' = record r { eof = e } in
    if e && empty r' then record r' { output = end_input r.output } else r'

-- What follows the first loop.
pub store : Reassembler → List ℕ → ℕ → ℕ → Bool → Result Reassembler
unfolding insert finish write
store r s left right should_set_eof =
    if left == r.cur_index
    then (let (n, output) = write r.output s in
        if length s == n
        then ok (
            finish (record r { output = output; cur_index = add64 r.cur_index (length s) })
              should_set_eof)
        else throw runtime_error)
    else ok (
        finish (record r { list = insert (record { s = s; beg = left; end = right }) r.list })
          should_set_eof)

pub settle : Reassembler → Bool → Outcome → Result Reassembler
unfolding store finish
settle r should_set_eof (covered ns) = ok (finish (record r { list = ns }) should_set_eof)
settle r should_set_eof (merged s left right ns) =
    store (record r { list = ns }) s left right should_set_eof

-- From `right = ...` on.
pub assemble : Reassembler → List ℕ → ℕ → Bool → Result Reassembler
unfolding merge settle
assemble r s left should_set_eof =
    merge left (sub64 (add64 left (length s)) 1) s r.list >>= settle r should_set_eof

-- From "too long to fit in the reassembler" on.
pub fit : Reassembler → List ℕ → ℕ → Bool → ℕ → Result Reassembler
unfolding assemble
fit r s left eof first_unavailable =
    if ltb first_unavailable (add64 left (length s))
    then assemble r (take (sub64 first_unavailable left) s) left false
    else assemble r s left eof

unfoldable pub push_substring : Reassembler → List ℕ → ℕ → Bool → Result Reassembler
unfolding fit finish remaining_capacity
push_substring r s index eof =
    let first_unavailable = add64 r.cur_index (remaining_capacity r.output) in
    let offset = sub64 r.cur_index index in
    if first_unavailable == r.cur_index
    then ok r
    else (if ltb index r.cur_index
        then (if leb (length s) offset
            then ok (finish r eof)
            else fit r (drop offset s) r.cur_index eof first_unavailable)
        else fit r s index eof first_unavailable)
