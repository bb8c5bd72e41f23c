-- ===== src/Wire/Buffer/Bytes.antt =====
-- The operations of libsponge/util/buffer.cc on the bytes that are shown.
use sponge_2021fall.Common.{
  ℕ, ◌≡◌, ◌<◌, ◌≤◌, ◌+◌, ◌-◌, ◌^◌, ◌++◌, [], ◌∷◌, List, arith, refl, length, ok, throw,
  out_of_range, drop, none, some, sym, ◌∙◌, append-nil, append_assoc, ltb, Option, Result,
  if◌then◌else◌, suc, length-append, length-drop, zero, drop-all, ap, add64, ap₂, take-all, take,
}
use sponge_2021fall.Wire.Buffer.{
  Buffer, str, remove_prefix, BufferList, concatenate, concat_from, remove_list_prefix, list_size,
  size_from, release, as_iovecs, views_of, IoVec,
}

concat_from-append :
    (s : List ℕ) (bufs : BufferList) → concat_from s bufs ≡ s ++ concat_from [] bufs
unfolding concat_from
concat_from-append s [] = sym (append-nil s)
concat_from-append s (b ∷ bufs) =
    rw (concat_from-append (s ++ b) bufs, concat_from-append b bufs) (append_assoc s b _)

pub concatenate-append :
    (b : List ℕ) (bufs : BufferList) → concatenate (b ∷ bufs) ≡ b ++ concatenate bufs
unfolding concatenate concat_from
concatenate-append b bufs = concat_from-append b bufs

-- The first bytes of two strings are removed from the first, and then from the second.
drop-append :
    (n : ℕ) (b c : List ℕ)
    → drop n (b ++ c) ≡ (if ltb n (length b) then drop n b ++ c else drop (n - length b) c)
drop-append zero [] c = refl
drop-append zero (x ∷ b) c = ground arith
drop-append (suc n) [] c = ground arith
drop-append (suc n) (x ∷ b) c = ground (arith, drop-append n b c)

drop_zero : (s : List ℕ) → drop 0 s ≡ s
drop_zero s = refl

-- What a list of buffers shows after its first bytes are removed.
abbrev pub shown : Result BufferList → Result (List ℕ)
shown (throw e) = throw e
shown (ok bufs) = ok (concatenate bufs)

-- Removing `n` bytes from a list of buffers, each of them possibly empty, leaves the concatenated
-- bytes after the first `n`. It throws exactly if there are fewer than `n` bytes.
pub remove_list_prefix-drop :
    (bufs : BufferList) (n : ℕ)
    → shown (remove_list_prefix bufs n) ≡ (
        if ltb (length (concatenate bufs)) n
        then throw out_of_range
        else ok (drop n (concatenate bufs)))
unfolding remove_list_prefix concatenate
remove_list_prefix-drop [] zero = ground arith
remove_list_prefix-drop [] (suc n) = ground arith
remove_list_prefix-drop (b ∷ bufs) n = ground (
  arith,
  remove_list_prefix-drop bufs (n - length b),
  concatenate-append b bufs,
  drop-append n b (concatenate bufs),
  length-append b (concatenate bufs),
  concatenate-append (drop n b) bufs,
  drop_zero (concatenate (b ∷ bufs)),
)

-- The offset is in the string that is shared.
abbrev pub offset-Ok : ℕ → Option (List ℕ) → Type 0
offset-Ok n none = Unit {0}
offset-Ok n (some s) = (n ≤ length s) × (length s < 2 ^ 64)

abbrev pub IsValid : Buffer → Type 0
IsValid b = offset-Ok b.starting_offset b.storage

abbrev pub shown_buffer : Result Buffer → Result (List ℕ)
shown_buffer (throw e) = throw e
shown_buffer (ok b) = ok (str b)

shift : (m n : ℕ) → suc (m + n) ≡ suc m + n
shift m n = omega arith

drop-drop : (m n : ℕ) (s : List ℕ) → drop n (drop m s) ≡ drop (m + n) s
drop-drop zero n s = ap (λ k. drop k s) (omega arith)
drop-drop (suc m) zero [] = sym (drop-all (suc m + 0) [] (omega arith))
drop-drop (suc m) (suc n) [] = sym (drop-all (suc m + suc n) [] (omega arith))
drop-drop (suc m) n (x ∷ s) = drop-drop m n s ∙ ap (λ k. drop k (x ∷ s)) (shift m n)

remove_prefix-drop_of :
    (storage : Option (List ℕ)) (offset n : ℕ)
    → offset-Ok offset storage
    → (let b : Buffer = record { storage = storage; starting_offset = offset } in
        shown_buffer (remove_prefix b n)
        ≡ (if ltb (length (str b)) n then throw out_of_range else ok (drop n (str b))))
unfolding remove_prefix str release
remove_prefix-drop_of none offset zero h = ground arith
remove_prefix-drop_of none offset (suc n) h = ground arith
remove_prefix-drop_of (some s) offset n h =
    ground (arith, h, drop-drop offset n s, length-drop offset s, drop-all (offset + n) s)

pub remove_prefix-drop :
    (b : Buffer) (n : ℕ)
    → IsValid b
    → shown_buffer (remove_prefix b n)
      ≡ (if ltb (length (str b)) n then throw out_of_range else ok (drop n (str b)))
unfolding remove_prefix str release
remove_prefix-drop b n h = remove_prefix-drop_of b.storage b.starting_offset n h

size_from-length :
    (n : ℕ) (bufs : BufferList)
    → n + length (concatenate bufs) < 2 ^ 64
    → size_from n bufs ≡ n + length (concatenate bufs)
unfolding size_from concatenate
size_from-length n [] h = omega arith
size_from-length n (b ∷ bufs) h =
    let all : length (concatenate (b ∷ bufs)) ≡ length b + length (concatenate bufs) =
      ap length (concatenate-append b bufs) ∙ length-append b (concatenate bufs) in
    let first : add64 n (length b) ≡ n + length b = omega (arith, all) in
    ap (λ k. size_from k bufs) first
    ∙ size_from-length (n + length b) bufs (omega (arith, all))
    ∙ omega (arith, all)

-- The size of a list of buffers is the number of bytes that it shows, if that fits 64 bits.
pub list_size-length :
    (bufs : BufferList)
    → length (concatenate bufs) < 2 ^ 64
    → list_size bufs ≡ length (concatenate bufs)
unfolding list_size
list_size-length bufs h = omega (arith, size_from-length 0 bufs (omega arith))

-- What a system call gathers from a vector of them.
abbrev pub gathered : List IoVec → List ℕ
gathered [] = []
gathered (v ∷ vs) = take v.iov_len v.iov_base ++ gathered vs

-- The system call that is given the vectors of a list of buffers gets the bytes of the list, in
-- their order, however they are split.
pub gathered-as_iovecs :
    (bufs : BufferList) → gathered (as_iovecs (views_of bufs)) ≡ concatenate bufs
unfolding as_iovecs views_of
gathered-as_iovecs [] = unfold concatenate concat_from in refl
gathered-as_iovecs (b ∷ bufs) =
    ap₂ (λ x y. x ++ y) (take-all (length b) b (omega arith)) (gathered-as_iovecs bufs)
    ∙ sym (concatenate-append b bufs)
