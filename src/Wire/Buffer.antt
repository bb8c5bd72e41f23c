-- ===== src/Wire/Buffer.antt =====
-- libsponge/util/buffer.hh and .cc: strings that discard bytes from the front. Elsewhere a `Buffer`
-- is the bytes that it shows, `str`.
pub mod Bytes
use sponge_2021fall.Common.{
  ℕ, zero, suc, ◌+◌, ◌-◌, ◌%◌, ◌^◌, Bool, true, false, Option, none, some, List, [], ◌∷◌, ◌++◌,
  length, drop, add64, sub64, ltb, ◌==◌, if◌then◌else◌, Result, ok, throw, runtime_error,
  out_of_range, take,
}

pub record Buffer : Type 0 where
  pub storage : Option (List ℕ)
  pub starting_offset : ℕ

-- `Buffer(std::string &&)`
unfoldable pub of_string : List ℕ → Buffer
of_string s = record { storage = some s; starting_offset = 0 }

unfoldable pub str : Buffer → List ℕ
str b = elim b.storage [ none ↦ [] | some s ↦ drop b.starting_offset s ]

unfoldable pub size : Buffer → ℕ
unfolding str
size b = length (str b)

-- `_storage.reset()` once all bytes are discarded.
pub release : Option (List ℕ) → ℕ → Option (List ℕ)
release none offset = none
release (some s) offset = if offset == length s then none else some s

unfoldable pub remove_prefix : Buffer → ℕ → Result Buffer
unfolding str release
remove_prefix b n =
    let offset = add64 b.starting_offset n in
    if ltb (length (str b)) n
    then throw out_of_range
    else ok (record { storage = release b.storage offset; starting_offset = offset })

-- A `BufferList`, as what each of its buffers shows.
abbrev pub BufferList : Type 0
BufferList = List (List ℕ)

-- `BufferList::append`
unfoldable pub append : BufferList → BufferList → BufferList
append bufs other = bufs ++ other

-- `BufferList::operator Buffer()`
unfoldable pub to_buffer : BufferList → Result (List ℕ)
to_buffer [] = ok []
to_buffer (b ∷ []) = ok b
to_buffer (b ∷ c ∷ bufs) = throw runtime_error

-- The loop of `BufferList::concatenate`, with its `ret`.
pub concat_from : List ℕ → BufferList → List ℕ
concat_from ret [] = ret
concat_from ret (b ∷ bufs) = concat_from (ret ++ b) bufs

unfoldable pub concatenate : BufferList → List ℕ
unfolding concat_from
concatenate bufs = concat_from [] bufs

-- The loop of `BufferList::size`.
pub size_from : ℕ → BufferList → ℕ
size_from ret [] = ret
size_from ret (b ∷ bufs) = size_from (add64 ret (length b)) bufs

unfoldable pub list_size : BufferList → ℕ
unfolding size_from
list_size bufs = size_from 0 bufs

-- `BufferList::remove_prefix`
unfoldable pub remove_list_prefix : BufferList → ℕ → Result BufferList
remove_list_prefix [] n = if n == 0 then ok [] else throw out_of_range
remove_list_prefix (b ∷ bufs) n =
    let rest = remove_list_prefix bufs (n - length b) in
    if n == 0 then ok (b ∷ bufs) else if ltb n (length b) then ok (drop n b ∷ bufs) else rest

-- A `BufferViewList`, as what each of its views shows, made of the buffers of a `BufferList`.
unfoldable pub views_of : BufferList → BufferList
views_of [] = []
views_of (b ∷ bufs) = b ∷ views_of bufs

-- `BufferViewList::remove_prefix`, the same loop
unfoldable pub remove_view_prefix : BufferList → ℕ → Result BufferList
unfolding remove_list_prefix
remove_view_prefix views n = remove_list_prefix views n

-- `BufferViewList::size`, the same loop
unfoldable pub view_size : BufferList → ℕ
unfolding list_size
view_size views = list_size views

-- An `iovec`: where its bytes are, here the bytes from there on, and how many.
pub record IoVec : Type 0 where
  pub iov_base : List ℕ
  pub iov_len : ℕ

-- `BufferViewList::as_iovecs`
unfoldable pub as_iovecs : BufferList → List IoVec
as_iovecs [] = []
as_iovecs (x ∷ views) = record { iov_base = x; iov_len = length x } ∷ as_iovecs views
