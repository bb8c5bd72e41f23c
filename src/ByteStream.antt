-- ===== src/ByteStream.antt =====
-- libsponge/byte_stream.hh and .cc: the flow-controlled in-memory byte stream. Counters are
-- 64-bit words. `string::substr` throws in the source where it starts past the end of the string;
-- the one start other than 0 is the `real_len` of `pop_output`, which is below `_cur_cap` there.
pub mod Fifo
mod Examples
use sponge_2021fall.Common.{
  ℕ, ◌+◌, ◌-◌, ◌%◌, ◌^◌, min, Bool, true, false, ◌&&◌, List, [], ◌++◌, length, take, drop, add64,
  sub64, ◌==◌, if◌then◌else◌,
}

pub record ByteStream : Type 0 where
  pub str : List ℕ
  pub capacity : ℕ
  pub cur_cap : ℕ
  pub bytes_read : ℕ
  pub bytes_written : ℕ
  pub input_is_end : Bool
  pub error : Bool

-- The constructor `ByteStream(capacity)`.
unfoldable pub init : ℕ → ByteStream
init capacity = record {
  str = [];
  capacity = capacity;
  cur_cap = 0;
  bytes_read = 0;
  bytes_written = 0;
  input_is_end = false;
  error = false;
}

-- `string::substr(from, count)`, for `from` within the string.
abbrev pub substr : List ℕ → ℕ → ℕ → List ℕ
substr s from count = take count (drop from s)

unfoldable pub buffer_size : ByteStream → ℕ
buffer_size b = b.cur_cap

unfoldable pub remaining_capacity : ByteStream → ℕ
remaining_capacity b = sub64 b.capacity b.cur_cap

unfoldable pub buffer_empty : ByteStream → Bool
unfolding buffer_size
buffer_empty b = buffer_size b == 0

unfoldable pub input_ended : ByteStream → Bool
input_ended b = b.input_is_end

unfoldable pub eof : ByteStream → Bool
unfolding input_ended buffer_empty
eof b = input_ended b && buffer_empty b

unfoldable pub write : ByteStream → List ℕ → ℕ × ByteStream
unfolding remaining_capacity
write b bytes =
    let real_len = min (length bytes) (remaining_capacity b) in
    (
      real_len,
      record b {
        str = b.str ++ substr bytes 0 real_len;
        bytes_written = add64 b.bytes_written real_len;
        cur_cap = add64 b.cur_cap real_len;
      },
    )

unfoldable pub peek_output : ByteStream → ℕ → List ℕ
unfolding buffer_size
peek_output b len = substr b.str 0 (min len (buffer_size b))

unfoldable pub pop_output : ByteStream → ℕ → ByteStream
unfolding buffer_size
pop_output b len =
    let real_len = min len (buffer_size b) in
    record b {
      str =
          if real_len == buffer_size b
          then []
          else substr b.str real_len (sub64 (buffer_size b) real_len);
      cur_cap = sub64 b.cur_cap real_len;
      bytes_read = add64 b.bytes_read real_len;
    }

unfoldable pub read : ByteStream → ℕ → List ℕ × ByteStream
unfolding buffer_size peek_output pop_output
read b len =
    let real_len = min len (buffer_size b) in (peek_output b real_len, pop_output b real_len)

unfoldable pub end_input : ByteStream → ByteStream
end_input b = record b { input_is_end = true }

unfoldable pub set_error : ByteStream → ByteStream
set_error b = record b { error = true }
