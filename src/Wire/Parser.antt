-- ===== src/Wire/Parser.antt =====
-- libsponge/util/parser.hh and .cc: integers in network byte order. A `Buffer` is the bytes that it
-- shows; `T` is the unsigned type of `len` bytes.
pub mod RoundTrip
pub mod Append
use sponge_2021fall.Common.{
  ℕ, zero, suc, ◌+◌, ◌-◌, ◌*◌, ◌/◌, ◌%◌, ◌^◌, Bool, true, false, not, List, [], ◌∷◌, ◌++◌, length,
  take, drop, ltb, if◌then◌else◌,
}

pub data ParseResult : Type 0 where
  no_error bad_checksum packet_too_short wrong_ip_version header_too_short truncated_packet
        unsupported :
      ParseResult

pub record NetParser : Type 0 where
  pub buffer : List ℕ
  pub error : ParseResult

-- `NetParser(Buffer)`
abbrev pub init : List ℕ → NetParser
init buffer = record { buffer = buffer; error = no_error }

abbrev pub is_error : ParseResult → Bool
is_error no_error = false
is_error _ = true

pub check_size : NetParser → ℕ → NetParser
check_size p size = if ltb (length p.buffer) size then record p { error = packet_too_short } else p

-- The loop of `_parse_int`, over the bytes that it reads.
pub read_int : ℕ → ℕ → List ℕ → ℕ
read_int len ret [] = ret
read_int len ret (byte ∷ bytes) = read_int len ((ret * 2 ^ 8 + byte) % 2 ^ (8 * len)) bytes

pub parse_int : ℕ → NetParser → ℕ × NetParser
unfolding check_size read_int
parse_int len p =
    let p' = check_size p len in
    if is_error p'.error
    then (0, p')
    else (read_int len 0 (take len p'.buffer), record p' { buffer = drop len p'.buffer })

unfoldable pub remove_prefix : NetParser → ℕ → NetParser
unfolding check_size
remove_prefix p n =
    let p' = check_size p n in
    if is_error p'.error then p' else record p' { buffer = drop n p'.buffer }

unfoldable pub u32 : NetParser → ℕ × NetParser
unfolding parse_int
u32 p = parse_int 4 p

unfoldable pub u16 : NetParser → ℕ × NetParser
unfolding parse_int
u16 p = parse_int 2 p

unfoldable pub u8 : NetParser → ℕ × NetParser
unfolding parse_int
u8 p = parse_int 1 p

-- The loop of `_unparse_int` where `left` bytes are still to be written.
pub unparse_int : ℕ → List ℕ → ℕ → List ℕ
unparse_int zero s val = s
unparse_int (suc left) s val = unparse_int left (s ++ (val / 2 ^ (left * 8)) % 2 ^ 8 ∷ []) val

-- `NetUnparser::u32` and so on.
unfoldable pub put32 : List ℕ → ℕ → List ℕ
unfolding unparse_int
put32 s val = unparse_int 4 s val

unfoldable pub put16 : List ℕ → ℕ → List ℕ
unfolding unparse_int
put16 s val = unparse_int 2 s val

unfoldable pub put8 : List ℕ → ℕ → List ℕ
unfolding unparse_int
put8 s val = unparse_int 1 s val
