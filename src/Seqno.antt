-- ===== src/Seqno.antt =====
-- libsponge/wrapping_integers.hh and .cc: 32-bit sequence numbers, and their translation to and
-- from absolute 64-bit ones. `n & 0xFFFFFFFF` is `n % 2 ^ 32`.
pub mod RoundTrip
mod Examples
use sponge_2021fall.Common.{
  ℕ, ◌+◌, ◌-◌, ◌%◌, ◌^◌, ◌/◌, max, Bool, not, ◌||◌, ℤ, signed32, is_negative, u32, add32, sub32,
  add64, sub64, ltb, leb, ◌==◌, if◌then◌else◌, IsU32,
}

pub record WrappingInt32 : Type 0 where
  pub raw_value : ℕ

abbrev pub IsValid : WrappingInt32 → Type 0
IsValid a = IsU32 a.raw_value

-- `UINT32_MAX`, and `uint64_t mask = 0xFFFFFFFF`.
abbrev pub mask : ℕ
mask = 0xFFFFFFFF

-- `operator-(WrappingInt32, WrappingInt32)`: the difference as an `int32_t`.
unfoldable pub difference : WrappingInt32 → WrappingInt32 → ℤ
difference a b = signed32 (sub32 a.raw_value b.raw_value)

-- `operator==(WrappingInt32, WrappingInt32)`.
unfoldable pub equals : WrappingInt32 → WrappingInt32 → Bool
equals a b = a.raw_value == b.raw_value

-- `operator+(WrappingInt32, uint32_t)`.
unfoldable pub plus : WrappingInt32 → ℕ → WrappingInt32
plus a b = record { raw_value = add32 a.raw_value b }

-- `operator-(WrappingInt32, uint32_t)`: `a + -b`.
unfoldable pub minus : WrappingInt32 → ℕ → WrappingInt32
unfolding plus
minus a b = plus a (sub32 0 b)

unfoldable pub wrap : ℕ → WrappingInt32 → WrappingInt32
wrap n isn = record { raw_value = u32 (add64 (n % (mask + 1)) isn.raw_value % (mask + 1)) }

-- The `uint32_t off` of `unwrap`.
offset : WrappingInt32 → WrappingInt32 → ℕ
unfolding difference
offset n isn =
    if is_negative (difference n isn)
    then sub32 mask (sub32 (sub32 isn.raw_value n.raw_value) 1)
    else sub32 n.raw_value isn.raw_value

-- The choice among `res` and its neighbours 2 ^ 32 away.
nearest : ℕ → ℕ → ℕ
nearest res checkpoint =
    if leb res checkpoint
    then (if leb (sub64 checkpoint res) (add64 mask 1 / 2)
        then res
        else max res (add64 res (add64 mask 1)))
    else (if leb (sub64 res checkpoint) (add64 mask 1 / 2) || ltb res (add64 mask 1)
        then res
        else sub64 res (add64 mask 1))

unfoldable pub unwrap : WrappingInt32 → WrappingInt32 → ℕ → ℕ
unfolding offset nearest
unwrap n isn checkpoint =
    nearest (add64 (checkpoint - checkpoint % (mask + 1)) (offset n isn)) checkpoint
