-- ===== src/Wire/Checksum.antt =====
-- `InternetChecksum` of libsponge/util/util.hh and .cc. The loop of `value` runs on fuel: two rounds
-- bring any 32-bit number below 2 ^ 16.
pub mod Sum
pub mod Field
use sponge_2021fall.Common.{
  ℕ, zero, suc, ◌+◌, ◌-◌, ◌*◌, ◌/◌, ◌%◌, ◌^◌, Bool, true, false, not, List, [], ◌∷◌, add32, u16,
  ltb, if◌then◌else◌,
}

pub record InternetChecksum : Type 0 where
  pub sum : ℕ
  pub parity : Bool

-- `InternetChecksum(initial_sum)`
abbrev pub init : ℕ → InternetChecksum
init initial_sum = record { sum = initial_sum; parity = false }

unfoldable pub add : InternetChecksum → List ℕ → InternetChecksum
add c [] = c
add c (byte ∷ bytes) =
    let val = if not c.parity then u16 (byte * 2 ^ 8) else byte in
    add (record { sum = add32 c.sum val; parity = not c.parity }) bytes

-- The loop of `value`.
pub fold : ℕ → ℕ → ℕ
fold zero ret = ret
fold (suc fuel) ret =
    let rest = fold fuel (add32 (ret / 2 ^ 16) (ret % 2 ^ 16)) in
    if ltb 0xffff ret then rest else ret

-- `~ret` as an `uint16_t`.
unfoldable pub value : InternetChecksum → ℕ
unfolding fold
value c = 0xffff - fold 3 c.sum
