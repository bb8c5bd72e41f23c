-- ===== src/Wire/Parser/RoundTrip.antt =====
-- Integers written and read by libsponge/util/parser.cc.
use sponge_2021fall.Common.{ℕ, ◌≡◌, ◌<◌, ◌++◌, ◌^◌, [], List, arith}
use sponge_2021fall.Wire.Parser.{init, u32, u16, u8, put32, put16, put8}

-- An integer of 32 bits that is written to an empty string is read back, whatever bytes follow it,
-- and those bytes are what is left to parse.
pub u32-put32 :
    (val : ℕ) (rest : List ℕ) → val < 2 ^ 32 → u32 (init (put32 [] val ++ rest)) ≡ (val, init rest)
unfolding u32 put32
u32-put32 val rest h = ground arith

-- An integer of 16 bits that is written to an empty string is read back, whatever bytes follow it,
-- and those bytes are what is left to parse.
pub u16-put16 :
    (val : ℕ) (rest : List ℕ) → val < 2 ^ 16 → u16 (init (put16 [] val ++ rest)) ≡ (val, init rest)
unfolding u16 put16
u16-put16 val rest h = ground arith

-- An integer of 8 bits that is written to an empty string is read back, whatever bytes follow it,
-- and those bytes are what is left to parse.
pub u8-put8 :
    (val : ℕ) (rest : List ℕ) → val < 2 ^ 8 → u8 (init (put8 [] val ++ rest)) ≡ (val, init rest)
unfolding u8 put8
u8-put8 val rest h = ground arith
