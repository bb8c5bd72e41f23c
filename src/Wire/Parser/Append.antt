-- ===== src/Wire/Parser/Append.antt =====
-- The unparser of libsponge/util/parser.cc writes at the end of its string.
use sponge_2021fall.Common.{ℕ, ◌≡◌, ◌<◌, ◌++◌, ◌^◌, [], ◌∷◌, List, arith, refl, ap, append_assoc}
use sponge_2021fall.Wire.Bytes.{AllBytes}
use sponge_2021fall.Wire.Parser.{init, u8, put32, put16, put8}

pub put8-append : (s : List ℕ) (val : ℕ) → put8 s val ≡ s ++ put8 [] val
unfolding put8
put8-append s val = refl

pub put16-append : (s : List ℕ) (val : ℕ) → put16 s val ≡ s ++ put16 [] val
unfolding put16
put16-append s val = simp append_assoc

pub put32-append : (s : List ℕ) (val : ℕ) → put32 s val ≡ s ++ put32 [] val
unfolding put32
put32-append s val = simp append_assoc

pub u8-byte :
    (byte : ℕ) (rest : List ℕ) → byte < 2 ^ 8 → u8 (init (byte ∷ rest)) ≡ (byte, init rest)
unfolding u8
u8-byte byte rest h = ground arith

pub put8-byte : (s : List ℕ) (byte : ℕ) → byte < 2 ^ 8 → put8 s byte ≡ s ++ byte ∷ []
unfolding put8
put8-byte s byte h = ap (λ b. s ++ b ∷ []) (omega arith)

pub put8-AllBytes : (val : ℕ) (rest : List ℕ) → AllBytes rest → AllBytes (put8 [] val ++ rest)
unfolding put8
put8-AllBytes val rest h = (omega arith, h)

pub put16-AllBytes : (val : ℕ) (rest : List ℕ) → AllBytes rest → AllBytes (put16 [] val ++ rest)
unfolding put16
put16-AllBytes val rest h = (omega arith, (omega arith, h))

pub put32-AllBytes : (val : ℕ) (rest : List ℕ) → AllBytes rest → AllBytes (put32 [] val ++ rest)
unfolding put32
put32-AllBytes val rest h = (omega arith, (omega arith, (omega arith, (omega arith, h))))
