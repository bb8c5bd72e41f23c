-- ===== src/Wire/Checksum/Sum.antt =====
-- The sums of libsponge/util/util.cc as ones' complement sums.
use sponge_2021fall.Common.{
  ℕ, ◌≡◌, ◌<◌, ◌≤◌, ◌+◌, ◌++◌, ◌^◌, ◌/◌, ◌%◌, [], ◌∷◌, List, arith, refl, false, ◌↔◌,
}
use sponge_2021fall.Wire.Checksum.{InternetChecksum, add, value, fold}

-- A packet may be summed in pieces: the bytes of one piece after those of another, also where a piece
-- has an odd number of bytes.
pub add-append : (xs ys : List ℕ) (c : InternetChecksum) → add c (xs ++ ys) ≡ add (add c xs) ys
unfolding add
add-append [] ys c = refl
add-append (x ∷ xs) ys c = add-append xs ys _

-- Two rounds of the loop are enough, and keep the number modulo 2 ^ 16 - 1.
fold-eq :
    (n : ℕ)
    → n < 2 ^ 32
    → (fold 3 n ≤ 0xffff)
      × (fold 3 n ≡ fold 2 n)
      × (fold 3 n % 0xffff ≡ n % 0xffff)
      × ((fold 3 n ≡ 0) ↔ (n ≡ 0))
unfolding fold
fold-eq n h = ground arith

-- The checksum of a packet with an even number of bytes so far verifies: the packet with its
-- checksum added has checksum 0, where the sum does not pass 32 bits.
pub value-add :
    (c : InternetChecksum)
    → c.parity ≡ false
    → c.sum + 0xffff < 2 ^ 32
    → value (add c (value c / 2 ^ 8 ∷ value c % 2 ^ 8 ∷ [])) ≡ 0
unfolding add value fold
value-add c even h = ground arith
