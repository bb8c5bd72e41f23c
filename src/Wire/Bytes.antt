-- ===== src/Wire/Bytes.antt =====
-- What the packet formats share: bits of a byte, the padding of `string::resize`, and arrays of
-- bytes.
use sponge_2021fall.Common.{
  ℕ, IsU8, zero, suc, ◌-◌, ◌/◌, ◌%◌, ◌^◌, ◌≤◌, ◌≡◌, refl, ap, arith, Bool, false, List, [], ◌∷◌,
  ◌++◌, length, length-append, take, take-all, drop, ltb, ◌==◌, if◌then◌else◌,
}
use sponge_2021fall.Wire.Parser.{init, remove_prefix}

-- `static_cast<bool>(n & 2 ^ place)`
abbrev pub flag : ℕ → ℕ → Bool
flag place n = (n / 2 ^ place) % 2 == 1

-- The bit at a place, if the flag is set.
abbrev pub bit : ℕ → Bool → ℕ
bit place b = if b then 2 ^ place else 0

pub zeros : ℕ → List ℕ
zeros zero = []
zeros (suc n) = 0 ∷ zeros n

-- `string::resize`
abbrev pub resize : ℕ → List ℕ → List ℕ
resize n s = take n s ++ zeros (n - length s)

pub resize-long : (n : ℕ) (s : List ℕ) → length s ≤ n → resize n s ≡ s ++ zeros (n - length s)
resize-long n s h = ap (λ t. t ++ zeros (n - length s)) (take-all n s h)

pub length-zeros : (n : ℕ) → length (zeros n) ≡ n
unfolding zeros
length-zeros zero = refl
length-zeros (suc n) = omega (arith, length-zeros n)

drop-zeros : (n : ℕ) (rest : List ℕ) → drop n (zeros n ++ rest) ≡ rest
unfolding zeros
drop-zeros zero rest = refl
drop-zeros (suc n) rest = drop-zeros n rest

pub remove_prefix-zeros :
    (n : ℕ) (rest : List ℕ) → remove_prefix (init (zeros n ++ rest)) n ≡ init rest
unfolding remove_prefix
remove_prefix-zeros n rest =
    let long : ltb (length (zeros n ++ rest)) n ≡ false =
      ground (arith, length-append (zeros n) rest, length-zeros n) in
    rw (long, drop-zeros n rest) refl

abbrev pub AllBytes : List ℕ → Type 0
AllBytes [] = Unit {0}
AllBytes (x ∷ xs) = IsU8 x × AllBytes xs

pub append-AllBytes : (s t : List ℕ) → AllBytes s → AllBytes t → AllBytes (s ++ t)
append-AllBytes [] t h k = k
append-AllBytes (x ∷ s) t h k = (h.0, append-AllBytes s t h.1 k)

pub zeros-AllBytes : (n : ℕ) → AllBytes (zeros n)
unfolding zeros
zeros-AllBytes zero = tt
zeros-AllBytes (suc n) = (omega arith, zeros-AllBytes n)
