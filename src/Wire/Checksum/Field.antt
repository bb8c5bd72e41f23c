-- ===== src/Wire/Checksum/Field.antt =====
-- A checksum of libsponge/util/util.cc in a field of the bytes that it covers.
use sponge_2021fall.Common.{
  ℕ, ◌≡◌, ◌<◌, ◌≤◌, ◌+◌, ◌*◌, ◌++◌, ◌^◌, ◌/◌, ◌%◌, [], ◌∷◌, List, arith, refl, false, Bool, not,
  ◌==◌, if◌then◌else◌, length, ap, ◌∙◌, IsU8, add32, suc, u16, true,
}
use sponge_2021fall.Wire.Bytes.{AllBytes}
use sponge_2021fall.Wire.Parser.{put16}
use sponge_2021fall.Wire.Checksum.{InternetChecksum, init, add, value, fold}
use sponge_2021fall.Wire.Checksum.Sum.{add-append}

abbrev word : Bool → ℕ → ℕ
word p x = if not p then u16 (x * 2 ^ 8) else x

word-le : (p : Bool) (x : ℕ) → IsU8 x → word p x ≤ 65280
word-le p x h = ground arith

add-le :
    (xs : List ℕ) (s : ℕ) (p : Bool)
    → AllBytes xs
    → (add (record { sum = s; parity = p }) xs).sum ≤ s + 65280 * length xs
unfolding add
add-le [] s p h = omega arith
add-le (x ∷ xs) s p h =
    let tail-le : (add (record { sum = add32 s (word p x); parity = not p }) xs).sum
        ≤ add32 s (word p x) + 65280 * length xs =
      add-le xs (add32 s (word p x)) (not p) h.1 in
    omega (arith, tail-le, word-le p x h.0)

flip_lem :
    (n : ℕ) (p : Bool)
    → (if n % 2 == 0 then not p else not (not p)) ≡ (if suc n % 2 == 0 then p else not p)
flip_lem n false = ground arith
flip_lem n true = ground arith

add-parity :
    (xs : List ℕ) (c : InternetChecksum)
    → (add c xs).parity ≡ (if length xs % 2 == 0 then c.parity else not c.parity)
unfolding add
add-parity [] c = refl
add-parity (x ∷ xs) c = add-parity xs _ ∙ flip_lem (length xs) c.parity

-- A number that is added first may be added last.
add-shift :
    (xs : List ℕ) (s d : ℕ) (p : Bool)
    → AllBytes xs
    → s + d + 65280 * length xs < 2 ^ 32
    → add (record { sum = s + d; parity = p }) xs ≡ record {
      sum = (add (record { sum = s; parity = p }) xs).sum + d;
      parity = (add (record { sum = s; parity = p }) xs).parity;
    }
unfolding add
add-shift [] s d p h b = refl
add-shift (x ∷ xs) s d p h b =
    let moved : add32 (s + d) (word p x) ≡ add32 s (word p x) + d =
      omega (arith, word-le p x h.0, b) in
    let bound : add32 s (word p x) + d + 65280 * length xs < 2 ^ 32 =
      omega (arith, word-le p x h.0, b) in
    ap (λ n. add (record { sum = n; parity = not p }) xs) moved
    ∙ add-shift xs (add32 s (word p x)) d (not p) h.1 bound

value_self :
    (s : ℕ) (p q : Bool)
    → s + 0xffff < 2 ^ 32
    → value (record { sum = s + value (record { sum = s; parity = p }); parity = q }) ≡ 0
unfolding value fold
value_self s p q h = ground arith

plus_zero : (n : ℕ) → n + 0 ≡ n
plus_zero n = omega arith

pub value-lt : (c : InternetChecksum) → value c < 2 ^ 16
unfolding value
value-lt c = omega arith

-- The number in the field, last.
sum-field :
    (s v : ℕ) (lead trail : List ℕ)
    → length lead % 2 ≡ 0
    → AllBytes lead
    → AllBytes trail
    → v < 2 ^ 16
    → s + 65280 * (length lead + length trail) + 2 * 0xffff < 2 ^ 32
    → (let z = add (record { sum = (add (init s) lead).sum; parity = false }) trail in
        (z.sum + 0xffff < 2 ^ 32)
        × (add (init s) (lead ++ (put16 [] v ++ trail))
            ≡ record { sum = z.sum + v; parity = z.parity }))
unfolding put16 add
sum-field s v lead trail even h k b bound =
    let sum = (add (init s) lead).sum in
    let low : sum ≤ s + 65280 * length lead = add-le lead s false h in
    let last : (add (record { sum = sum; parity = false }) trail).sum ≤ sum + 65280 * length trail =
      add-le trail sum false k in
    let even' : (add (init s) lead).parity ≡ false =
      ground (arith, even, add-parity lead (init s)) in
    let written : add32 (add32 sum (u16 ((v / 2 ^ (1 * 8) % 2 ^ 8) * 2 ^ 8)))
          (v / 2 ^ (0 * 8) % 2 ^ 8)
        ≡ sum + v =
      omega (arith, low, b, bound) in
    let shifted : sum + v + 65280 * length trail < 2 ^ 32 = omega (arith, low, b, bound) in
    (
      omega (arith, low, last, bound),
      rw (add-append lead (put16 [] v ++ trail) (init s), even')
          (ap (λ n. add (record { sum = n; parity = false }) trail) written
            ∙ add-shift trail sum v false k shifted),
    )

-- A checksum is computed with zeros in its field, which stands at an even place, and then written
-- there. The packet with it has checksum 0, whatever number `s` the sum starts from, where the
-- bytes are not so many that the sum passes 32 bits.
pub value-field :
    (s : ℕ) (lead trail : List ℕ)
    → length lead % 2 ≡ 0
    → AllBytes lead
    → AllBytes trail
    → s + 65280 * (length lead + length trail) + 2 * 0xffff < 2 ^ 32
    → value (
        add
          (init s)
          (lead ++ (put16 [] (value (add (init s) (lead ++ (put16 [] 0 ++ trail)))) ++ trail)))
      ≡ 0
value-field s lead trail even h k b =
    let z = add (record { sum = (add (init s) lead).sum; parity = false }) trail in
    let v = value (record { sum = z.sum; parity = z.parity }) in
    let (fits, zeroed) = sum-field s 0 lead trail even h k (omega arith) b in
    let zero_last : value (add (init s) (lead ++ (put16 [] 0 ++ trail))) ≡ v =
      ap value zeroed ∙ ap (λ n. value (record { sum = n; parity = z.parity })) (plus_zero z.sum) in
    let (_, written) = sum-field s v lead trail even h k (value-lt z) b in
    rw (zero_last) (ap value written ∙ value_self z.sum z.parity z.parity fits)
