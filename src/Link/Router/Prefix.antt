-- ===== src/Link/Router/Prefix.antt =====
-- The test of a rule in libsponge/router.cc, which is on an exclusive or, as a test on high bits.
use Prim.Native.Nat.{digits, differ, bit_xor-bitwise}
use native.Mathlib.Nat.{pow-succ', div-div-eq-div-mul, div-one, zero-div}
use native.Mathlib.Decide.{dec_le}
use sponge_2021fall.Common.{
  ℕ, zero, suc, ◌+◌, ◌-◌, ◌/◌, ◌%◌, ◌^◌, ◌≡◌, ◌≤◌, ◌↔◌, arith, true, bit_xor, ◌==◌, IsU32, ap, sym,
  ◌∙◌,
}
use sponge_2021fall.Link.Router.{RouteRule, matches}

abbrev xor_digits : ℕ → ℕ → ℕ → ℕ
xor_digits n a b = digits (λ b. b) differ n a b

differ-eq : (x y : ℕ) → differ x y ≡ (x - y) + (y - x)
differ-eq zero y = omega arith
differ-eq (suc x) zero = omega arith
differ-eq (suc x) (suc y) = omega (arith, differ-eq x y)

-- Two numbers are equal where all digits agree, whatever number of digits is looked at beyond them.
xor_digits_zero : (n a b : ℕ) → a ≤ n → (xor_digits n a b ≡ 0) ↔ (a ≡ b)
xor_digits_zero zero zero b h = (λ e. omega arith, λ e. omega arith)
xor_digits_zero zero (suc a) b h = absurd (omega arith)
xor_digits_zero (suc n) zero b h = (λ e. omega arith, λ e. omega arith)
xor_digits_zero (suc n) (suc a) b h =
    let (to, from) = xor_digits_zero n (suc a / 2) (b / 2) (omega arith) in
    let digit = differ-eq (suc a % 2) (b % 2) in
    (
      λ e. omega (arith, digit, to (omega (arith, digit))),
      λ e. omega (arith, digit, from (omega (arith, digit))),
    )

halve : (k x : ℕ) → x / 2 ^ suc k ≡ x / 2 / 2 ^ k
halve k x = ap (λ d. x / d) (pow-succ' 2 k) ∙ sym (div-div-eq-div-mul x 2 (2 ^ k))

-- The high digits are equal where the high digits of the exclusive or are 0.
xor_digits_high : (k n a b : ℕ) → a ≤ n → (xor_digits n a b / 2 ^ k ≡ 0) ↔ (a / 2 ^ k ≡ b / 2 ^ k)
xor_digits_high zero n a b h = (
  λ e. ap (λ x. x / 1) ((xor_digits_zero n a b h).0 (sym (div-one _) ∙ e)),
  λ e. div-one _ ∙ (xor_digits_zero n a b h).1 (sym (div-one a) ∙ e ∙ div-one b),
)
xor_digits_high (suc k) zero zero b h =
    let none_left = zero-div (2 ^ suc k) in (λ e. none_left ∙ sym e, λ e. sym e ∙ none_left)
xor_digits_high (suc k) zero (suc a) b h = absurd (omega arith)
xor_digits_high (suc k) (suc n) zero b h =
    let none_left = zero-div (2 ^ suc k) in (λ e. none_left ∙ sym e, λ e. sym e ∙ none_left)
xor_digits_high (suc k) (suc n) (suc a) b h =
    let (to, from) = xor_digits_high k n (suc a / 2) (b / 2) (omega arith) in
    let low : xor_digits (suc n) (suc a) b / 2 ≡ xor_digits n (suc a / 2) (b / 2) =
      omega (arith, differ-eq (suc a % 2) (b % 2)) in
    let shifted = halve k (xor_digits (suc n) (suc a) b) ∙ ap (λ x. x / 2 ^ k) low in
    (
      λ e. halve k (suc a) ∙ to (sym shifted ∙ e) ∙ sym (halve k b),
      λ e. shifted ∙ from (sym (halve k (suc a)) ∙ e ∙ halve k b),
    )

-- A rule with a prefix of up to 32 bits matches a destination exactly if that many high bits of the
-- two 32-bit addresses agree.
pub matches-prefix :
    (target : ℕ) (rule : RouteRule)
    → IsU32 target
    → IsU32 rule.route_prefix
    → rule.prefix_length ≤ 32
    → (matches target rule ≡ true)
      ↔ (target / 2 ^ (32 - rule.prefix_length) ≡ rule.route_prefix / 2 ^ (32 - rule.prefix_length))
unfolding matches
matches-prefix target rule h1 h2 h3 =
    let k = 32 - rule.prefix_length in
    let (to, from) = xor_digits_high k target target rule.route_prefix (omega arith) in
    let same : bit_xor target rule.route_prefix / 2 ^ k
        ≡ xor_digits target target rule.route_prefix / 2 ^ k =
      ap (λ x. x / 2 ^ k) (bit_xor-bitwise target rule.route_prefix) in
    elim (dec_le 1 rule.prefix_length) [
      | yes some_bits ↦
          let test : (bit_xor target rule.route_prefix / 2 ^ k == 0) ≡ true
              → bit_xor target rule.route_prefix / 2 ^ k ≡ 0 =
            λ e. ground arith in
          (λ e. to (sym same ∙ test (ground arith)), λ e. ground (arith, same ∙ from e))
      | no no_bits ↦
          let whole : rule.prefix_length ≡ 0 = omega arith in
          let none_left : target / 2 ^ 32 ≡ rule.route_prefix / 2 ^ 32 = omega arith in
          (
            λ e.
                ap (λ (n : ℕ). target / 2 ^ (32 - n)) whole
                ∙ none_left
                ∙ ap (λ (n : ℕ). rule.route_prefix / 2 ^ (32 - n)) (sym whole),
            λ e. ground arith,
          )
    ]
