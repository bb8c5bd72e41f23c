-- ===== src/Seqno/RoundTrip.antt =====
-- `wrap` and `unwrap` of libsponge/wrapping_integers.cc as inverses of one another.
use sponge_2021fall.Common.{
  ℕ, ◌+◌, ◌-◌, ◌%◌, ◌^◌, ◌/◌, ◌≤◌, ◌<◌, ◌≡◌, refl, ap, arith, add64, sub32, IsU64,
}
use sponge_2021fall.Seqno.{WrappingInt32, IsValid, mask, difference, wrap, offset, nearest, unwrap}

-- Both branches compute the difference modulo 2 ^ 32.
offset-eq :
    (n isn : WrappingInt32)
    → IsValid n
    → IsValid isn
    → offset n isn ≡ sub32 n.raw_value isn.raw_value
unfolding offset difference
offset-eq n isn hn hi = ground arith

unfoldable pub dist : ℕ → ℕ → ℕ
dist a b = (a - b) + (b - a)

nearest-mod :
    (res checkpoint : ℕ)
    → IsU64 res
    → IsU64 checkpoint
    → nearest res checkpoint % 2 ^ 32 ≡ res % 2 ^ 32
unfolding nearest
nearest-mod res checkpoint hr hc = ground arith

nearest_lt : (res checkpoint : ℕ) → IsU64 res → IsU64 checkpoint → IsU64 (nearest res checkpoint)
unfolding nearest
nearest_lt res checkpoint hr hc = ground arith

nearest_closest :
    (res checkpoint m : ℕ)
    → IsU64 res
    → IsU64 checkpoint
    → IsU64 m
    → res / 2 ^ 32 ≡ checkpoint / 2 ^ 32
    → m % 2 ^ 32 ≡ res % 2 ^ 32
    → dist (nearest res checkpoint) checkpoint ≤ dist m checkpoint
unfolding nearest dist
nearest_closest res checkpoint m hr hc hm block same = ground arith

module _ (n isn : WrappingInt32) (checkpoint : ℕ) where
  base : ℕ
  base = add64 (checkpoint - checkpoint % (mask + 1)) (offset n isn)

  base_facts :
      IsValid n
      → IsValid isn
      → IsU64 checkpoint
      → IsU64 base
        × (base / 2 ^ 32 ≡ checkpoint / 2 ^ 32)
        × (base % 2 ^ 32 ≡ sub32 n.raw_value isn.raw_value)
  unfolding base
  base_facts hn hi hc = omega (arith, offset-eq n isn hn hi)

  -- The absolute number that `unwrap` gives wraps back to `n`, and fits 64 bits.
  pub wrap-unwrap :
      IsValid n
      → IsValid isn
      → IsU64 checkpoint
      → (wrap (unwrap n isn checkpoint) isn ≡ n) × IsU64 (unwrap n isn checkpoint)
  unfolding wrap unwrap base
  wrap-unwrap hn hi hc =
      let b = base_facts hn hi hc in
      let m = nearest-mod base checkpoint b.0 hc in
      (ap (λ v. record { raw_value = v }) (omega arith), nearest_lt base checkpoint b.0 hc)

  -- `unwrap` gives a 64-bit number that wraps back to `n`, and no other that wraps to `n` is closer to
  -- the checkpoint.
  pub unwrap_closest :
      (m : ℕ)
      → IsValid n
      → IsValid isn
      → IsU64 checkpoint
      → IsU64 m
      → wrap m isn ≡ n
      → (wrap (unwrap n isn checkpoint) isn ≡ n)
        × IsU64 (unwrap n isn checkpoint)
        × (dist (unwrap n isn checkpoint) checkpoint ≤ dist m checkpoint)
  unfolding wrap unwrap base
  unwrap_closest m hn hi hc hm e =
      let b = base_facts hn hi hc in
      let raw = ap (λ (w : WrappingInt32). w.raw_value) e in
      let back = wrap-unwrap hn hi hc in
      (back.0, back.1, nearest_closest base checkpoint m b.0 hc hm b.1 (omega arith))

-- A 64-bit number survives `wrap` and `unwrap` if the checkpoint is less than 2 ^ 31 away from it.
pub unwrap-wrap :
    (m : ℕ) (isn : WrappingInt32) (checkpoint : ℕ)
    → IsValid isn
    → IsU64 m
    → IsU64 checkpoint
    → dist m checkpoint < 2 ^ 31
    → unwrap (wrap m isn) isn checkpoint ≡ m
unfolding dist wrap
unwrap-wrap m isn checkpoint hi hm hc near =
    let valid : IsValid (wrap m isn) = omega arith in
    let back = wrap-unwrap (wrap m isn) isn checkpoint valid hi hc in
    let raw = ap (λ (w : WrappingInt32). w.raw_value) back.0 in
    let close = (unwrap_closest (wrap m isn) isn checkpoint m valid hi hc hm refl).2 in omega arith
