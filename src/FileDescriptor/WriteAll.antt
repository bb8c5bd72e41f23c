-- ===== src/FileDescriptor/WriteAll.antt =====
-- The loop of `write` in libsponge/util/file_descriptor.cc.
use sponge_2021fall.Common.{
  ℕ, zero, suc, ◌≡◌, ◌≤◌, ◌<◌, ◌+◌, ◌^◌, refl, subst, arith, Bool, true, false, not, ◌&&◌, List,
  length, length-drop, drop, add64, ltb, ◌==◌, if◌then◌else◌, Result, Returns, bind-Returns,
  any-Returns,
}
use sponge_2021fall.FileDescriptor.{Descriptor, System, write, write_from, write_round}

zero_plus : (n : ℕ) → 0 + n ≡ n
zero_plus n = omega arith

choose-Returns {ℓ} :
    {A : Type ℓ} (P : A → Type 0) (b : Bool) (r s : Result A)
    → (b ≡ true → Returns P r)
    → (b ≡ false → Returns P s)
    → Returns P (if b then r else s)
choose-Returns P true r s h k = h refl
choose-Returns P false r s h k = k refl

module _ {W : Type 0} (system : System W) where
  -- A round that returns has written a byte if there is one, and no more than there are.
  write_round-Returns :
      (d : Descriptor) (buffer : List ℕ) (w : W)
      → Returns
          (λ (r : ℕ × Descriptor × W).
            (r.0 ≤ length buffer) × ((r.0 == 0 && not (length buffer == 0)) ≡ false))
          (write_round system d buffer w)
  unfolding write_round
  write_round-Returns d buffer w =
      bind-Returns (λ r. Unit {0}) _ (system.writev d.fd_num buffer w) _ (any-Returns _)
        (λ r u.
          choose-Returns _ (r.0 == 0 && not (length buffer == 0)) _ _ (λ e. tt)
            (λ e.
              choose-Returns _ (ltb (length buffer) r.0) _ _ (λ f. tt)
                (λ f. (ground (arith, f), e))))

  write_from-Returns :
      (fuel total : ℕ) (d : Descriptor) (buffer : List ℕ) (w : W)
      → length buffer < fuel
      → total + length buffer < 2 ^ 64
      → Returns
          (λ (r : ℕ × Descriptor × W). r.0 ≡ total + length buffer)
          (write_from system fuel true total d buffer w)
  unfolding write_from
  write_from-Returns zero total d buffer w h k = absurd (omega arith)
  write_from-Returns (suc fuel) total d buffer w h k =
      bind-Returns _ _ (write_round system d buffer w) _ (write_round-Returns d buffer w) (λ r m.
        let left = length-drop r.0 buffer in
        let sum : add64 total r.0 ≡ total + r.0 = omega (arith, m.0, k) in
        choose-Returns _ (not (length (drop r.0 buffer) == 0)) _ _
          (λ e.
            let some_written : 1 ≤ r.0 = ground (arith, m.1, e, left) in
            let all : add64 total r.0 + length (drop r.0 buffer) ≡ total + length buffer =
              omega (arith, sum, left, m.0) in
            subst
              (λ n.
                Returns (λ (q : ℕ × Descriptor × W). q.0 ≡ n)
                  (write_from system fuel true (add64 total r.0) r.1 (drop r.0 buffer) r.2))
              all
              (write_from-Returns fuel (add64 total r.0) r.1 (drop r.0 buffer) r.2
                (omega (arith, left, some_written, h)) (omega (arith, all, k))))
          (λ e. ground (arith, e, sum, left, m.0)))

  -- Writing all of a string that is shorter than 2 ^ 64 bytes either throws or writes all of it.
  pub write-all :
      (d : Descriptor) (buffer : List ℕ) (w : W)
      → length buffer < 2 ^ 64
      → Returns (λ (r : ℕ × Descriptor × W). r.0 ≡ length buffer) (write system d buffer true w)
  unfolding write
  write-all d buffer w h =
      subst
        (λ n.
          Returns (λ (r : ℕ × Descriptor × W). r.0 ≡ n)
            (write_from system (suc (length buffer)) true 0 d buffer w))
        (zero_plus (length buffer))
        (write_from-Returns (suc (length buffer)) 0 d buffer w (omega arith) (omega (arith, h)))
