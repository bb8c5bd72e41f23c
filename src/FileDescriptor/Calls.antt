-- ===== src/FileDescriptor/Calls.antt =====
-- Calls of libsponge/util/file_descriptor.cc on a system that behaves.
use sponge_2021fall.Common.{
  ℕ, ◌≡◌, ◌≤◌, ◌<◌, ◌^◌, refl, add32, arith, min, false, not, ◌&&◌, List, ◌++◌, length, take, ltb,
  ◌==◌, if◌then◌else◌, Yields, ok-Yields, bind-Yields, else-Yields, add64,
}
use sponge_2021fall.FileDescriptor.{
  Descriptor, System, read, write, write_from, write_round, buffer_size,
}

-- What the system promises: a call on a descriptor that is ready returns, `read` gives at most as
-- many bytes as it is asked for, `writev` takes bytes from the front, and one at least if there is
-- one. `taken j` are the bytes that have been read from the descriptor `j`, and `given j` those
-- that have been written to it.
pub record Behaves {W : Type 0} (system : System W) (taken given : ℕ → W → List ℕ) : Type 0 where
  pub reads :
      (fd size : ℕ) (w : W)
      → Yields
          (λ (r : List ℕ × W).
            (length r.0 ≤ size)
            × ((j : ℕ) → taken j r.1 ≡ (if j == fd then taken j w ++ r.0 else taken j w))
            × ((j : ℕ) → given j r.1 ≡ given j w))
          (system.read fd size w)
  pub writes :
      (fd : ℕ) (bytes : List ℕ) (w : W)
      → Yields
          (λ (r : ℕ × W).
            (r.0 ≤ length bytes)
            × ((r.0 == 0 && not (length bytes == 0)) ≡ false)
            × ((j : ℕ) → given j r.1 ≡ (if j == fd then given j w ++ take r.0 bytes else given j w))
            × ((j : ℕ) → taken j r.1 ≡ taken j w))
          (system.writev fd bytes w)
  pub closes :
      (fd : ℕ) (w : W)
      → Yields
          (λ v. ((j : ℕ) → taken j v ≡ taken j w) × ((j : ℕ) → given j v ≡ given j w))
          (system.close fd w)
  pub shuts :
      (fd how : ℕ) (w : W)
      → Yields
          (λ v. ((j : ℕ) → taken j v ≡ taken j w) × ((j : ℕ) → given j v ≡ given j w))
          (system.shutdown fd how w)

module _ {W : Type 0} (system : System W) (taken given : ℕ → W → List ℕ)
    (h : Behaves system taken given) where
  pub read-Yields :
      (d : Descriptor) (limit : ℕ) (w : W)
      → Yields
          (λ (r : List ℕ × Descriptor × W).
            (length r.0 ≤ limit)
            × (r.1.fd_num ≡ d.fd_num)
            × ((d.read_count == r.1.read_count) ≡ false)
            × ((j : ℕ) → taken j r.2 ≡ (if j == d.fd_num then taken j w ++ r.0 else taken j w))
            × ((j : ℕ) → given j r.2 ≡ given j w))
          (read system d limit w)
  unfolding read
  read-Yields d limit w = bind-Yields _ _ _ _ (h.reads d.fd_num (min buffer_size limit) w) (λ r k.
      else-Yields _ (ltb (min buffer_size limit) (length r.0)) _ _ (ground (arith, k.0))
        (ok-Yields _ _ (omega (arith, k.0), refl, ground arith, k.1, k.2)))

  -- One call of `writev`.
  pub write-Yields :
      (d : Descriptor) (bytes : List ℕ) (w : W)
      → length bytes < 2 ^ 64
      → Yields
          (λ (r : ℕ × Descriptor × W).
            (r.0 ≤ length bytes)
            × (r.1.fd_num ≡ d.fd_num)
            × (r.1.write_count ≡ add32 d.write_count 1)
            × ((j : ℕ)
                → given j r.2 ≡ (if j == d.fd_num then given j w ++ take r.0 bytes else given j w))
            × ((j : ℕ) → taken j r.2 ≡ taken j w))
          (write system d bytes false w)
  unfolding write write_from write_round
  write-Yields d bytes w small =
      bind-Yields _ _ _ _
        (bind-Yields _
          (λ (r : ℕ × Descriptor × W).
            (r.0 ≤ length bytes)
            × (r.1.fd_num ≡ d.fd_num)
            × (r.1.write_count ≡ add32 d.write_count 1)
            × ((j : ℕ)
                → given j r.2 ≡ (if j == d.fd_num then given j w ++ take r.0 bytes else given j w))
            × ((j : ℕ) → taken j r.2 ≡ taken j w))
          _ _ (h.writes d.fd_num bytes w)
          (λ r k. else-Yields _ (r.0 == 0 && not (length bytes == 0)) _ _ k.1 (
            else-Yields _ (ltb (length bytes) r.0) _ _ (ground (arith, k.0))
              (ok-Yields _ _ (k.0, refl, refl, k.2, k.3)))))
        (λ r k.
          let once : add64 0 r.0 ≡ r.0 = omega (arith, k.0, small) in ok-Yields _ _ (rw (once) k))
