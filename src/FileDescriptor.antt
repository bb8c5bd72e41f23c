-- ===== src/FileDescriptor.antt =====
-- `FileDescriptor` of libsponge/util/file_descriptor.hh and .cc, and `Socket::shutdown` of socket.cc.
-- The system calls are the system's: they act on its state `W`, and one that fails throws.
pub mod WriteAll
pub mod Calls
use sponge_2021fall.Common.{
  ℕ, zero, suc, ◌+◌, ◌*◌, min, Bool, true, false, not, ◌&&◌, List, [], length, drop, add32, add64,
  ltb, ◌==◌, if◌then◌else◌, Result, ok, throw, runtime_error, ◌>>=◌,
}

-- `FileDescriptor::FDWrapper`
pub record Descriptor : Type 0 where
  pub fd_num : ℕ
  pub eof : Bool
  pub closed : Bool
  pub read_count : ℕ
  pub write_count : ℕ

pub record System (W : Type 0) : Type 0 where
  pub read : ℕ → ℕ → W → Result (List ℕ × W)
  pub writev : ℕ → List ℕ → W → Result (ℕ × W)
  pub close : ℕ → W → Result W
  pub shutdown : ℕ → ℕ → W → Result W

abbrev pub buffer_size : ℕ
buffer_size = 1024 * 1024

-- `SHUT_RD`, `SHUT_WR` and `SHUT_RDWR`
abbrev pub shut_rd : ℕ
shut_rd = 0

abbrev pub shut_wr : ℕ
shut_wr = 1

abbrev pub shut_rdwr : ℕ
shut_rdwr = 2

abbrev pub register_read : Descriptor → Descriptor
register_read d = record d { read_count = add32 d.read_count 1 }

abbrev pub register_write : Descriptor → Descriptor
register_write d = record d { write_count = add32 d.write_count 1 }

module _ {W : Type 0} (system : System W) where
  -- `FileDescriptor::read`
  unfoldable pub read : Descriptor → ℕ → W → Result (List ℕ × Descriptor × W)
  read d limit w =
      let size_to_read = min buffer_size limit in
      system.read d.fd_num size_to_read w >>= λ (r : List ℕ × W).
      if ltb size_to_read (length r.0)
      then throw runtime_error
      else ok (
        r.0,
        register_read (record d { eof = if ltb 0 limit && length r.0 == 0 then true else d.eof }),
        r.1,
      )

  -- One round of the loop of `write`: how much is written.
  unfoldable pub write_round : Descriptor → List ℕ → W → Result (ℕ × Descriptor × W)
  write_round d buffer w = system.writev d.fd_num buffer w >>= λ (r : ℕ × W).
      if r.0 == 0 && not (length buffer == 0)
      then throw runtime_error
      else if ltb (length buffer) r.0
      then throw runtime_error
      else ok (r.0, register_write d, r.1)

  -- The loop, after `total` bytes. A round that is not the last writes a byte: `fuel` is what is
  -- left.
  unfoldable pub write_from : ℕ → Bool → ℕ → Descriptor → List ℕ → W → Result (ℕ × Descriptor × W)
  write_from zero write_all total d buffer w = ok (total, d, w)
  write_from (suc fuel) write_all total d buffer w =
      write_round d buffer w >>= λ (r : ℕ × Descriptor × W).
      if write_all && not (length (drop r.0 buffer) == 0)
      then write_from fuel write_all (add64 total r.0) r.1 (drop r.0 buffer) r.2
      else ok (add64 total r.0, r.1, r.2)

  -- `FileDescriptor::write`
  unfoldable pub write : Descriptor → List ℕ → Bool → W → Result (ℕ × Descriptor × W)
  write d buffer write_all w = write_from (suc (length buffer)) write_all 0 d buffer w

  -- `FDWrapper::close`
  unfoldable pub close : Descriptor → W → Result (Descriptor × W)
  close d w = system.close d.fd_num w >>= λ v. ok (record d { eof = true; closed = true }, v)

  -- `Socket::shutdown`
  unfoldable pub shutdown : Descriptor → ℕ → W → Result (Descriptor × W)
  shutdown d how w = system.shutdown d.fd_num how w >>= λ v.
      if how == shut_rd
      then ok (register_read d, v)
      else if how == shut_wr
      then ok (register_write d, v)
      else if how == shut_rdwr
      then ok (register_write (register_read d), v)
      else throw runtime_error
