-- ===== src/ByteStream/Examples.antt =====
-- Runs of libsponge/byte_stream.cc.
use sponge_2021fall.Common.{◌≡◌, ◌++◌, ◌≤◌, [], ◌∷◌, List, arith, length}
use sponge_2021fall.ByteStream.{ByteStream, init, false}
use sponge_2021fall.ByteStream.Fifo.{IsValid, Op, run, run_fifo}

-- Four bytes of capacity, of which three are in use.
abbrev three_bytes : ByteStream
three_bytes = record {
  str = 1 ∷ 2 ∷ 3 ∷ [];
  capacity = 4;
  cur_cap = 3;
  bytes_written = 5;
  bytes_read = 2;
  input_is_end = false;
  error = false;
}

three_bytes-IsValid : IsValid three_bytes
three_bytes-IsValid = omega arith

abbrev calls : List Op
calls = Op.writes (1 ∷ 2 ∷ 3 ∷ []) ∷ Op.reads 1 ∷ Op.writes (4 ∷ []) ∷ Op.pops 1 ∷ Op.ends ∷ []

run_fifo_example :
    ((run (init 2) calls).0 ≡ (run (init 2) calls).1 ++ (run (init 2) calls).2.str)
    × (length (run (init 2) calls).2.str ≤ 2)
    × IsValid (run (init 2) calls).2
run_fifo_example = run_fifo 2 calls (omega arith)
