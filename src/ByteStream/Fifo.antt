-- ===== src/ByteStream/Fifo.antt =====
-- libsponge/byte_stream.cc as a bounded FIFO: what each operation does to the buffered bytes, and
-- what no sequence of operations can do to their order.
use sponge_2021fall.Common.{
  ℕ, ◌-◌, ◌≤◌, min, ◌≡◌, refl, sym, ap, ◌∙◌, List, [], ◌∷◌, ◌++◌, append-nil, append_assoc, arith,
  length, take, drop, length-append, length-take, length-drop, take-append-drop, take-all, drop-all,
  drop-min, add64, IsU64,
}
use sponge_2021fall.ByteStream.{
  ByteStream, init, remaining_capacity, write, peek_output, pop_output, read, end_input, set_error,
}

pub record IsValid (b : ByteStream) : Type 0 where
  pub sized : b.cur_cap ≡ length b.str
  pub fits : length b.str ≤ b.capacity
  pub word : IsU64 b.capacity
  pub counted : b.bytes_written ≡ add64 b.bytes_read (length b.str)

pub init-IsValid : (capacity : ℕ) → IsU64 capacity → IsValid (init capacity)
unfolding init
init-IsValid capacity h = omega arith

pub remaining_capacity-eq :
    {b : ByteStream} → IsValid b → remaining_capacity b ≡ b.capacity - length b.str
unfolding remaining_capacity
remaining_capacity-eq v = omega arith

-- What the buffer keeps after `len` bytes are popped.
pub str-pop_output :
    (b : ByteStream) (len : ℕ) → IsValid b → (pop_output b len).str ≡ drop len b.str
unfolding pop_output
str-pop_output b len v =
    ground (
      arith,
      drop-all len b.str,
      length-drop len b.str,
      take-all (b.cur_cap - len) (drop len b.str),
    )

pub pop_output-IsValid : (b : ByteStream) (len : ℕ) → IsValid b → IsValid (pop_output b len)
pop_output-IsValid b len v = record {
  sized = rw (str-pop_output b len v) (unfold pop_output in omega (arith, length-drop len b.str));
  fits = rw (str-pop_output b len v) (unfold pop_output in omega (arith, length-drop len b.str));
  word = unfold pop_output in v.word;
  counted = rw (str-pop_output b len v) (unfold pop_output in omega (arith, length-drop len b.str));
}

pub read-str : (b : ByteStream) (len : ℕ) → IsValid b → (read b len).0 ≡ take len b.str
unfolding read
read-str b len v = ground (arith, take-all len b.str, take-all (length b.str) b.str)

pub str-read : (b : ByteStream) (len : ℕ) → IsValid b → (read b len).1.str ≡ drop len b.str
unfolding read
str-read b len v = str-pop_output b (min len b.cur_cap) v ∙ rw v.sized (drop-min len b.str)

pub read-IsValid : (b : ByteStream) (len : ℕ) → IsValid b → IsValid (read b len).1
unfolding read
read-IsValid b len v = pop_output-IsValid b _ v

-- `read` returns the oldest bytes, as many as are asked for and there, and keeps the others.
pub read_lem :
    (b : ByteStream) (len : ℕ)
    → IsValid b
    → let (out, b') = read b len in
      (out ++ b'.str ≡ b.str) × (length out ≡ min len (length b.str)) × IsValid b'
read_lem b len v = (
  rw (read-str b len v, str-read b len v) (take-append-drop len b.str),
  rw (read-str b len v) (length-take len b.str),
  read-IsValid b len v,
)

-- `write` takes what fits, appends exactly that, and says how much it took.
pub write_lem :
    (b : ByteStream) (bytes : List ℕ)
    → IsValid b
    → let (n, b') = write b bytes in
      (n ≡ min (length bytes) (b.capacity - length b.str))
      × (b'.str ≡ b.str ++ take n bytes)
      × IsValid b'
unfolding write
write_lem b bytes v =
    let room = remaining_capacity-eq v in
    let n = min (length bytes) (remaining_capacity b) in
    let grown = length-append b.str (take n bytes) in
    let taken = length-take n bytes in (omega arith, refl, omega arith)

-- Where there is room for all, all is taken.
pub write_all :
    (b : ByteStream) (bytes : List ℕ)
    → IsValid b
    → length bytes ≤ b.capacity - length b.str
    → let (n, b') = write b bytes in
      (n ≡ length bytes) × (b'.str ≡ b.str ++ bytes) × (b'.capacity ≡ b.capacity) × IsValid b'
write_all b bytes v h =
    let w = write_lem b bytes v in
    let n : (write b bytes).0 ≡ length bytes = omega (arith, w.0) in
    (n, w.1 ∙ ap (◌++◌ b.str) (take-all _ bytes (omega arith)), unfold write in refl, w.2)

pub end_input-IsValid : (b : ByteStream) → IsValid b → IsValid (end_input b)
unfolding end_input
end_input-IsValid b v = record {
  sized = v.sized;
  fits = v.fits;
  word = v.word;
  counted = v.counted;
}

-- The calls of the two users of a stream.
pub data Op : Type 0 where
  writes : List ℕ → Op
  reads pops : ℕ → Op
  ends fails : Op

-- What a call takes in, what it takes out, and the stream after it. `pop_output` takes out what
-- `peek_output` shows.
unfoldable pub step : ByteStream → Op → List ℕ × List ℕ × ByteStream
step b (writes bytes) = let (n, b') = write b bytes in (take n bytes, [], b')
step b (reads len) = let (out, b') = read b len in ([], out, b')
step b (pops len) = ([], peek_output b len, pop_output b len)
step b ends = ([], [], end_input b)
step b fails = ([], [], set_error b)

unfoldable pub run : ByteStream → List Op → List ℕ × List ℕ × ByteStream
run b [] = ([], [], b)
run b (op ∷ ops) =
    let (taken, given, b') = step b op in
    let (more_taken, more_given, last) = run b' ops in
    (taken ++ more_taken, given ++ more_given, last)

record Conserves (b : ByteStream) (result : List ℕ × List ℕ × ByteStream) : Type 0 where
  order : b.str ++ result.0 ≡ result.1 ++ result.2.str
  valid : IsValid result.2
  capacity : result.2.capacity ≡ b.capacity

peek_output-eq : (b : ByteStream) (len : ℕ) → IsValid b → peek_output b len ≡ take len b.str
unfolding peek_output
peek_output-eq b len v = ground (arith, take-all len b.str, take-all (length b.str) b.str)

step-Conserves : (b : ByteStream) (op : Op) → IsValid b → Conserves b (step b op)
unfolding step
step-Conserves b (writes bytes) v =
    let w = write_lem b bytes v in
    record { order = sym w.1; valid = w.2; capacity = unfold write in refl }
step-Conserves b (reads len) v =
    let r = read_lem b len v in
    record { order = append-nil b.str ∙ sym r.0; valid = r.2; capacity = unfold read in refl }
step-Conserves b (pops len) v = record {
  order =
      append-nil b.str
      ∙ rw (peek_output-eq b len v, str-pop_output b len v) (sym (take-append-drop len b.str));
  valid = pop_output-IsValid b len v;
  capacity = unfold pop_output in refl;
}
step-Conserves b ends v = unfold end_input in ground (arith, append-nil b.str)
step-Conserves b fails v = unfold set_error in ground (arith, append-nil b.str)

run-Conserves : (ops : List Op) (b : ByteStream) → IsValid b → Conserves b (run b ops)
unfolding run
run-Conserves [] b v = record { order = append-nil b.str; valid = v; capacity = refl }
run-Conserves (op ∷ ops) b v =
    let one = step-Conserves b op v in
    let rest = run-Conserves ops (step b op).2 one.valid in
    record {
      order =
          sym (append_assoc b.str (step b op).0 _)
          ∙ ap (λ l. l ++ (run (step b op).2 ops).0) one.order
          ∙ append_assoc (step b op).1 _ _
          ∙ ap (◌++◌ (step b op).1) rest.order
          ∙ sym (append_assoc (step b op).1 _ _);
      valid = rest.valid;
      capacity = rest.capacity ∙ one.capacity;
    }

-- Whatever the calls on a new stream and their order: the bytes taken out, followed by those still
-- buffered, are the bytes taken in; and the stream stays valid, within the capacity it was made with.
pub run_fifo :
    (capacity : ℕ) (ops : List Op)
    → IsU64 capacity
    → let (taken, given, b) = run (init capacity) ops in
      (taken ≡ given ++ b.str) × (length b.str ≤ capacity) × IsValid b
run_fifo capacity ops h =
    let c = run-Conserves ops (init capacity) (init-IsValid capacity h) in
    let same : (run (init capacity) ops).2.capacity ≡ capacity = unfold init in c.capacity in
    (unfold init in c.order, omega (arith, c.valid.fits), c.valid)
