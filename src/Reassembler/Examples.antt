-- ===== src/Reassembler/Examples.antt =====
-- Runs of libsponge/stream_reassembler.cc.
use sponge_2021fall.Common.{◌≡◌, ◌<◌, [], ◌∷◌, refl, arith, ok, true, false, inl}
use sponge_2021fall.ByteStream.{ByteStream}
use sponge_2021fall.Reassembler.{Reassembler, push_substring, unassembled_bytes}
use sponge_2021fall.Reassembler.Finish.{IsValid, Holds, knows}
use sponge_2021fall.Reassembler.Push.{Pushed, push_substring-Pushed, push_substring-Holds}
use sponge_2021fall.Reassembler.Eof.{Awaits, push_substring-Awaits}
use sponge_2021fall.Reassembler.Faults.{bare_eof_ends_early, beyond_window_stored}

-- A stream with the bytes 0 and 1 written, of which 0 is read, and room for three more.
abbrev output : ByteStream
output = record {
  str = 1 ∷ [];
  capacity = 4;
  cur_cap = 1;
  bytes_written = 2;
  bytes_read = 1;
  input_is_end = false;
  error = false;
}

abbrev plain : Reassembler
plain = record { output = output; capacity = 4; eof = false; cur_index = 2; list = [] }

-- The byte 2 is missing, 3 and 4 are stored.
abbrev holed : Reassembler
holed = record plain { list = record { s = 3 ∷ 4 ∷ []; beg = 3; end = 4 } ∷ [] }

holed-IsValid : IsValid holed
holed-IsValid = ground arith

plain-IsValid : IsValid plain
plain-IsValid = ground arith

push_substring-Pushed_example :
    (r : Reassembler) × (push_substring holed (2 ∷ 3 ∷ []) 2 true ≡ ok r)
    × Pushed holed (2 ∷ 3 ∷ []) 2 r
push_substring-Pushed_example =
    push_substring-Pushed holed (2 ∷ 3 ∷ []) 2 true holed-IsValid (omega arith) (omega arith)
      (omega arith)

push_substring-Holds_example :
    (r : Reassembler) × (push_substring holed (2 ∷ 3 ∷ []) 2 true ≡ ok r) × Holds (λ i. i) r
push_substring-Holds_example =
    push_substring-Holds (λ i. i) holed (2 ∷ 3 ∷ []) 2 true holed-IsValid (omega arith)
      (omega arith) (omega arith) (refl, (refl, tt))
      (record { back = omega arith; buffered = (refl, tt); nodes = ((refl, (refl, tt)), tt) })

push_substring-Awaits_example :
    (r : Reassembler) × (push_substring holed (2 ∷ 3 ∷ 4 ∷ []) 2 true ≡ ok r)
    × IsValid r
    × Awaits 5 r
push_substring-Awaits_example =
    push_substring-Awaits 5 holed (2 ∷ 3 ∷ 4 ∷ []) 2 true holed-IsValid (omega arith) (omega arith)
      (omega arith)
      (record {
        inside = λ i h. ground arith;
        closing = λ h i e. ground arith;
        ended = λ h. ground arith;
      })
      (record {
        within_total = omega arith;
        last = λ h. omega arith;
        not_bare = λ h. inl (omega arith);
      })

bare_eof_ends_early_example :
    (r : Reassembler) × (push_substring plain [] 4 true ≡ ok r)
    × (r.output.input_is_end ≡ true)
    × (r.cur_index < 4)
bare_eof_ends_early_example =
    bare_eof_ends_early plain 4 plain-IsValid (omega arith) refl (omega arith) (omega arith)

beyond_window_stored_example :
    (r : Reassembler) × (push_substring plain (9 ∷ 9 ∷ []) 7 false ≡ ok r)
    × (unassembled_bytes r ≡ 2)
    × (knows r 8 ≡ true)
beyond_window_stored_example =
    beyond_window_stored plain (9 ∷ 9 ∷ []) 7 8 false plain-IsValid (omega arith) (omega arith) refl
      (omega arith) (omega arith) (omega arith) (omega arith) (omega arith)
