-- ===== src/StreamCopy/Examples.antt =====
-- A system that gives one byte at a time and takes all that it is given.
use sponge_2021fall.Common.{
  ℕ, refl, arith, List, [], ◌∷◌, ◌++◌, length, take, length-take, true, false, ok, ok-Yields,
  Yields, ◌==◌, if◌then◌else◌,
}
use sponge_2021fall.FileDescriptor.{Descriptor, System}
use sponge_2021fall.FileDescriptor.Calls.{Behaves}
use sponge_2021fall.EventLoop.{PollFd, Polled, answered}
use sponge_2021fall.StreamCopy.{bidirectional_stream_copy}
use sponge_2021fall.StreamCopy.Order.{Ordered, bidirectional_stream_copy-Ordered}

record World : Type 0 where
  taken : ℕ → List ℕ
  given : ℕ → List ℕ

abbrev log : (ℕ → List ℕ) → ℕ → List ℕ → ℕ → List ℕ
log logs fd bytes = λ j. if j == fd then logs j ++ bytes else logs j

abbrev one_byte : List ℕ
one_byte = 7 ∷ []

abbrev system : System World
system = record {
  read = λ fd size w.
      ok (take size one_byte, record w { taken = log w.taken fd (take size one_byte) });
  writev = λ fd bytes w.
      ok (length bytes, record w { given = log w.given fd (take (length bytes) bytes) });
  close = λ fd w. ok w;
  shutdown = λ fd how w. ok w;
}

system-Behaves : Behaves system (λ j w. w.taken j) (λ j w. w.given j)
system-Behaves = record {
  reads = λ fd size w.
      ok-Yields _ _ (omega (arith, length-take size one_byte), (λ j. refl), (λ j. refl));
  writes = λ fd bytes w. ok-Yields _ _ (omega arith, ground arith, (λ j. refl), (λ j. refl));
  closes = λ fd w. ok-Yields _ w ((λ j. refl), (λ j. refl));
  shuts = λ fd how w. ok-Yields _ w ((λ j. refl), (λ j. refl));
}

abbrev descriptor : ℕ → Descriptor
descriptor fd_num = record {
  fd_num = fd_num;
  eof = false;
  closed = false;
  read_count = 0;
  write_count = 0;
}

abbrev ready : List PollFd → Polled
ready entries =
    answered (λ idx. record { failed = false; hangup = false; readable = true; writable = true })

abbrev untouched : World
untouched = record { taken = λ j. []; given = λ j. [] }

bidirectional_stream_copy-Ordered_example :
    Yields
      (Ordered system
        (λ j w. w.taken j)
        (λ j w. w.given j)
        system-Behaves
        0
        3
        1
        (omega arith)
        (omega arith))
      (bidirectional_stream_copy system
        (descriptor 0)
        (descriptor 1)
        (descriptor 3)
        (ready ∷ ready ∷ [])
        untouched)
bidirectional_stream_copy-Ordered_example =
    bidirectional_stream_copy-Ordered system (λ j w. w.taken j) (λ j w. w.given j) system-Behaves 0
      3 1 (omega arith) (omega arith) (descriptor 0) (descriptor 1) (descriptor 3)
      (ready ∷ ready ∷ []) untouched refl refl refl
      ((λ entries idx. refl), ((λ entries idx. refl), tt)) refl refl
