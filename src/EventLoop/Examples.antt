-- ===== src/EventLoop/Examples.antt =====
-- An event loop with one rule, which reads.
use sponge_2021fall.Common.{
  ◌+◌, ◌≡◌, refl, arith, true, false, List, [], ◌∷◌, ok, ok-Yields, Yields,
}
use sponge_2021fall.FileDescriptor.{Descriptor}
use sponge_2021fall.EventLoop.{
  Rule, PollFd, Polled, reading, answered, service_count, wait_next_event,
}
use sponge_2021fall.EventLoop.Service.{Serves, Kept, wait_next_event-Yields}

abbrev reader : Rule Descriptor
reader = record {
  fd = λ s. s;
  direction = reading;
  callback = λ s. ok (record s { read_count = s.read_count + 1 });
  interest = λ s. true;
  cancel = λ s. ok s;
}

abbrev open_fd : Descriptor
open_fd = record { fd_num = 0; eof = false; closed = false; read_count = 0; write_count = 0 }

abbrev poll_readable : List PollFd → Polled
poll_readable entries =
    answered (λ idx. record { failed = false; hangup = false; readable = true; writable = false })

reader-Serves : Serves (λ (s : Descriptor). s.closed ≡ false) reader
unfolding service_count
reader-Serves = record {
  runs = λ s k. ok-Yields _ _ (k, ground arith);
  cancels = λ s k. ok-Yields _ s k;
}

wait_next_event-Yields_example :
    Yields
      (Kept (λ (s : Descriptor). s.closed ≡ false))
      (wait_next_event poll_readable (reader ∷ []) open_fd)
wait_next_event-Yields_example =
    wait_next_event-Yields (λ (s : Descriptor). s.closed ≡ false) poll_readable (reader ∷ [])
      open_fd (λ entries idx. refl) (reader-Serves, tt) refl
