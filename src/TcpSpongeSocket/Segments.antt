-- ===== src/TcpSpongeSocket/Segments.antt =====
-- Rule 4 of libsponge/tcp_helpers/tcp_sponge_socket.cc: from the connection to the adapter.
use sponge_2021fall.Common.{
  ◌≡◌, refl, sym, ap, ◌∙◌, List, [], ◌∷◌, ◌++◌, append_assoc, append-nil, Yields, ok-Yields,
  bind-Yields, map-Yields,
}
use sponge_2021fall.FileDescriptor.{System}
use sponge_2021fall.Tcp.Segment.{TcpSegment}
use sponge_2021fall.TcpSpongeSocket.Base.{Driver, Thread}
use sponge_2021fall.TcpSpongeSocket.Rules.{write_segments, write_all}

-- What an adapter promises whose device takes all: `write` returns, and `sent` are the segments that
-- it was given.
abbrev pub Sends : {A W : Type 0} → Driver A W → (W → List TcpSegment) → Type 0
Sends {A} {W} driver sent =
    (a : A) (seg : TcpSegment) (w : W)
    → Yields (λ (r : A × W). sent r.1 ≡ sent w ++ seg ∷ []) (driver.write a seg w)

module _ {A W : Type 0} (driver : Driver A W) (system : System W) (sent : W → List TcpSegment)
    (h : Sends driver sent) where
  write_all-Yields :
      (segs : List TcpSegment) (a : A) (w : W)
      → Yields (λ (r : A × W). sent r.1 ≡ sent w ++ segs) (write_all driver system segs a w)
  unfolding write_all
  write_all-Yields [] a w = ok-Yields _ _ (sym (append-nil (sent w)))
  write_all-Yields (seg ∷ segs) a w = bind-Yields _ _ _ _ (h a seg w) (λ r e.
      map-Yields _ _ _ (write_all-Yields segs r.0 r.1)
        (λ q f. f ∙ ap (λ l. l ++ segs) e ∙ append_assoc (sent w) (seg ∷ []) segs))

  -- Every segment that the connection has queued is given to the adapter, once and in the order of
  -- the queue. For an adapter that takes all, the callback of rule 4 comes to its end; it leaves
  -- the queue empty and the rest of the connection as it was.
  pub write_segments_lem :
      (s : Thread A W)
      → Yields
          (λ (t : Thread A W).
            (sent t.ends.world ≡ sent s.ends.world ++ s.tcp.segments_out)
            × (t.tcp ≡ record (s.tcp) { segments_out = [] }))
          ((write_segments driver system).callback s)
  unfolding write_segments
  write_segments_lem s =
      bind-Yields _ _ _ _ (write_all-Yields s.tcp.segments_out s.ends.datagram_adapter s.ends.world)
        (λ r e. ok-Yields _ _ (e, refl))
