-- ===== src/TcpSpongeSocket/Inbound.antt =====
-- Rule 3 of libsponge/tcp_helpers/tcp_sponge_socket.cc: from the connection to the owner.
use sponge_2021fall.Common.{
  ℕ, ap, ok, ◌>>=◌, ◌≡◌, refl, sym, Bool, true, false, ◌||◌, List, ◌++◌, ◌==◌, if◌then◌else◌,
  Yields, ok-Yields, bind-Yields, ◌∙◌,
}
use sponge_2021fall.ByteStream.{pop_output}
use sponge_2021fall.ByteStream.Fifo.{IsValid}
use sponge_2021fall.FileDescriptor.{Descriptor, System, shutdown, shut_wr}
use sponge_2021fall.FileDescriptor.Calls.{Behaves}
use sponge_2021fall.StreamCopy.Streams.{Drained, offer-Yields}
use sponge_2021fall.Tcp.Receiver.{stream_out}
use sponge_2021fall.TcpSpongeSocket.Base.{Driver, Thread, with_inbound}
use sponge_2021fall.TcpSpongeSocket.Rules.{write_owner, is_over_inbound}

module _ {A W : Type 0} (driver : Driver A W) (system : System W) (taken given : ℕ → W → List ℕ)
    (h : Behaves system taken given) where
  -- The bytes `bytes` of the inbound stream have gone to the owner.
  pub record Passes (s t : Thread A W) : Type 0 where
    pub bytes : List ℕ
    pub valid : IsValid (stream_out t.tcp.receiver)
    pub popped : (stream_out s.tcp.receiver).str ≡ bytes ++ (stream_out t.tcp.receiver).str
    pub gave :
        (j : ℕ)
        → given j t.ends.world ≡ (
            if j == s.ends.thread_data.fd_num
            then given j s.ends.world ++ bytes
            else given j s.ends.world)
    pub took : (j : ℕ) → taken j t.ends.world ≡ taken j s.ends.world
    pub rest : t.tcp ≡ with_inbound s.tcp (stream_out t.tcp.receiver)
    pub ended :
        t.ends.inbound_shutdown
        ≡ (is_over_inbound (stream_out t.tcp.receiver) || s.ends.inbound_shutdown)
    pub number : t.ends.thread_data.fd_num ≡ s.ends.thread_data.fd_num
    pub outbound : t.ends.outbound_shutdown ≡ s.ends.outbound_shutdown

  -- After the call of `write`, by whether the stream is over.
  passed :
      (s : Thread A W) (r : ℕ × Descriptor × W) (over : Bool)
      → let inbound = pop_output (stream_out s.tcp.receiver) r.0 in
        is_over_inbound inbound ≡ over
        → Drained system taken given h s.ends.thread_data
            (stream_out s.tcp.receiver)
            s.ends.world
            (r.1, inbound, r.2)
        → Yields (Passes s) (
            if over
            then (shutdown system r.1 shut_wr r.2 >>= λ (q : Descriptor × W). ok (record {
              tcp = with_inbound s.tcp inbound;
              ends = record (s.ends) { thread_data = q.0; inbound_shutdown = true; world = q.1 };
            }))
            else ok (record {
              tcp = with_inbound s.tcp inbound;
              ends = record (s.ends) { thread_data = r.1; world = r.2 };
            }))
  unfolding shutdown
  passed s r true e k =
      bind-Yields _ _ _ _
        (bind-Yields _
          (λ (q : Descriptor × W).
            (q.0.fd_num ≡ r.1.fd_num)
            × ((j : ℕ) → taken j q.1 ≡ taken j r.2)
            × ((j : ℕ) → given j q.1 ≡ given j r.2))
          _ _ (h.shuts r.1.fd_num shut_wr r.2) (λ v q. ok-Yields _ _ (refl, q.0, q.1)))
        (λ q m. ok-Yields _ _ (record {
          bytes = k.bytes;
          valid = k.valid;
          popped = k.shrunk;
          gave = λ j. m.2 j ∙ k.gave j;
          took = λ j. m.1 j ∙ k.took j;
          rest = refl;
          ended = ap (λ b. b || s.ends.inbound_shutdown) (sym e);
          number = m.0 ∙ k.number;
          outbound = refl;
        }))
  passed s r false e k = ok-Yields _ _ (record {
    bytes = k.bytes;
    valid = k.valid;
    popped = k.shrunk;
    gave = k.gave;
    took = k.took;
    rest = refl;
    ended = ap (λ b. b || s.ends.inbound_shutdown) (sym e);
    number = k.number;
    outbound = refl;
  })

  -- The owner gets the bytes of the inbound stream in their order, none lost and none twice, however
  -- few of them a call of `writev` takes. On a system that behaves the callback of rule 3 returns:
  -- the bytes that left the stream are those that the owner was given, the rest of the connection
  -- is as before, and the flag of the shutdown is set if the stream is at its end or has an
  -- error, and else is left as it was.
  pub write_owner-Passes :
      (s : Thread A W)
      → IsValid (stream_out s.tcp.receiver)
      → Yields (Passes s) ((write_owner driver system).callback s)
  unfolding write_owner
  write_owner-Passes s v =
      bind-Yields _ _ _ _
        (offer-Yields system taken given h s.ends.thread_data (stream_out s.tcp.receiver)
          s.ends.world v)
        (λ r k. passed s r (is_over_inbound (pop_output (stream_out s.tcp.receiver) r.0)) refl k)
