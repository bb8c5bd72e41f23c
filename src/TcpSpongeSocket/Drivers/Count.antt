-- ===== src/TcpSpongeSocket/Drivers/Count.antt =====
-- The readings that the adapters of libsponge/tcp_helpers/tcp_sponge_socket.cc count.
use sponge_2021fall.Common.{
  ℕ, zero, suc, ◌≡◌, refl, ◌∙◌, arith, Bool, true, false, not, ◌&&◌, List, [], ◌∷◌, length, drop,
  ltb, ◌==◌, add64, ok, Returns, bind-Returns, if-Returns, any-Returns, ap, map-Returns,
}
use sponge_2021fall.FileDescriptor.{Descriptor, System, read, write, write_from, write_round}
use sponge_2021fall.Socket.{Datagrams, recv, default_mtu, resize}
use sponge_2021fall.Adapter.OverUdp.{Received}
use sponge_2021fall.Adapter.OverTun
use sponge_2021fall.Adapter.OverEthernet
use sponge_2021fall.Adapter.OverEthernet.{EthernetAdapter}
use sponge_2021fall.Wire.Buffer.{BufferList, concatenate}
use sponge_2021fall.TcpSpongeSocket.Busy.{Counts, read-counts}
use sponge_2021fall.TcpSpongeSocket.Drivers.{over_udp, over_tun, over_tap, write_frames, no_limit}

module _ {W : Type 0} (system : System W) where
  write_from-read_count :
      (fuel : ℕ) (write_all : Bool) (total : ℕ) (d : Descriptor) (bytes : List ℕ) (w : W)
      → Returns
          (λ (r : ℕ × Descriptor × W). r.1.read_count ≡ d.read_count)
          (write_from system fuel write_all total d bytes w)
  unfolding write_from write_round
  write_from-read_count zero write_all total d bytes w = refl
  write_from-read_count (suc fuel) write_all total d bytes w =
      bind-Returns (λ (r : ℕ × Descriptor × W). r.1.read_count ≡ d.read_count) _
        (write_round system d bytes w) _
        (bind-Returns _ _ (system.writev d.fd_num bytes w) _ (any-Returns _) (λ r k.
          if-Returns _ (r.0 == 0 && not (length bytes == 0)) _ _ tt
            (if-Returns _ (ltb (length bytes) r.0) _ _ tt refl)))
        (λ r k.
          if-Returns (λ (q : ℕ × Descriptor × W). q.1.read_count ≡ d.read_count)
            (write_all && not (length (drop r.0 bytes) == 0))
            (write_from system fuel write_all (add64 total r.0) r.1 (drop r.0 bytes) r.2)
            (ok (add64 total r.0, r.1, r.2))
            (map-Returns _ _
              (write_from system fuel write_all (add64 total r.0) r.1 (drop r.0 bytes) r.2)
              (write_from-read_count fuel write_all (add64 total r.0) r.1 (drop r.0 bytes) r.2)
              (λ q m. m ∙ k))
            k)

module _ {W : Type 0} (system : System W) (net : Datagrams W) where
  write_frames-read_count :
      (frames : List BufferList) (tap : Descriptor) (w : W)
      → Returns
          (λ (q : Descriptor × W). q.0.read_count ≡ tap.read_count)
          (write_frames system net frames tap w)
  unfolding write_frames write
  write_frames-read_count [] tap w = refl
  write_frames-read_count (frame ∷ frames) tap w =
      bind-Returns (λ (r : ℕ × Descriptor × W). r.1.read_count ≡ tap.read_count) _
        (write system tap (concatenate frame) true w) _
        (write_from-read_count system (suc (length (concatenate frame))) true 0 tap
          (concatenate frame) w)
        (λ r k.
          map-Returns _ (λ (q : Descriptor × W). q.0.read_count ≡ tap.read_count)
            (write_frames system net frames r.1 r.2) (write_frames-read_count frames r.1 r.2)
            (λ q m. m ∙ k))

  over_udp-Counts : Counts (over_udp system net)
  unfolding over_udp recv
  over_udp-Counts a w =
      bind-Returns
        (λ (r : Received × Descriptor × W). (a.sock.read_count == r.1.read_count) ≡ false) _
        (recv net a.sock default_mtu w) _
        (bind-Returns _ _ (net.recvfrom a.sock.fd_num (resize [] default_mtu) w) _ (any-Returns _)
          (λ r k. if-Returns _ (ltb default_mtu r.0.recv_len) _ _ tt (ground arith)))
        (λ r k. k)

  over_tun-Counts : Counts (over_tun system net)
  unfolding over_tun
  over_tun-Counts a w =
      bind-Returns (λ (r : List ℕ × Descriptor × W). (a.tun.read_count == r.1.read_count) ≡ false) _
        (read system a.tun no_limit w) _ (read-counts system a.tun no_limit w)
        (λ r k. bind-Returns _ _ (OverTun.read a.base r.0) _ (any-Returns _) (λ p l. k))

  over_tap-Counts : Counts (over_tap system net)
  unfolding over_tap
  over_tap-Counts a w =
      bind-Returns (λ (r : List ℕ × Descriptor × W). (a.tap.read_count == r.1.read_count) ≡ false) _
        (read system a.tap no_limit w) _ (read-counts system a.tap no_limit w)
        (λ r k. bind-Returns _ _ (OverEthernet.read a.base r.0) _ (any-Returns _) (λ p l.
          bind-Returns (λ (q : Descriptor × W). q.0.read_count ≡ r.1.read_count) _
            (write_frames system net p.1 r.1 r.2) _ (write_frames-read_count p.1 r.1 r.2)
            (λ q m. ap (λ n. a.tap.read_count == n) m ∙ k)))

  -- Over UDP, over a tunnel and over Ethernet, a reading that returns is counted by the descriptor
  -- of the adapter, also where the adapter then writes frames of its own.
  pub drivers-Counts :
      Counts (over_udp system net) × Counts (over_tun system net) × Counts (over_tap system net)
  drivers-Counts = (over_udp-Counts, over_tun-Counts, over_tap-Counts)
