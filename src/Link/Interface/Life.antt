-- ===== src/Link/Interface/Life.antt =====
-- The calls that a `NetworkInterface` of libsponge/network_interface.cc gets.
use sponge_2021fall.Common.{
  ℕ, ◌≡◌, ◌<◌, ◌+◌, refl, subst, Option, [], ok, ◌^◌, ◌⊎◌, inl, inr, Returns,
}
use sponge_2021fall.Address.{Address}
use sponge_2021fall.Wire.Ethernet.{EthernetFrame}
use sponge_2021fall.Wire.Datagram.{Ipv4Datagram}
use sponge_2021fall.Link.Interface.Follows.{Follows, Continues, same-Follows}
use sponge_2021fall.Link.Interface.Calls.{send_datagram-Continues, recv_frame-Continues}
use sponge_2021fall.Link.Interface.{NetworkInterface, send_datagram, recv_frame, tick}

-- A call that returns. Time does not overflow.
pub data Step : NetworkInterface → NetworkInterface → Type 0 where
  sends :
      (n n' : NetworkInterface) (dgram : Ipv4Datagram) (next_hop : Address)
      → send_datagram n dgram next_hop ≡ ok n'
      → Step n n'
  receives :
      (n n' : NetworkInterface) (frame : EthernetFrame) (o : Option Ipv4Datagram)
      → recv_frame n frame ≡ ok (o, n')
      → Step n n'
  drains : (n : NetworkInterface) → Step n (record n { frames_out = [] })
  ticks :
      (n : NetworkInterface) (ms : ℕ) → n.current_time + ms + 2 ^ 16 < 2 ^ 64 → Step n (tick n ms)

pub data Steps : NetworkInterface → NetworkInterface → Type 0 where
  none_yet : (n : NetworkInterface) → Steps n n
  one_more : (n m u : NetworkInterface) → Steps n m → Step m u → Steps n u

-- A step is a call that follows, or time passes.
pub Step-view :
    (n m : NetworkInterface)
    → Step n m
    → Follows n m ⊎ ((ms : ℕ) × (m ≡ tick n ms) × (n.current_time + ms + 2 ^ 16 < 2 ^ 64))
Step-view n m (sends _ _ dgram next_hop e) =
    inl ((subst (Returns (Continues n)) e (send_datagram-Continues n dgram next_hop)).follows)
Step-view n m (receives _ _ frame o e) =
    inl ((subst (Returns (λ r. Continues n r.1)) e (recv_frame-Continues n frame)).follows)
Step-view n m (drains _) = inl (same-Follows n _ refl refl refl refl)
Step-view n m (ticks _ ms h) = inr (ms, refl, h)
