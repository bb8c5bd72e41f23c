-- ===== src/Simulator/Network.antt =====
-- `Network` of apps/network_simulator.cc. Its hosts are an association list, by their names; what is
-- printed is left out.
use sponge_2021fall.Common.{
  ℕ, zero, suc, Option, none, some, not, List, [], ◌∷◌, drop, ◌==◌, if◌then◌else◌, Result, ok,
  throw, runtime_error, ◌>>=◌,
}
use sponge_2021fall.Common.Assoc.{Assoc, find}
use sponge_2021fall.Wire.Buffer.{concatenate}
use sponge_2021fall.Wire.Ethernet.{EthernetFrame}
use sponge_2021fall.Link.Router.{AsyncInterface, Router, recv_frame, route, at, set_at}
use sponge_2021fall.Simulator.Host.{Host, check}

pub record Network : Type 0 where
  pub router : Router
  pub default_id : ℕ
  pub eth0_id : ℕ
  pub eth1_id : ℕ
  pub eth2_id : ℕ
  pub uun3_id : ℕ
  pub hs4_id : ℕ
  pub mit5_id : ℕ
  pub hosts : Assoc Host

-- The loop of `clear`: as many elements leave the second queue as there are in the first.
unfoldable pub clear : List EthernetFrame → List EthernetFrame → List EthernetFrame
clear [] queue2 = queue2
clear (frame ∷ queue1) queue2 = clear queue1 (drop 1 queue2)

-- The payload in one buffer.
abbrev pub joined : EthernetFrame → EthernetFrame
joined frame = record frame { payload = concatenate frame.payload ∷ [] }

-- `deliver`
unfoldable pub deliver : List EthernetFrame → AsyncInterface → Result AsyncInterface
deliver [] dst = ok dst
deliver (frame ∷ to_send) dst =
    recv_frame dst (joined frame) >>= λ (i : AsyncInterface). deliver to_send i

abbrev pub frames_out : AsyncInterface → List EthernetFrame
frames_out i = i.base.frames_out

-- `clear(frames, i.frames_out())`
abbrev pub clear_sent : List EthernetFrame → AsyncInterface → AsyncInterface
clear_sent frames i = record i {
  base = record (i.base) { frames_out = clear frames i.base.frames_out };
}

-- `exchange_frames` between two interfaces.
unfoldable pub exchange_frames :
    AsyncInterface → AsyncInterface → Result (AsyncInterface × AsyncInterface)
exchange_frames x y = deliver (frames_out x) y >>= λ (y' : AsyncInterface).
    deliver (frames_out y) x >>= λ (x' : AsyncInterface).
    ok (clear_sent (frames_out x) x', clear_sent (frames_out y) y')

-- `exchange_frames` between three interfaces.
unfoldable pub exchange_three :
    AsyncInterface
    → AsyncInterface
    → AsyncInterface
    → Result (AsyncInterface × AsyncInterface × AsyncInterface)
exchange_three x y z = deliver (frames_out x) y >>= λ (y1 : AsyncInterface).
    deliver (frames_out x) z >>= λ (z1 : AsyncInterface).
    deliver (frames_out y) x >>= λ (x1 : AsyncInterface).
    deliver (frames_out y) z1 >>= λ (z2 : AsyncInterface).
    deliver (frames_out z) x1 >>= λ (x2 : AsyncInterface).
    deliver (frames_out z) y1 >>= λ (y2 : AsyncInterface).
    ok (clear_sent (frames_out x) x2, clear_sent (frames_out y) y2, clear_sent (frames_out z) z2)

-- The host of an entry that is found.
unfoldable pub named : ℕ → Option Host → Result Host
named name none = throw runtime_error
named name (some h) = if not (h.name == name) then throw runtime_error else ok h

-- `host`
unfoldable pub host : Network → ℕ → Result Host
host net name = named name (find name net.hosts)

-- The update through the reference that `host` gives.
unfoldable pub set_host : Assoc Host → ℕ → Host → Assoc Host
set_host [] name h = []
set_host ((j, k) ∷ hosts) name h =
    let rest = set_host hosts name h in if j == name then (j, h) ∷ hosts else (j, k) ∷ rest

abbrev pub with_interface : Host → AsyncInterface → Host
with_interface h i = record h { interface = i }

-- A wire between the interface `id` of the router and a host.
unfoldable pub connect_host : ℕ → ℕ → Network → Result Network
connect_host id name net = at net.router.interfaces id >>= λ (x : AsyncInterface).
    host net name >>= λ (h : Host).
    exchange_frames x h.interface >>= λ (e : AsyncInterface × AsyncInterface). ok (record net {
      router = record (net.router) { interfaces = set_at net.router.interfaces id e.0 };
      hosts = set_host net.hosts name (with_interface h e.1);
    })

-- A wire to two hosts.
unfoldable pub connect_hosts : ℕ → ℕ → ℕ → Network → Result Network
connect_hosts id name1 name2 net = at net.router.interfaces id >>= λ (x : AsyncInterface).
    host net name1 >>= λ (h1 : Host). host net name2 >>= λ (h2 : Host).
    exchange_three x h1.interface h2.interface
    >>= λ (e : AsyncInterface × AsyncInterface × AsyncInterface). ok (record net {
      router = record (net.router) { interfaces = set_at net.router.interfaces id e.0 };
      hosts =
          set_host (set_host net.hosts name1 (with_interface h1 e.1)) name2 (with_interface h2 e.2);
    })

-- The names of the hosts, as numbers.
abbrev pub applesauce : ℕ
applesauce = 0

abbrev pub default_router : ℕ
default_router = 1

abbrev pub cherrypie : ℕ
cherrypie = 2

abbrev pub hs_router : ℕ
hs_router = 3

abbrev pub dm42 : ℕ
dm42 = 4

abbrev pub dm43 : ℕ
dm43 = 5

unfoldable pub simulate_physical_connections : Network → Result Network
simulate_physical_connections net =
    connect_host net.default_id default_router net >>= λ (net1 : Network).
    connect_host net.eth0_id applesauce net1 >>= λ (net2 : Network).
    connect_host net.eth2_id cherrypie net2 >>= λ (net3 : Network).
    connect_host net.hs4_id hs_router net3 >>= λ (net4 : Network).
    connect_hosts net.uun3_id dm42 dm43 net4

-- The first loop of `simulate`.
unfoldable pub rounds : ℕ → Network → Result Network
rounds zero net = ok net
rounds (suc n) net = route net.router >>= λ (r : Router).
    simulate_physical_connections (record net { router = r }) >>= λ (net' : Network). rounds n net'

-- The second loop of `simulate`.
unfoldable pub check_all : Assoc Host → Result (Assoc Host)
check_all [] = ok []
check_all ((name, h) ∷ hosts) =
    check h >>= λ (h' : Host). check_all hosts >>= λ (rest : Assoc Host). ok ((name, h') ∷ rest)

-- The number of rounds of `simulate`.
abbrev pub round_count : ℕ
round_count = 256

unfoldable pub simulate : Network → Result Network
simulate net = rounds round_count net >>= λ (net' : Network).
    check_all net'.hosts >>= λ (hosts : Assoc Host). ok (record net' { hosts = hosts })
