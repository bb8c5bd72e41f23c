-- ===== src/Simulator/Host.antt =====
-- `Host` of apps/network_simulator.cc. A name is a constant, here a number. The payload that
-- `send_to` makes of a random number is an argument.
use sponge_2021fall.Common.{
  ℕ, ◌+◌, ◌*◌, Bool, true, false, not, ◌&&◌, List, [], ◌∷◌, ◌++◌, length, u16, ◌==◌, if◌then◌else◌,
  Result, ok, throw, runtime_error, ◌>>=◌,
}
use sponge_2021fall.Address.{Address, ipv4_numeric}
use sponge_2021fall.Wire.Buffer.{concatenate, BufferList}
use sponge_2021fall.Wire.Ethernet.{EthernetAddress}
use sponge_2021fall.Wire.Datagram.{Ipv4Datagram, default_datagram}
use sponge_2021fall.Wire.Datagram
use sponge_2021fall.Link.Interface.{NetworkInterface, send_datagram}
use sponge_2021fall.Link.Interface
use sponge_2021fall.Link.Router.{AsyncInterface}

pub record Host : Type 0 where
  pub name : ℕ
  pub my_address : Address
  pub interface : AsyncInterface
  pub next_hop : Address
  pub expecting_to_receive : List Ipv4Datagram

-- The constructor, with the random address.
unfoldable pub init : ℕ → Address → Address → EthernetAddress → Host
init name my_address next_hop ethernet_address = record {
  name = name;
  my_address = my_address;
  interface = record { base = Interface.init ethernet_address my_address; datagrams_out = [] };
  next_hop = next_hop;
  expecting_to_receive = [];
}

-- `serialize().concatenate()`
unfoldable pub shown : Ipv4Datagram → Result (List ℕ)
shown dgram = Datagram.serialize dgram >>= λ (bufs : BufferList). ok (concatenate bufs)

-- `operator==` of strings
unfoldable pub same_string : List ℕ → List ℕ → Bool
same_string [] [] = true
same_string [] (y ∷ ys) = false
same_string (x ∷ xs) [] = false
same_string (x ∷ xs) (y ∷ ys) = x == y && same_string xs ys

-- The comparison that `expecting` and `remove_expectation` make.
unfoldable pub equal : Ipv4Datagram → Ipv4Datagram → Result Bool
equal x expected =
    shown x >>= λ (s : List ℕ). shown expected >>= λ (t : List ℕ). ok (same_string s t)

-- `expecting`, over the list.
unfoldable pub expecting : List Ipv4Datagram → Ipv4Datagram → Result Bool
expecting [] expected = ok false
expecting (x ∷ xs) expected =
    equal x expected >>= λ (b : Bool). if b then ok true else expecting xs expected

-- `remove_expectation`, over the list.
unfoldable pub remove_expectation : List Ipv4Datagram → Ipv4Datagram → Result (List Ipv4Datagram)
remove_expectation [] expected = ok []
remove_expectation (x ∷ xs) expected = equal x expected >>= λ (b : Bool).
    if b
    then ok xs
    else (remove_expectation xs expected >>= λ (rest : List Ipv4Datagram). ok (x ∷ rest))

-- `send_to`, with the datagram that it returns.
unfoldable pub send_to : Host → Address → ℕ → List ℕ → Result (Ipv4Datagram × Host)
send_to h destination ttl payload =
    let dgram : Ipv4Datagram = record {
      header = record (default_datagram.header) {
        src = ipv4_numeric h.my_address;
        dst = ipv4_numeric destination;
        len = u16 (default_datagram.header.hlen * 4 + length payload);
        ttl = ttl;
      };
      payload = payload ∷ [];
    } in
    send_datagram h.interface.base dgram h.next_hop >>= λ (n : NetworkInterface).
    ok (dgram, record h { interface = record (h.interface) { base = n } })

unfoldable pub expect : Host → Ipv4Datagram → Host
expect h expected = record h { expecting_to_receive = h.expecting_to_receive ++ expected ∷ [] }

-- The loop of `check` over the received datagrams, with the expectations that are left.
unfoldable pub settle : List Ipv4Datagram → List Ipv4Datagram → Result (List Ipv4Datagram)
settle [] expected = ok expected
settle (dgram ∷ queue) expected = expecting expected dgram >>= λ (b : Bool).
    if not b
    then throw runtime_error
    else (remove_expectation expected dgram >>= λ (rest : List Ipv4Datagram). settle queue rest)

-- The end of `check`.
unfoldable pub none_left : Host → List Ipv4Datagram → Result Host
none_left h [] = ok (record h {
  interface = record (h.interface) { datagrams_out = [] };
  expecting_to_receive = [];
})
none_left h (expected ∷ more) = throw runtime_error

unfoldable pub check : Host → Result Host
check h = settle h.interface.datagrams_out h.expecting_to_receive >>= λ (rest : List Ipv4Datagram).
    none_left h rest
