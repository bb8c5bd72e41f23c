-- ===== src/Simulator/Addresses.antt =====
-- The random Ethernet addresses of apps/network_simulator.cc and
-- libsponge/tcp_helpers/tcp_sponge_socket.cc, from the words that the generator gives.
use sponge_2021fall.Common.{ℕ, ◌^◌, ◌%◌, List, [], ◌∷◌, bit_and, bit_or}
use sponge_2021fall.Wire.Ethernet.{EthernetAddress}

-- `byte = rd()` for each byte of an address.
unfoldable pub random_bytes : List ℕ → EthernetAddress
random_bytes [] = []
random_bytes (word ∷ words) = word % 2 ^ 8 ∷ random_bytes words

-- `addr.at(0) |= 0x02` and `addr.at(0) &= 0xfe`
unfoldable pub mark_private : EthernetAddress → EthernetAddress
mark_private [] = []
mark_private (byte ∷ bytes) = bit_and (bit_or byte 0x02) 0xfe ∷ bytes

-- `random_host_ethernet_address` and `random_private_ethernet_address`
unfoldable pub random_host_ethernet_address : List ℕ → EthernetAddress
random_host_ethernet_address words = mark_private (random_bytes words)

-- The first three bytes are constants.
unfoldable pub router_prefix : EthernetAddress → EthernetAddress
router_prefix [] = []
router_prefix (a ∷ []) = 0x02 ∷ []
router_prefix (a ∷ b ∷ []) = 0x02 ∷ 0 ∷ []
router_prefix (a ∷ b ∷ c ∷ bytes) = 0x02 ∷ 0 ∷ 0 ∷ bytes

-- `random_router_ethernet_address`
unfoldable pub random_router_ethernet_address : List ℕ → EthernetAddress
random_router_ethernet_address words = router_prefix (random_bytes words)
