-- ===== src/Simulator/Private.antt =====
-- The random Ethernet addresses of apps/network_simulator.cc and
-- libsponge/tcp_helpers/tcp_sponge_socket.cc.
use sponge_2021fall.Common.{
  ℕ, zero, suc, ◌≡◌, ◌<◌, ◌^◌, ◌%◌, ◌&&◌, Bool, true, refl, arith, List, [], ◌∷◌, length, bit_and,
  bit_or, ltb, ◌==◌, ap,
}
use sponge_2021fall.Wire.Ethernet.{EthernetAddress}
use sponge_2021fall.Simulator.Addresses.{random_bytes, mark_private, random_host_ethernet_address}

-- A test of every number below a bound.
holds_below : ℕ → (ℕ → Bool) → Bool
holds_below zero p = true
holds_below (suc n) p = p n && holds_below n p

holds_below-at : (n : ℕ) (p : ℕ → Bool) (x : ℕ) → holds_below n p ≡ true → x < n → p x ≡ true
unfolding holds_below
holds_below-at zero p x h small = absurd (omega arith)
holds_below-at (suc n) p x h small = ground (arith, holds_below-at n p x)

-- The byte of a private address: the two lowest bits are "10".
abbrev is_marked : ℕ → Bool
is_marked byte =
    bit_and (bit_or byte 0x02) 0xfe % 4 == 2 && ltb (bit_and (bit_or byte 0x02) 0xfe) 256

marked_table : holds_below 256 is_marked ≡ true
unfolding holds_below
marked_table = refl

-- An address of six bytes.
abbrev pub AllBytes : EthernetAddress → Type 0
AllBytes [] = Unit {0}
AllBytes (byte ∷ bytes) = (byte < 256) × AllBytes bytes

-- A private address for one host: the two lowest bits of its first byte are "10".
abbrev pub IsPrivate : EthernetAddress → Type 0
IsPrivate [] = ⊥
IsPrivate (byte ∷ bytes) = (byte % 4 ≡ 2) × AllBytes (byte ∷ bytes)

random_bytes-AllBytes : (words : List ℕ) → AllBytes (random_bytes words)
unfolding random_bytes
random_bytes-AllBytes [] = tt
random_bytes-AllBytes (word ∷ words) = (omega arith, random_bytes-AllBytes words)

length-random_bytes : (words : List ℕ) → length (random_bytes words) ≡ length words
unfolding random_bytes
length-random_bytes [] = refl
length-random_bytes (word ∷ words) = ap suc (length-random_bytes words)

-- Whatever the generator gives, the address is made of as many bytes as it gave words, one or more,
-- and is the private address of one host.
pub random_host_ethernet_address-IsPrivate :
    (word : ℕ) (words : List ℕ)
    → IsPrivate (random_host_ethernet_address (word ∷ words))
      × (length (random_host_ethernet_address (word ∷ words)) ≡ suc (length words))
unfolding random_host_ethernet_address mark_private random_bytes
random_host_ethernet_address-IsPrivate word words =
    let e = holds_below-at 256 is_marked (word % 2 ^ 8) marked_table (omega arith) in
    (
      (ground (arith, e), (ground (arith, e), random_bytes-AllBytes words)),
      ap suc (length-random_bytes words),
    )
