-- ===== src/Address.antt =====
-- `Address` of libsponge/util/address.hh and .cc, for the IPv4 addresses that the stack uses: the
-- number of the address and the port. Resolving names is a system call and is left out.
use sponge_2021fall.Common.{ℕ, Bool, ◌&&◌, ◌==◌}

pub record Address : Type 0 where
  pub ip : ℕ
  pub port : ℕ

-- `Address::ipv4_numeric`
unfoldable pub ipv4_numeric : Address → ℕ
ipv4_numeric a = a.ip

-- `Address::from_ipv4_numeric`
unfoldable pub from_ipv4_numeric : ℕ → Address
from_ipv4_numeric ip_address = record { ip = ip_address; port = 0 }

-- `Address::operator==`
unfoldable pub equals : Address → Address → Bool
equals a b = a.ip == b.ip && a.port == b.port
