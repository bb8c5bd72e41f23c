-- ===== src/Adapter/Base.antt =====
-- `FdAdapterConfig` of libsponge/tcp_helpers/tcp_config.hh and `FdAdapterBase` of fd_adapter.hh.
use sponge_2021fall.Common.{ℕ, Bool, false}
use sponge_2021fall.Address.{Address}
use sponge_2021fall.Tcp.Segment.{TcpSegment}

pub record AdapterConfig : Type 0 where
  pub source : Address
  pub destination : Address
  pub loss_rate_dn : ℕ
  pub loss_rate_up : ℕ

abbrev pub default_config : AdapterConfig
default_config = record {
  source = record { ip = 0; port = 0 };
  destination = record { ip = 0; port = 0 };
  loss_rate_dn = 0;
  loss_rate_up = 0;
}

-- `FdAdapterBase`
pub record Adapter : Type 0 where
  pub cfg : AdapterConfig
  pub listening : Bool

abbrev pub default_adapter : Adapter
default_adapter = record { cfg = default_config; listening = false }

-- `set_listening`
unfoldable pub set_listening : Adapter → Bool → Adapter
set_listening a l = record a { listening = l }

-- The port numbers that `wrap_tcp_in_ip` and `write` set.
unfoldable pub set_ports : Adapter → TcpSegment → TcpSegment
set_ports a seg = record seg {
  header = record (seg.header) { sport = a.cfg.source.port; dport = a.cfg.destination.port };
}
