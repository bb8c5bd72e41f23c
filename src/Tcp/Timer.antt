-- ===== src/Tcp/Timer.antt =====
-- The class `RetransmissionTimer` of libsponge/tcp_sender.hh.
use sponge_2021fall.Common.{ℕ, Bool, true, false, add64, leb, if◌then◌else◌, not}

pub record RetransmissionTimer : Type 0 where
  pub ddl : ℕ
  pub cur : ℕ
  pub is_start : Bool

abbrev pub idle : RetransmissionTimer
idle = record { ddl = 0; cur = 0; is_start = false }

unfoldable pub expired : RetransmissionTimer → Bool
expired t = if t.is_start then leb t.ddl t.cur else false

unfoldable pub start : RetransmissionTimer → ℕ → RetransmissionTimer
start t ddl = if t.is_start then t else record t { ddl = ddl; cur = 0; is_start = true }

unfoldable pub stop : RetransmissionTimer → RetransmissionTimer
stop t = record { is_start = false; cur = 0; ddl = 0 }

unfoldable pub tick : RetransmissionTimer → ℕ → RetransmissionTimer
tick t time = if not t.is_start then t else record t { cur = add64 t.cur time }
