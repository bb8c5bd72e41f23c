-- ===== src/Adapter/Lossy.antt =====
-- libsponge/tcp_helpers/lossy_fd_adapter.hh. The generator `_rand` is an argument: the number that it
-- gives, which is drawn only if the rate is not 0. What the adapter below reads and writes is too.
use sponge_2021fall.Common.{
  ℕ, Bool, true, false, not, ◌&&◌, Option, none, u16, ltb, ◌==◌, if◌then◌else◌,
}
use sponge_2021fall.Tcp.Segment.{TcpSegment}
use sponge_2021fall.Adapter.Base.{AdapterConfig}

-- `_should_drop(uplink)`
unfoldable pub should_drop : AdapterConfig → Bool → ℕ → Bool
should_drop cfg uplink rand =
    let loss = if uplink then cfg.loss_rate_up else cfg.loss_rate_dn in
    not (loss == 0) && ltb (u16 rand) loss

-- `read`: the adapter is read in any case.
unfoldable pub read {ℓ} :
    {A : Type ℓ} → (A → AdapterConfig) → (A → Option TcpSegment × A) → ℕ → A → Option TcpSegment × A
unfolding should_drop
read config read_below rand adapter =
    let (ret, adapter') = read_below adapter in
    if should_drop (config adapter') false rand then (none, adapter') else (ret, adapter')

-- `write`: the adapter is not called if the segment is dropped.
unfoldable pub write {ℓ} :
    {A : Type ℓ} → (A → AdapterConfig) → (TcpSegment → A → A) → ℕ → TcpSegment → A → A
unfolding should_drop
write config write_below rand seg adapter =
    if should_drop (config adapter) true rand then adapter else write_below seg adapter
