-- ===== src/TcpSpongeSocket/Drivers/Lossy.antt =====
-- `LossyFdAdapter` of libsponge/tcp_helpers/lossy_fd_adapter.hh over an adapter, as
-- libsponge/tcp_helpers/tcp_sponge_socket.cc is instantiated with it.
use sponge_2021fall.Common.{
  ℕ, ◌≡◌, Bool, true, false, Option, none, ◌==◌, if◌then◌else◌, ok, ◌>>=◌, bind-Returns, ◌+◌,
}
use sponge_2021fall.Tcp.Segment.{TcpSegment}
use sponge_2021fall.Adapter.Base.{AdapterConfig}
use sponge_2021fall.Adapter.Lossy.{should_drop}
use sponge_2021fall.TcpSpongeSocket.Base.{Driver}
use sponge_2021fall.TcpSpongeSocket.Busy.{Counts}

-- `rand` are the numbers that the generator is to give.
pub record LossyAdapter (A : Type 0) : Type 0 where
  pub rand : ℕ → ℕ
  pub adapter : A

-- The generator after `_should_drop`, which draws a number only if the rate is not 0.
abbrev pub drawn : AdapterConfig → Bool → (ℕ → ℕ) → ℕ → ℕ
drawn cfg uplink rand =
    if (if uplink then cfg.loss_rate_up else cfg.loss_rate_dn) == 0
    then rand
    else (λ n. rand (n + 1))

module _ {A W : Type 0} (config : A → AdapterConfig) (driver : Driver A W) where
  unfoldable pub lossy : Driver (LossyAdapter A) W
  lossy = record {
    fd = λ a. driver.fd a.adapter;
    set_config = λ a c. record a { adapter = driver.set_config a.adapter c };
    set_listening = λ a l. record a { adapter = driver.set_listening a.adapter l };
    read = λ a w. driver.read a.adapter w >>= λ (r : Option TcpSegment × A × W). ok (
      if should_drop (config r.1) false (a.rand 0) then none else r.0,
      record { rand = drawn (config r.1) false a.rand; adapter = r.1 },
      r.2,
    );
    write = λ a seg w.
        (let rest : LossyAdapter A = record a { rand = drawn (config a.adapter) true a.rand } in
          if should_drop (config a.adapter) true (a.rand 0)
          then ok (rest, w)
          else (driver.write a.adapter seg w >>= λ (r : A × W).
              ok (record rest { adapter = r.0 }, r.1)));
    tick = λ a ms w.
        driver.tick a.adapter ms w >>= λ (r : A × W). ok (record a { adapter = r.0 }, r.1);
  }

  -- A reading that is dropped is counted as one that is not.
  pub lossy-Counts : Counts driver → Counts lossy
  unfolding lossy
  lossy-Counts counts a w =
      bind-Returns
        (λ (r : Option TcpSegment × A × W).
          ((driver.fd a.adapter).read_count == (driver.fd r.1).read_count) ≡ false)
        _ (driver.read a.adapter w) _ (counts a.adapter w) (λ r k. k)
