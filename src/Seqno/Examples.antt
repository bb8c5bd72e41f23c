-- ===== src/Seqno/Examples.antt =====
-- Runs of libsponge/wrapping_integers.cc.
use sponge_2021fall.Common.{◌≡◌, refl, ◌^◌, ◌-◌, ◌*◌, ◌≤◌, arith, IsU64}
use sponge_2021fall.Seqno.{WrappingInt32, wrap, unwrap}
use sponge_2021fall.Seqno.RoundTrip.{dist, unwrap_closest}

abbrev isn : WrappingInt32
isn = record { raw_value = 10 }

abbrev last_number : WrappingInt32
last_number = record { raw_value = 2 ^ 32 - 1 }

unwrap_run : unwrap last_number isn (3 * 2 ^ 32) ≡ 3 * 2 ^ 32 - 11
unfolding unwrap
unwrap_run = refl

unwrap_closest_example :
    (wrap (unwrap last_number isn (3 * 2 ^ 32)) isn ≡ last_number)
    × IsU64 (unwrap last_number isn (3 * 2 ^ 32))
    × (dist (unwrap last_number isn (3 * 2 ^ 32)) (3 * 2 ^ 32)
        ≤ dist (4 * 2 ^ 32 - 11) (3 * 2 ^ 32))
unwrap_closest_example =
    unwrap_closest last_number isn (3 * 2 ^ 32) (4 * 2 ^ 32 - 11) (omega arith) (omega arith)
      (omega arith) (omega arith) (unfold wrap in refl)
