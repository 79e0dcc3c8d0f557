-- ===== src/Runs/StatsRuns.antt =====
-- Concrete inputs for the theorems on src/stats.rs.
use pgcat.Prelude.{◌≡◌, refl, false}
use pgcat.Stats.{
  AddressStats, zeros, add, fetch_add, average_time, xact_count_add, xact_time_add, error,
}
use pgcat.Stats.Tick.{averaged}

abbrev idle : AddressStats
idle = record { total = zeros; current = zeros; averages = zeros; averages_updated = false }

-- Two transactions of 30 ms together and one error.
abbrev busy : AddressStats
busy = add (xact_time_add 30) (add xact_count_add (add xact_count_add (add error idle)))

busy_time : (averaged busy).averages.xact_time ≡ 15
unfolding add fetch_add average_time
busy_time = refl
