-- ===== src/Stats.antt =====
-- src/stats/address.rs: the counters of an address. src/stats.rs: a tick of the collector.
use pgcat.Prelude.{ℕ, ◌/◌, ◌==◌, Bool, true, false, List, [], ◌∷◌, ◌++◌, if◌then◌else◌, codes}
use pgcat.Prelude.Words.{wrapping_add_u64}
use pgcat.Prelude.Decimal.{decimal}
pub mod Tick

-- Each counter is an atomic u64, whose `fetch_add` wraps around.
pub record AddressStatFields : Type 0 where
  pub xact_count : ℕ
  pub query_count : ℕ
  pub bytes_received : ℕ
  pub bytes_sent : ℕ
  pub xact_time : ℕ
  pub query_time : ℕ
  pub wait_time : ℕ
  pub errors : ℕ

pub record AddressStats : Type 0 where
  pub total : AddressStatFields
  pub current : AddressStatFields
  pub averages : AddressStatFields
  pub averages_updated : Bool

-- What a call counts, with the number that it adds.
pub data Count : Type 0 where
  xact_count_add : Count
  query_count_add : Count
  bytes_received_add : ℕ → Count
  bytes_sent_add : ℕ → Count
  xact_time_add : ℕ → Count
  query_time_add : ℕ → Count
  wait_time_add : ℕ → Count
  error : Count

-- The `fetch_add` that a call does on the totals, and again on the current counts.
unfoldable pub fetch_add : Count → AddressStatFields → AddressStatFields
fetch_add xact_count_add f = record f { xact_count = wrapping_add_u64 f.xact_count 1 }
fetch_add query_count_add f = record f { query_count = wrapping_add_u64 f.query_count 1 }
fetch_add (bytes_received_add n) f = record f {
  bytes_received = wrapping_add_u64 f.bytes_received n;
}
fetch_add (bytes_sent_add n) f = record f { bytes_sent = wrapping_add_u64 f.bytes_sent n }
fetch_add (xact_time_add n) f = record f { xact_time = wrapping_add_u64 f.xact_time n }
fetch_add (query_time_add n) f = record f { query_time = wrapping_add_u64 f.query_time n }
fetch_add (wait_time_add n) f = record f { wait_time = wrapping_add_u64 f.wait_time n }
fetch_add error f = record f { errors = wrapping_add_u64 f.errors 1 }

unfoldable pub add : Count → AddressStats → AddressStats
add call s = record s { total = fetch_add call s.total; current = fetch_add call s.current }

-- In milliseconds.
abbrev pub stat_period : ℕ
stat_period = 15000

abbrev pub stat_period_per_second : ℕ
stat_period_per_second = stat_period / 1000

-- The time of one transaction, or of one query.
unfoldable pub average_time : ℕ → ℕ → ℕ
average_time count time = if count == 0 then 0 else time / count

unfoldable pub update_averages : AddressStats → AddressStats
update_averages s = record s {
  averages = record {
    xact_count = s.current.xact_count / stat_period_per_second;
    query_count = s.current.query_count / stat_period_per_second;
    bytes_received = s.current.bytes_received / stat_period_per_second;
    bytes_sent = s.current.bytes_sent / stat_period_per_second;
    xact_time = average_time s.current.xact_count s.current.xact_time;
    query_time = average_time s.current.query_count s.current.query_time;
    wait_time = s.current.wait_time / stat_period_per_second;
    errors = s.current.errors / stat_period_per_second;
  };
}

abbrev pub zeros : AddressStatFields
zeros = record {
  xact_count = 0;
  query_count = 0;
  bytes_received = 0;
  bytes_sent = 0;
  xact_time = 0;
  query_time = 0;
  wait_time = 0;
  errors = 0;
}

unfoldable pub reset_current_counts : AddressStats → AddressStats
reset_current_counts s = record s { current = zeros }

-- The columns of a row, with their names.
unfoldable pub into_iter : AddressStats → List (List ℕ × ℕ)
into_iter s =
    (codes "total_xact_count", s.total.xact_count)
    ∷ ((codes "total_query_count", s.total.query_count)
        ∷ ((codes "total_received", s.total.bytes_received)
            ∷ ((codes "total_sent", s.total.bytes_sent)
                ∷ ((codes "total_xact_time", s.total.xact_time)
                    ∷ ((codes "total_query_time", s.total.query_time)
                        ∷ ((codes "total_wait_time", s.total.wait_time)
                            ∷ ((codes "total_errors", s.total.errors)
                                ∷ ((codes "avg_xact_count", s.averages.xact_count)
                                    ∷ ((codes "avg_query_count", s.averages.query_count)
                                        ∷ ((codes "avg_recv", s.averages.bytes_received)
                                            ∷ ((codes "avg_sent", s.averages.bytes_sent)
                                                ∷ ((codes "avg_errors", s.averages.errors)
                                                    ∷ ((codes "avg_xact_time", s.averages.xact_time)
                                                        ∷ ((
                                                          codes "avg_query_time",
                                                          s.averages.query_time,
                                                        )
                                                            ∷ ((
                                                            codes "avg_wait_time",
                                                            s.averages.wait_time,
                                                            )
                                                            ∷ [])))))))))))))))

unfoldable pub push_values : List (List ℕ × ℕ) → List (List ℕ)
push_values [] = []
push_values ((_, value) ∷ rest) = decimal 20 value ∷ push_values rest

unfoldable pub populate_row : AddressStats → List (List ℕ) → List (List ℕ)
populate_row s row = row ++ push_values (into_iter s)

-- The servers of one address share its counters, so a server is the number of its address, and the
-- store holds the counters of every address.
abbrev pub Store : Type 0
Store = ℕ → AddressStats

unfoldable pub write : Store → ℕ → AddressStats → Store
write store a s i = if i == a then s else store i

abbrev pub set_updated_status : Bool → AddressStats → AddressStats
set_updated_status flag s = record s { averages_updated = flag }

-- One server in the first loop of a tick.
unfoldable pub update_one : AddressStats → AddressStats
update_one s =
    if s.averages_updated
    then s
    else set_updated_status true (reset_current_counts (update_averages s))

-- A loop over the servers, that changes the counters of the address of each.
unfoldable pub each : (AddressStats → AddressStats) → List ℕ → Store → Store
each f [] store = store
each f (a ∷ servers) store = each f servers (write store a (f (store a)))

unfoldable pub tick : List ℕ → Store → Store
tick servers store = each (set_updated_status false) servers (each update_one servers store)
