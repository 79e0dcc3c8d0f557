-- ===== src/Stats/Tick.antt =====
-- src/stats.rs: what a tick of the collector does to the counters of every address.
use pgcat.Prelude.{
  ℕ, ◌/◌, ◌==◌, ◌≡◌, refl, inl, inr, Bool, true, false, List, [], ◌∷◌, if◌then◌else◌, Bool-cases,
  ==_iff,
}
use pgcat.Stats.{
  AddressStats, Store, write, update_one, each, tick, set_updated_status, update_averages,
  reset_current_counts, zeros, average_time,
}

unfoldable pub has_server : ℕ → List ℕ → Bool
has_server i [] = false
has_server i (a ∷ servers) = if i == a then true else has_server i servers

-- What the two loops do to one address.
abbrev visits : (AddressStats → AddressStats) → ℕ → List ℕ → Store → AddressStats
visits f i servers store = if has_server i servers then f (store i) else store i

update_one-twice : (s : AddressStats) → update_one (update_one s) ≡ update_one s
unfolding update_one update_averages reset_current_counts
update_one-twice s = elim (Bool-cases s.averages_updated) [ inl h ↦ rw h refl | inr h ↦ rw h refl ]

each-visits :
    (f : AddressStats → AddressStats)
    → ((s : AddressStats) → f (f s) ≡ f s)
    → (servers : List ℕ) (store : Store) (i : ℕ) → each f servers store i ≡ visits f i servers store
unfolding each has_server write
each-visits f twice [] store i = refl
each-visits f twice (a ∷ servers) store i = elim (Bool-cases (i == a)) [
  | inl same ↦ elim (Bool-cases (has_server i servers)) [
    | inl again ↦
        rw
          (
            each-visits f twice servers (write store a (f (store a))) i,
            again,
            same,
            twice (store a),
            (==_iff i a).0 same,
          )
          refl
    | inr last ↦
        rw
          (
            each-visits f twice servers (write store a (f (store a))) i,
            last,
            same,
            (==_iff i a).0 same,
          )
          refl
  ]
  | inr other ↦ rw (each-visits f twice servers (write store a (f (store a))) i, other) refl
]

-- What a tick leaves of the counters of an address that has servers.
abbrev pub averaged : AddressStats → AddressStats
averaged s = record {
  total = s.total;
  current = zeros;
  averages = record {
    xact_count = s.current.xact_count / 15;
    query_count = s.current.query_count / 15;
    bytes_received = s.current.bytes_received / 15;
    bytes_sent = s.current.bytes_sent / 15;
    xact_time = average_time s.current.xact_count s.current.xact_time;
    query_time = average_time s.current.query_count s.current.query_time;
    wait_time = s.current.wait_time / 15;
    errors = s.current.errors / 15;
  };
  averages_updated = false;
}

-- A tick of the collector, for an address that is not marked as updated: if it has servers, however
-- many share it, its averages are computed once from the counts since the last tick, those are reset
-- and the totals kept; otherwise it stays as it is. Nor is it marked afterwards.
pub tick_lem :
    (servers : List ℕ) (store : Store) (i : ℕ)
    → (store i).averages_updated ≡ false
    → tick servers store i ≡ (if has_server i servers then averaged (store i) else store i)
unfolding tick update_one update_averages reset_current_counts
tick_lem servers store i h = elim (Bool-cases (has_server i servers)) [
  | inl some_server ↦
      rw
        (
          each-visits (set_updated_status false) (λ s. refl) servers (each update_one servers store)
              i,
          each-visits update_one update_one-twice servers store i,
          some_server,
          h,
        )
        refl
  | inr no_server ↦
      rw
        (
          each-visits (set_updated_status false) (λ s. refl) servers (each update_one servers store)
              i,
          each-visits update_one update_one-twice servers store i,
          no_server,
        )
        refl
]
