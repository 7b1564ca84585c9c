-- ===== src/Monitoring/Service/Locking.antt =====
-- Which calls of server/proxy/server/monitoring_statistics.c return.
use net_port.Base.{ℕ, ◌+◌, ◌≤◌, ◌<◌, ◌≡◌, ◌⊎◌, inl, inr, false, none, some, ltb, arith, Bool-cases}
use net_port.Monitoring.{system_statistics}
use net_port.Monitoring.Service.{
  Monitoring, acquire, release, update_prometheus_metrics, update_system_statistics,
  get_system_statistics,
}

-- `get_system_statistics` on a mutex that is free: where the totals are less than a second old it
-- returns them and changes nothing; where they are older and the text for Prometheus is less than five
-- seconds old it returns the new totals; where the text is older too it does not return, since the
-- thread waits for the mutex that it holds itself.
pub get_system_statistics-returns :
    (now : ℕ) (m : Monitoring)
    → m.locked ≡ false
    → ((now < m.last_stats_update + 1) × (get_system_statistics now m ≡ some (m, m.system)))
      ⊎ ((m.last_stats_update + 1 ≤ now)
          × (now < m.prometheus_updated + 5)
          × (get_system_statistics now m
              ≡ some (
                record m { last_stats_update = now; system = system_statistics now m.snapshots },
                system_statistics now m.snapshots,
              )))
      ⊎ ((m.last_stats_update + 1 ≤ now)
          × (m.prometheus_updated + 5 ≤ now)
          × (get_system_statistics now m ≡ none))
unfolding get_system_statistics update_system_statistics update_prometheus_metrics acquire release
get_system_statistics-returns now m open_ = elim (Bool-cases (ltb now (m.last_stats_update + 1))) [
  | inl recent ↦ inl (ground (arith, recent), ground (arith, open_, recent))
  | inr old ↦ elim (Bool-cases (ltb now (m.prometheus_updated + 5))) [
    | inl fresh ↦
        inr (inl (ground (arith, old), ground (arith, fresh), ground (arith, open_, old, fresh)))
    | inr stale ↦
        inr (inr (ground (arith, old), ground (arith, stale), ground (arith, open_, old, stale)))
  ]
]
