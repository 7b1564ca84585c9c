-- ===== src/Monitoring/Tests.antt =====
-- Runs of the monitoring of server/proxy/server/monitoring_statistics.c.
use net_port.Base.{
  ◌+◌, ◌≤◌, ◌<◌, ◌≡◌, refl, ◌⊎◌, true, false, [], ◌∷◌, none, some, Str, codes, arith,
}
use net_port.Monitoring.{Snapshot, no_stats, new_period, system_statistics}
use net_port.Monitoring.Service.{Monitoring, monitoring_init, get_system_statistics}
use net_port.Monitoring.Service.Locking.{get_system_statistics-returns}
use net_port.Monitoring.Totals.{sum_online, max_online, system_statistics-sums}

abbrev device_a : Snapshot
device_a = record {
  device_id = codes "a";
  timestamp = 1000;
  bytes_sent = 10;
  bytes_received = 20;
  active_connections = 3;
  connection_count = 5;
  uptime_seconds = 60;
  cpu_usage = 0;
  memory_usage = 0;
  latency_ms = 7;
}

abbrev device_b : Snapshot
device_b = record device_a {
  device_id = codes "b";
  timestamp = 500;
  bytes_sent = 99;
  active_connections = 9;
}

abbrev blank : Monitoring
blank = record {
  system = no_stats;
  metrics = new_period 0;
  snapshots = [];
  capacity = 0;
  last_stats_update = 0;
  prometheus = [];
  prometheus_updated = 0;
  locked = false;
}

abbrev started : Monitoring
started = record blank {
  system = record no_stats { timestamp = 1000 };
  metrics = new_period 1000;
  capacity = 1000;
}

monitoring_init-started : monitoring_init true 1000 blank ≡ (started, true)
unfolding monitoring_init
monitoring_init-started = refl

system_statistics-sums_example :
    ((system_statistics 1001 (device_a ∷ device_b ∷ [])).online_devices ≡ 1)
    × ((system_statistics 1001 (device_a ∷ device_b ∷ [])).ports_used
          + (system_statistics 1001 (device_a ∷ device_b ∷ [])).ports_available
        ≡ 1001)
    × ((system_statistics 1001 (device_a ∷ device_b ∷ [])).total_bytes_sent ≡ 10)
    × ((system_statistics 1001 (device_a ∷ device_b ∷ [])).total_bytes_received ≡ 20)
    × ((system_statistics 1001 (device_a ∷ device_b ∷ [])).total_connections ≡ 5)
    × ((system_statistics 1001 (device_a ∷ device_b ∷ [])).peak_connections ≡ 3)
unfolding sum_online max_online
system_statistics-sums_example =
    system_statistics-sums 1001 (device_a ∷ device_b ∷ []) (omega arith)

abbrev auth : Str
auth = codes "auth"

get_system_statistics-returns_example :
    ((1000 < 1) × (get_system_statistics 1000 started ≡ some (started, started.system)))
    ⊎ ((1 ≤ 1000)
        × (1000 < 5)
        × (get_system_statistics 1000 started
            ≡ some (
              record started { last_stats_update = 1000; system = system_statistics 1000 [] },
              system_statistics 1000 [],
            )))
    ⊎ ((1 ≤ 1000) × (5 ≤ 1000) × (get_system_statistics 1000 started ≡ none))
get_system_statistics-returns_example = get_system_statistics-returns 1000 started refl
