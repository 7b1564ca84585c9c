-- ===== src/Monitoring.antt =====
-- server/proxy/server/monitoring_statistics.c: the snapshots of the devices, the totals, the
-- performance metrics, and the text for Prometheus. A `float` is written by its bits.
use net_port.Base.{
  ℕ, zero, suc, ◌+◌, ◌-◌, ◌*◌, ◌/◌, ◌%◌, ◌^◌, Bool, true, false, not, ◌&&◌, ◌||◌, List, [], ◌∷◌,
  ◌++◌, Option, none, some, Str, codes, str_eq, length, get_elem?, set, take, ltb, leb, ◌==◌,
  if◌then◌else◌,
}
pub mod Prometheus
pub mod Service
pub mod Totals
pub mod Metrics
mod Tests

-- `device_stats_snapshot_t`.
pub record Snapshot : Type 0 where
  pub device_id : Str
  pub timestamp : ℕ
  pub bytes_sent : ℕ
  pub bytes_received : ℕ
  pub active_connections : ℕ
  pub connection_count : ℕ
  pub uptime_seconds : ℕ
  pub cpu_usage : ℕ
  pub memory_usage : ℕ
  pub latency_ms : ℕ

-- `system_stats_t`, less two counters that stay 0 and the two rates, which are constants.
pub record SystemStats : Type 0 where
  pub timestamp : ℕ
  pub total_devices : ℕ
  pub active_devices : ℕ
  pub online_devices : ℕ
  pub total_sessions : ℕ
  pub active_sessions : ℕ
  pub total_bytes_sent : ℕ
  pub total_bytes_received : ℕ
  pub total_connections : ℕ
  pub peak_connections : ℕ
  pub ports_used : ℕ
  pub ports_available : ℕ

-- `performance_metrics_t`.
pub record PerformanceMetrics : Type 0 where
  pub period_start : ℕ
  pub period_end : ℕ
  pub request_count : ℕ
  pub error_count : ℕ
  pub timeout_count : ℕ
  pub auth_failures : ℕ
  pub total_processing_time_ms : ℕ
  pub avg_response_time_ms : ℕ
  pub p95_response_time_ms : ℕ
  pub p99_response_time_ms : ℕ
  pub max_response_time_ms : ℕ

abbrev pub u32 : ℕ
u32 = 2 ^ 32

abbrev pub u64 : ℕ
u64 = 2 ^ 64

abbrev pub device_id_max : ℕ
device_id_max = 64

abbrev pub no_stats : SystemStats
no_stats = record {
  timestamp = 0;
  total_devices = 0;
  active_devices = 0;
  online_devices = 0;
  total_sessions = 0;
  active_sessions = 0;
  total_bytes_sent = 0;
  total_bytes_received = 0;
  total_connections = 0;
  peak_connections = 0;
  ports_used = 0;
  ports_available = 0;
}

-- A period of one hour that starts at a time.
unfoldable pub new_period : ℕ → PerformanceMetrics
new_period now = record {
  period_start = now;
  period_end = now + 3600;
  request_count = 0;
  error_count = 0;
  timeout_count = 0;
  auth_failures = 0;
  total_processing_time_ms = 0;
  avg_response_time_ms = 0;
  p95_response_time_ms = 0;
  p99_response_time_ms = 0;
  max_response_time_ms = 0;
}

-- The body of the loop of `update_system_statistics` for a device that is online.
unfoldable pub add_snapshot : Snapshot → SystemStats → SystemStats
add_snapshot d s = record s {
  online_devices = (s.online_devices + 1) % u32;
  total_bytes_sent = (s.total_bytes_sent + d.bytes_sent) % u64;
  total_bytes_received = (s.total_bytes_received + d.bytes_received) % u64;
  total_connections = (s.total_connections + d.connection_count) % u32;
  peak_connections =
      if ltb s.peak_connections d.active_connections
      then d.active_connections
      else s.peak_connections;
}

-- Updated in the last five minutes.
abbrev pub is_online : ℕ → Snapshot → Bool
is_online now d = leb now (d.timestamp + 300)

unfoldable pub add_online : ℕ → List Snapshot → SystemStats → SystemStats
add_online now [] s = s
add_online now (d ∷ ds) s =
    let with_this = add_online now ds (add_snapshot d s) in
    let without = add_online now ds s in if is_online now d then with_this else without

-- The totals of `update_system_statistics`; `uint32_t` wraps in the number of free ports.
unfoldable pub system_statistics : ℕ → List Snapshot → SystemStats
system_statistics now ds =
    let s = add_online now ds (record no_stats { timestamp = now }) in
    record s {
      total_devices = length ds % u32;
      active_devices = s.online_devices;
      total_sessions = s.online_devices;
      active_sessions = s.online_devices;
      ports_used = s.online_devices;
      ports_available = (1001 + u32 - s.online_devices) % u32;
    }

unfoldable pub count_failure : Str → ℕ → PerformanceMetrics → PerformanceMetrics
count_failure operation time m =
    let failed : PerformanceMetrics = record m { error_count = (m.error_count + 1) % u32 } in
    if str_eq operation (codes "auth")
    then record failed { auth_failures = (m.auth_failures + 1) % u32 }
    else if ltb 10000 time
    then record failed { timeout_count = (m.timeout_count + 1) % u32 }
    else failed

-- `t > p * 0.95` and the like: in doubles the product of a 32-bit number has its exact order against
-- a whole number.
abbrev pub above_percent : ℕ → ℕ → ℕ → Bool
above_percent percent time p = ltb (p * percent) (time * 100)

-- The times of a request. Where `request_count` has wrapped to 0 the division of the code faults; the
-- quotient is 0 here.
unfoldable pub count_time : ℕ → PerformanceMetrics → PerformanceMetrics
count_time time m = record m {
  max_response_time_ms = if ltb m.max_response_time_ms time then time else m.max_response_time_ms;
  avg_response_time_ms = m.total_processing_time_ms / m.request_count % u32;
  p95_response_time_ms =
      if above_percent 95 time m.p95_response_time_ms then time else m.p95_response_time_ms;
  p99_response_time_ms =
      if above_percent 99 time m.p99_response_time_ms then time else m.p99_response_time_ms;
}

-- The request and its time are added to the counters.
unfoldable pub count_request : ℕ → PerformanceMetrics → PerformanceMetrics
count_request time m = record m {
  request_count = (m.request_count + 1) % u32;
  total_processing_time_ms = (m.total_processing_time_ms + time) % u64;
}

-- `record_performance_metric`, on the metrics.
unfoldable pub record_performance_metric :
    ℕ → Str → ℕ → Bool → PerformanceMetrics → PerformanceMetrics
record_performance_metric now operation time success m =
    let current = if leb m.period_end now then new_period now else m in
    let counted = count_request time current in
    count_time time (if success then counted else count_failure operation time counted)
