-- ===== src/Monitoring/Service.antt =====
-- The functions of server/proxy/server/monitoring_statistics.c, with `g_monitoring_mutex`. The mutex is
-- a default one: a thread that locks it twice waits for itself, and the call does not return.
use net_port.Base.{
  ℕ, ◌+◌, ◌-◌, ◌*◌, ◌%◌, Bool, true, false, not, ◌&&◌, ◌||◌, List, [], ◌∷◌, ◌++◌, Option, none,
  some, Str, codes, str_eq, length, get_elem?, set, take, ltb, leb, ◌==◌, if◌then◌else◌,
}
use net_port.Monitoring.{
  Snapshot, SystemStats, PerformanceMetrics, no_stats, new_period, device_id_max, system_statistics,
  record_performance_metric,
}
use net_port.Monitoring.Prometheus.{prometheus_text}
pub mod Locking

-- The static state; `locked` says that `g_monitoring_mutex` is held. `capacity` counts the snapshots
-- that there is memory for.
pub record Monitoring : Type 0 where
  pub system : SystemStats
  pub metrics : PerformanceMetrics
  pub snapshots : List Snapshot
  pub capacity : ℕ
  pub last_stats_update : ℕ
  pub prometheus : Str
  pub prometheus_updated : ℕ
  pub locked : Bool

-- A call that returns a value, or none where it never returns.
abbrev pub Call : Type 0 → Type 0
Call A = Option A

infixl 5 ◌>>=◌
abbrev pub ◌>>=◌ : {A B : Type 0} → Call A → (A → Call B) → Call B
none >>= f = none
some a >>= f = f a

-- `pthread_mutex_lock` and `pthread_mutex_unlock` by the one thread.
unfoldable pub acquire : Monitoring → Call Monitoring
acquire m = if m.locked then none else some (record m { locked = true })

unfoldable pub release : Monitoring → Monitoring
release m = record m { locked = false }

-- `monitoring_init`: whether the code is 0.
unfoldable pub monitoring_init : Bool → ℕ → Monitoring → Monitoring × Bool
monitoring_init calloc_ok now m =
    let m1 : Monitoring = record m {
      system = record no_stats { timestamp = now };
      metrics = new_period now;
      capacity = 1000;
    } in
    if calloc_ok
    then (
      record m1 { snapshots = []; last_stats_update = 0; prometheus = []; prometheus_updated = 0 },
      true,
    )
    else (m1, false)

-- `monitoring_cleanup`.
unfoldable pub monitoring_cleanup : Monitoring → Call Monitoring
monitoring_cleanup m = do h ← acquire m; some (release (record h { snapshots = []; capacity = 0 }))

-- `update_prometheus_metrics`: not more than once in five seconds.
unfoldable pub update_prometheus_metrics : ℕ → Monitoring → Call Monitoring
update_prometheus_metrics now m =
    let text = prometheus_text m.system m.metrics in
    let written = acquire m >>= λ h.
    some (release (record h { prometheus = text; prometheus_updated = now })) in
    if ltb now (m.prometheus_updated + 5) then some m else written

-- `update_system_statistics`: not more than once in a second.
unfoldable pub update_system_statistics : ℕ → Monitoring → Call Monitoring
update_system_statistics now m =
    let updated : Monitoring = record m {
      last_stats_update = now;
      system = system_statistics now m.snapshots;
    } in
    if ltb now (m.last_stats_update + 1) then some m else update_prometheus_metrics now updated

-- The search loop: the index of a device's snapshot.
unfoldable pub find_snapshot : Str → List Snapshot → Option ℕ
find_snapshot device_id [] = none
find_snapshot device_id (d ∷ ds) =
    let rest = find_snapshot device_id ds in
    if str_eq d.device_id device_id
    then some 0
    else elim rest [ none ↦ none | some i ↦ some (i + 1) ]

-- The list with the new snapshot of a device, whose name is cut to its field, and the capacity; `none`
-- where `realloc` fails.
unfoldable pub put_snapshot : Bool → Str → Snapshot → Monitoring → Option Monitoring
put_snapshot realloc_ok device_id new m = elim (find_snapshot device_id m.snapshots) [
  | some i ↦
      some (record m { snapshots = set m.snapshots i (keep_name (get_elem? m.snapshots i) new) })
  | none ↦
      let cut : Snapshot = record new { device_id = take device_id_max device_id } in
      let full = leb m.capacity (length m.snapshots) in
      if full && not realloc_ok
      then none
      else some (record m {
        snapshots = m.snapshots ++ cut ∷ [];
        capacity = if full then m.capacity * 2 else m.capacity;
      })
]
  where
    keep_name : Option Snapshot → Snapshot → Snapshot
    keep_name none d = d
    keep_name (some old) d = record d { device_id = old.device_id }

-- `update_device_statistics_monitoring`, with the values in `new`: whether the code is 0.
unfoldable pub update_device_statistics_monitoring :
    Bool → ℕ → Str → Snapshot → Monitoring → Call (Monitoring × Bool)
update_device_statistics_monitoring realloc_ok now device_id new m = do
  h ← acquire m
  elim (put_snapshot realloc_ok device_id (record new { timestamp = now }) h) [
    | none ↦ some (release h, false)
    | some h1 ↦ update_system_statistics now h1 >>= λ h2. some (release h2, true)
  ]

-- `get_system_statistics`.
unfoldable pub get_system_statistics : ℕ → Monitoring → Call (Monitoring × SystemStats)
get_system_statistics now m = do
  h ← acquire m
  h1 ← update_system_statistics now h
  some (release h1, h1.system)

-- `get_device_statistics`.
unfoldable pub get_device_statistics : Str → Monitoring → Call (Monitoring × Option Snapshot)
get_device_statistics device_id m = do
  h ← acquire m
  some (
    release h,
    elim (find_snapshot device_id h.snapshots) [ none ↦ none | some i ↦ get_elem? h.snapshots i ],
  )

-- `get_performance_metrics`.
unfoldable pub get_performance_metrics : Monitoring → Call (Monitoring × PerformanceMetrics)
get_performance_metrics m = do h ← acquire m; some (release h, h.metrics)

-- `record_performance_metric`, with the lock.
unfoldable pub record_metric : ℕ → Str → ℕ → Bool → Monitoring → Call Monitoring
record_metric now operation time success m = do
  h ← acquire m
  some (
      release
        (record h { metrics = record_performance_metric now operation time success h.metrics }))

-- `get_prometheus_metrics`.
unfoldable pub get_prometheus_metrics : ℕ → Monitoring → Call (Monitoring × Str)
get_prometheus_metrics now m = do
  h ← acquire m
  h1 ← (if ltb now (h.prometheus_updated + 5) then some h else update_prometheus_metrics now h)
  some (release h1, h1.prometheus)

-- `health_status_enum_t`.
pub data HealthStatus : Type 0 where
  ok warning error : HealthStatus

unfoldable pub is_warning : HealthStatus → Bool
is_warning ok = false
is_warning warning = true
is_warning error = false

unfoldable pub is_error : HealthStatus → Bool
is_error ok = false
is_error warning = false
is_error error = true

-- `health_status_t`, less the time and the two messages.
pub record Health : Type 0 where
  pub database_status : HealthStatus
  pub device_manager_status : HealthStatus
  pub port_allocation_status : HealthStatus
  pub system_resources_status : HealthStatus
  pub port_usage_status : HealthStatus
  pub overall_status : HealthStatus

-- The part of `get_health_status` that calculates the overall status.
unfoldable pub overall : Health → HealthStatus
overall h =
    if is_error h.database_status || is_error h.device_manager_status
    then error
    else if is_warning h.system_resources_status || is_warning h.port_usage_status
    then warning
    else ok

-- `get_system_cpu_usage` and `get_system_memory_usage`, in tenths of a per cent.
abbrev system_cpu_usage : ℕ
system_cpu_usage = 255

abbrev system_memory_usage : ℕ
system_memory_usage = 652

-- `get_health_status`: more than nine tenths of the ports are many, and so are 90 per cent of the two
-- rates.
unfoldable pub get_health_status : Monitoring → Health
get_health_status m =
    let checked : Health = record {
      database_status = ok;
      device_manager_status = ok;
      port_allocation_status = ok;
      system_resources_status =
          if ltb 900 system_cpu_usage
          then warning
          else if ltb 900 system_memory_usage
          then warning
          else ok;
      port_usage_status = if ltb (1001 * 9) (m.system.ports_used * 10) then warning else ok;
      overall_status = ok;
    } in
    record checked { overall_status = overall checked }
