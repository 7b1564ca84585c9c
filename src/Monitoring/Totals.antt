-- ===== src/Monitoring/Totals.antt =====
-- The totals of `update_system_statistics` of server/proxy/server/monitoring_statistics.c against the
-- sums over the devices with a recent snapshot.
use net_port.Base.{
  ℕ, Bool, leb, ◌-◌, ◌+◌, ◌%◌, ◌≤◌, ◌<◌, ◌≡◌, refl, List, [], ◌∷◌, length, if◌then◌else◌, ltb,
  arith, Bool-cases, inl, inr,
}
use net_port.Monitoring.{
  Snapshot, SystemStats, no_stats, add_snapshot, add_online, is_online, system_statistics, u32, u64,
}

-- The age of a snapshot, 0 for one of a time to come, is at most 300 seconds.
abbrev pub is_recent : ℕ → Snapshot → Bool
is_recent now d = leb (now - d.timestamp) 300

-- A sum over the recent snapshots.
unfoldable pub sum_online : ℕ → (Snapshot → ℕ) → List Snapshot → ℕ
sum_online now f [] = 0
sum_online now f (d ∷ ds) =
    let rest = sum_online now f ds in if is_recent now d then f d + rest else rest

-- The larger of a number and of the connections of the devices with a recent snapshot.
unfoldable pub max_online : ℕ → ℕ → List Snapshot → ℕ
max_online now top [] = top
max_online now top (d ∷ ds) =
    let rest = max_online now top ds in
    if is_recent now d
    then (if ltb rest d.active_connections then d.active_connections else rest)
    else rest

max_online-step :
    (now top new : ℕ) (ds : List Snapshot)
    → max_online now (if ltb top new then new else top) ds
      ≡ (if ltb (max_online now top ds) new then new else max_online now top ds)
unfolding max_online
max_online-step now top new [] = refl
max_online-step now top new (d ∷ ds) = ground (arith, max_online-step now top new ds)

-- The totals `r` of a list that is added to `s`.
record IsAdded (now : ℕ) (ds : List Snapshot) (s r : SystemStats) : Type 0 where
  online : r.online_devices ≡ (s.online_devices + sum_online now (λ d. 1) ds) % u32
  sent : r.total_bytes_sent ≡ (s.total_bytes_sent + sum_online now (λ d. d.bytes_sent) ds) % u64
  received :
      r.total_bytes_received
      ≡ (s.total_bytes_received + sum_online now (λ d. d.bytes_received) ds) % u64
  connections :
      r.total_connections
      ≡ (s.total_connections + sum_online now (λ d. d.connection_count) ds) % u32
  peak : r.peak_connections ≡ max_online now s.peak_connections ds

record IsSized (s : SystemStats) : Type 0 where
  online : s.online_devices < u32
  sent : s.total_bytes_sent < u64
  received : s.total_bytes_received < u64
  connections : s.total_connections < u32

add_snapshot-IsSized : (d : Snapshot) (s : SystemStats) → IsSized (add_snapshot d s)
unfolding add_snapshot
add_snapshot-IsSized d s = record {
  online = omega arith;
  sent = omega arith;
  received = omega arith;
  connections = omega arith;
}

add_online-IsAdded :
    (now : ℕ) (ds : List Snapshot) (s : SystemStats)
    → IsSized s
    → IsAdded now ds s (add_online now ds s)
unfolding add_online sum_online max_online add_snapshot
add_online-IsAdded now [] s sized = record {
  online = omega (arith, sized.online);
  sent = omega (arith, sized.sent);
  received = omega (arith, sized.received);
  connections = omega (arith, sized.connections);
  peak = refl;
}
add_online-IsAdded now (d ∷ ds) s sized = elim (Bool-cases (is_online now d)) [
  | inl online ↦
      (let h = add_online-IsAdded now ds (add_snapshot d s) (add_snapshot-IsSized d s) in
        record {
          online = ground (arith, online, h.online);
          sent = ground (arith, online, h.sent);
          received = ground (arith, online, h.received);
          connections = ground (arith, online, h.connections);
          peak = ground (
            arith,
            online,
            h.peak,
            max_online-step now s.peak_connections d.active_connections ds,
          );
        })
  | inr offline ↦
      (let h = add_online-IsAdded now ds s sized in
        record {
          online = ground (arith, offline, h.online);
          sent = ground (arith, offline, h.sent);
          received = ground (arith, offline, h.received);
          connections = ground (arith, offline, h.connections);
          peak = ground (arith, offline, h.peak);
        })
]

-- A list with at most 1001 devices counts at most 1001 of them as online.
sum_online-length : (now : ℕ) (ds : List Snapshot) → sum_online now (λ d. 1) ds ≤ length ds
unfolding sum_online
sum_online-length now [] = omega arith
sum_online-length now (d ∷ ds) = ground (arith, sum_online-length now ds)

-- The totals that `update_system_statistics` computes, for at most 1001 snapshots: the number of
-- devices online is the number of snapshots that are at most 300 seconds old, used and free ports add up to
-- 1001, the bytes both ways and the connections are the sums over these, at the width of
-- their fields, and the peak is the largest number of connections of one of them.
pub system_statistics-sums :
    (now : ℕ) (ds : List Snapshot)
    → length ds ≤ 1001
    → ((system_statistics now ds).online_devices ≡ sum_online now (λ d. 1) ds)
      × ((system_statistics now ds).ports_used + (system_statistics now ds).ports_available ≡ 1001)
      × ((system_statistics now ds).total_bytes_sent ≡ sum_online now (λ d. d.bytes_sent) ds % u64)
      × ((system_statistics now ds).total_bytes_received
          ≡ sum_online now (λ d. d.bytes_received) ds % u64)
      × ((system_statistics now ds).total_connections
          ≡ sum_online now (λ d. d.connection_count) ds % u32)
      × ((system_statistics now ds).peak_connections ≡ max_online now 0 ds)
unfolding system_statistics
system_statistics-sums now ds few =
    let start : SystemStats = record no_stats { timestamp = now } in
    let h = add_online-IsAdded now ds start (record {
      online = omega arith;
      sent = omega arith;
      received = omega arith;
      connections = omega arith;
    }) in
    let bound = sum_online-length now ds in
    (
      omega (arith, h.online, bound, few),
      omega (arith, h.online, bound, few),
      omega (arith, h.sent),
      omega (arith, h.received),
      omega (arith, h.connections),
      h.peak,
    )
