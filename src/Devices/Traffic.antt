-- ===== src/Devices/Traffic.antt =====
-- How server/proxy/server/device_manager.c stores the traffic that a device reports.
use net_port.Base.{
  ℕ, ◌%◌, Bool, true, false, ◌&&◌, Option, none, some, Str, codes, ◌==◌, if◌then◌else◌,
  print_decimal,
}
use net_port.Devices.Sql.{
  add_session_traffic, add_device_traffic, insert_sample, delete_old_samples, merge_hour, Result,
  command_ok, Database, Log, run, ask,
}
use net_port.Devices.Session.{u32}
use net_port.Devices.Json.{Json, json_object_get, as_object, integer_at}

-- `PQresultStatus(res) == PGRES_COMMAND_OK` on an open connection.
abbrev pub command_done : Option Result → Bool
command_done (some (command_ok rows)) = true
command_done _ = false

-- The numbers of one report.
pub record Traffic : Type 0 where
  pub bytes_sent : ℕ
  pub bytes_received : ℕ
  pub connections : ℕ

-- `update_device_statistics`: whether the code is 0.
unfoldable pub update_device_statistics : Database → Str → Traffic → Log → Log × Bool
update_device_statistics db session_token t log =
    let sent = print_decimal t.bytes_sent in
    let received = print_decimal t.bytes_received in
    let (log', result) =
      ask db (add_session_traffic sent received (print_decimal t.connections) session_token) log in
    let (log'', ignored) = run db (add_device_traffic sent received session_token) log' in
    if command_done result then (log'', true) else (log', false)

-- `record_device_traffic_sample`: whether the code is 0.
unfoldable pub record_device_traffic_sample : Database → Str → Traffic → Log → Log × Bool
record_device_traffic_sample db session_token t log =
    let (log', result) =
      ask db
        (insert_sample (print_decimal t.bytes_sent) (print_decimal t.bytes_received)
          (print_decimal t.connections) session_token)
        log in
    let (log'', ignored) = run db delete_old_samples log' in
    if command_done result then (log'', true) else (log', false)

-- `aggregate_device_hourly_statistics`: whether the code is 0.
unfoldable pub aggregate_device_hourly_statistics : Database → Str → Traffic → Log → Log × Bool
aggregate_device_hourly_statistics db session_token t log =
    let (log', result) =
      ask db
        (merge_hour (print_decimal t.bytes_sent) (print_decimal t.bytes_received)
          (print_decimal t.connections) session_token)
        log in
    if (t.bytes_sent == 0) && (t.bytes_received == 0) && (t.connections == 0)
    then (log, true)
    else (log', command_done result)

abbrev pub no_traffic : Traffic
no_traffic = record { bytes_sent = 0; bytes_received = 0; connections = 0 }

-- The two byte counts of an object, if both are integers.
unfoldable pub both_counts : Json → Option (ℕ × ℕ)
both_counts v = elim (integer_at (codes "bytes_sent") v) [
  | none ↦ none
  | some sent ↦ elim (integer_at (codes "bytes_received") v) [
    | none ↦ none
    | some received ↦ some (sent, received)
  ]
]

abbrev pub set_connections : Option ℕ → Traffic → Traffic
set_connections none t = t
set_connections (some n) t = record t { connections = n % u32 }

abbrev pub set_bytes : ℕ × ℕ → Traffic → Traffic
set_bytes (sent, received) t = record t { bytes_sent = sent; bytes_received = received }

-- What one of the two objects of a heartbeat adds to the numbers; whether there are byte counts.
unfoldable pub read_part : Option Json → Str → Traffic × Bool → Traffic × Bool
read_part part connections_key (t, has_traffic) = elim (as_object part) [
  | none ↦ (t, has_traffic)
  | some v ↦
      let t' = set_connections (integer_at connections_key v) t in
      if has_traffic
      then (t', true)
      else elim (both_counts v) [ none ↦ (t', false) | some counts ↦ (set_bytes counts t', true) ]
]

-- The numbers of a heartbeat request, from `statistics` and then from `traffic`.
unfoldable pub read_traffic : Json → Traffic × Bool
read_traffic request =
    read_part (json_object_get (codes "traffic") request) (codes "active_connections") (
      read_part (json_object_get (codes "statistics") request) (codes "connections")
        (no_traffic, false))

-- What a heartbeat stores.
unfoldable pub store_traffic : Database → Str → Traffic × Bool → Log → Log
store_traffic db session_token (t, has_traffic) log =
    let (log1, ignored1) = update_device_statistics db session_token t log in
    let (log2, ignored2) = aggregate_device_hourly_statistics db session_token t log1 in
    (record_device_traffic_sample db session_token t (if has_traffic then log2 else log)).0
