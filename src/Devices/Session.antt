-- ===== src/Devices/Session.antt =====
-- The queries of server/proxy/server/device_manager.c for one device and for one session.
use net_port.Base.{
  ℕ, suc, ◌^◌, Bool, true, false, ◌||◌, List, [], ◌∷◌, Option, none, some, Str, codes, str_eq, take,
  ltb, ◌==◌, if◌then◌else◌, atoi, print_decimal,
}
use net_port.Proxy.Dynamic.State.{Registry, named, device_id_max}
use net_port.Proxy.Dynamic.Stop.{Ends, stop_dynamic_server_for_device}
use net_port.Proxy.Dynamic.Start.{u16}
use net_port.Devices.Control.{tunnel_of}
use net_port.Devices.Sql.{
  select_device, authenticate, touch_session, touch_device, select_session, terminate_session,
  free_port, free_port_pair, cleanup_expired_sessions, command_ok, tuples, Database, Log, run, ask,
  first_row, column,
}

-- `device_status_t`.
pub data DeviceStatus : Type 0 where
  inactive active pending blocked in_error : DeviceStatus

-- The fields of `device_info_t` that the queries fill. The assigned and the tunnel port, which the
-- registration adds, are passed beside it.
pub record DeviceInfo : Type 0 where
  pub device_id : Str
  pub name : Str
  pub kind : Str
  pub user_id : ℕ
  pub internal_address : Str
  pub internal_port : ℕ
  pub enable_input_ssl : Bool
  pub enable_tunnel_ssl : Bool
  pub status : DeviceStatus

abbrev pub u32 : ℕ
u32 = 2 ^ 32

abbrev pub u64 : ℕ
u64 = 2 ^ 64

-- What `memset(&device_info, 0, sizeof(device_info))` and a copy of the name leave.
abbrev pub unknown_device : Str → DeviceInfo
unknown_device device_id = record {
  device_id = take device_id_max device_id;
  name = [];
  kind = [];
  user_id = 0;
  internal_address = [];
  internal_port = 0;
  enable_input_ssl = false;
  enable_tunnel_ssl = false;
  status = inactive;
}

unfoldable pub parse_pg_bool : Str → Bool
parse_pg_bool [] = false
parse_pg_bool (c ∷ s) = (c == 116) || (c == 84) || (c == 49)

-- The columns of the two queries are the same, the first one aside. `name` has 255 bytes, `type` 64,
-- `internal_address` 45.
unfoldable pub read_device : Str → DeviceStatus → List Str → DeviceInfo
read_device device_id status row = record {
  device_id = take device_id_max device_id;
  name = take 255 (column 1 row);
  kind = take 64 (column 2 row);
  user_id = atoi u32 (column 3 row);
  internal_address = take 45 (column 4 row);
  internal_port = if named (column 5 row) then atoi u16 (column 5 row) else 0;
  enable_input_ssl = parse_pg_bool (column 7 row);
  enable_tunnel_ssl = parse_pg_bool (column 8 row);
  status = status;
}

unfoldable pub loaded_status : Str → DeviceStatus
loaded_status s =
    if str_eq s (codes "active")
    then active
    else if str_eq s (codes "pending")
    then pending
    else inactive

unfoldable pub device_manager_load_device_by_id : Database → Str → Log → Log × Option DeviceInfo
device_manager_load_device_by_id db device_id log =
    let (log', result) = ask db (select_device device_id) log in
    (
      log',
      elim (first_row result) [
        | none ↦ none
        | some row ↦ some (read_device device_id (loaded_status (column 6 row)) row)
      ],
    )

abbrev authenticated_status : Str → DeviceStatus
authenticated_status s = if str_eq s (codes "active") then active else pending

-- `sha256` is `sha256_hex`, which may fail.
unfoldable pub device_authenticate :
    Database → (Str → Option Str) → Str → Str → Log → Log × Option DeviceInfo
device_authenticate db sha256 device_id auth_token log = elim (sha256 auth_token) [
  | none ↦ (log, none)
  | some token_hash ↦
      let (log', result) = ask db (authenticate device_id token_hash) log in
      (
        log',
        elim (first_row result) [
          | none ↦ none
          | some row ↦ some (read_device device_id (authenticated_status (column 6 row)) row)
        ],
      )
]

-- The fields of `device_session_t` that the query fills; whether the status is SESSION_STATUS_ACTIVE.
pub record Session : Type 0 where
  pub session_token : Str
  pub device_id : Str
  pub assigned_port : ℕ
  pub expires_at : ℕ
  pub bytes_sent : ℕ
  pub bytes_received : ℕ
  pub active_connections : ℕ
  pub is_active : Bool

-- `session_token` has 256 bytes.
unfoldable pub read_session : List Str → Session
read_session row = record {
  session_token = take 256 (column 0 row);
  device_id = take device_id_max (column 1 row);
  assigned_port = atoi u16 (column 2 row);
  expires_at = atoi u64 (column 3 row);
  bytes_sent = atoi u64 (column 5 row);
  bytes_received = atoi u64 (column 6 row);
  active_connections = atoi u32 (column 7 row);
  is_active = str_eq (column 4 row) (codes "active");
}

unfoldable pub get_session_by_token : Database → Str → Log → Log × Option Session
get_session_by_token db session_token log =
    let (log', result) = ask db (select_session session_token) log in
    (log', elim (first_row result) [ none ↦ none | some row ↦ some (read_session row) ])

-- `update_device_heartbeat`: whether the code is 0. `timeout` is `g_config.session_timeout`.
unfoldable pub update_device_heartbeat : Database → ℕ → Str → Log → Log × Bool
update_device_heartbeat db timeout session_token log =
    let (log', result) = ask db (touch_session (print_decimal timeout) session_token) log in
    let (log'', ignored) = run db (touch_device session_token) log' in
    elim result [ some (command_ok (suc rows)) ↦ (log'', true) | _ ↦ (log', false) ]

-- The last part of `terminate_device_session`.
unfoldable pub end_session : Database → Str → ℕ → Log → Log × Bool
end_session db session_token assigned_port log =
    let (log', result) = ask db (terminate_session session_token) log in
    let (log'', ignored) = run db (free_port_pair (print_decimal assigned_port)) log' in
    elim result [
      | some (command_ok rows) ↦ ((if ltb 0 assigned_port then log'' else log'), true)
      | _ ↦ (log', false)
    ]

-- `terminate_device_session`: whether the code is 0.
unfoldable pub terminate_device_session :
    Database → Ends → Str → Log → Registry → Log × Registry × Bool
terminate_device_session db ends session_token log r =
    let (log1, found) = get_session_by_token db session_token log in
    elim found [
      | none ↦ (log1, r, false)
      | some s ↦
          let (stopped, ignored) =
            stop_dynamic_server_for_device ends (some s.device_id) s.assigned_port
              (tunnel_of s.assigned_port) r in
          let (log2, ok) = end_session db session_token s.assigned_port log1 in
          (log2, (if ltb 0 s.assigned_port then stopped else r), ok)
    ]

-- `free_device_port`: whether the code is 0.
unfoldable pub free_device_port : Database → ℕ → Log → Log × Bool
free_device_port db port log =
    let (log', result) = ask db (free_port (print_decimal port)) log in
    (log', elim result [ some (tuples rows) ↦ true | _ ↦ false ])

-- One round of `cleanup_expired_sessions_thread`; the count is only logged.
unfoldable pub cleanup_round : Database → Log → Log
cleanup_round db log = (ask db cleanup_expired_sessions log).0
