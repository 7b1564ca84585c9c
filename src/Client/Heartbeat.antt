-- ===== src/Client/Heartbeat.antt =====
-- The heartbeat thread of client/proxy/client/device_heartbeat.c with the registration wait of
-- client/proxy/client/proxy_client_device_integration.c. Time is an argument.
use net_port.Base.{ℕ, ◌+◌, ◌%◌, ◌^◌, Bool, true, false, not, ◌&&◌, ◌||◌, ltb, leb, if◌then◌else◌}
pub mod Bounds
pub mod Revoked

-- `heartbeat_status_t`, less the value that is never set.
pub data Status : Type 0 where
  disconnected connected timed_out : Status

-- `heartbeat_config_t`, the numbers of it.
pub record HeartbeatConfig : Type 0 where
  pub heartbeat_interval : ℕ
  pub heartbeat_timeout : ℕ
  pub max_failures : ℕ

-- `g_heartbeat_manager` and the flags `g_tls_sync_pending`, `g_device_session_revoked` and
-- `g_registration_wait_running`.
pub record Heartbeat : Type 0 where
  pub config : HeartbeatConfig
  pub status : Status
  pub last_sent : ℕ
  pub last_received : ℕ
  pub fail_count : ℕ
  pub reconnect_attempts : ℕ
  pub tls_sync_pending : Bool
  pub revoked : Bool
  pub wait_running : Bool

-- How `send_heartbeat` ends: with an answer received at a time, with the session ended by the server,
-- or without success.
pub data SendResult : Type 0 where
  answered : ℕ → SendResult
  terminated not_sent : SendResult

-- `heartbeat_manager_init`.
unfoldable pub heartbeat_manager_init : HeartbeatConfig → Heartbeat → Heartbeat
heartbeat_manager_init config h = record h {
  config = config;
  status = disconnected;
  last_sent = 0;
  last_received = 0;
  fail_count = 0;
  reconnect_attempts = 0;
}

-- `heartbeat_request_tls_sync`.
unfoldable pub heartbeat_request_tls_sync : Heartbeat → Heartbeat
heartbeat_request_tls_sync h = record h { tls_sync_pending = true }

-- `device_start_registration_wait`; `thread_ok` says whether the thread could be created.
unfoldable pub device_start_registration_wait : Bool → Heartbeat → Heartbeat
device_start_registration_wait thread_ok h =
    if h.wait_running then h else record h { wait_running = thread_ok; revoked = true }

-- `registration_wait_thread` when the registration is allowed: the flag is cleared, before the settings
-- are applied.
unfoldable pub registration_allowed : Heartbeat → Heartbeat
registration_allowed h = record h { revoked = false }

-- Its end: the settings of an allowed registration could not be applied, or all else.
unfoldable pub registration_wait_ends : Bool → Heartbeat → Heartbeat
registration_wait_ends rejected h =
    if rejected
    then record h { wait_running = false; revoked = true }
    else record h { wait_running = false }

-- `fail_count` is a `uint32_t`.
abbrev pub u32 : ℕ
u32 = 2 ^ 32

-- The failure branch of the thread.
unfoldable pub count_failure : Bool → Heartbeat → Heartbeat
count_failure thread_ok h =
    let failures = (h.fail_count + 1) % u32 in
    let failed : Heartbeat = record h { fail_count = failures; status = disconnected } in
    if not h.revoked && leb h.config.max_failures failures
    then record (device_start_registration_wait thread_ok failed) { fail_count = 0 }
    else failed

-- What the thread does with the end of `send_heartbeat`.
unfoldable pub after_send : Bool → ℕ → SendResult → Heartbeat → Heartbeat
after_send thread_ok now (answered time) h = record h {
  last_received = time;
  last_sent = now;
  fail_count = 0;
  status = connected;
  tls_sync_pending = false;
  reconnect_attempts = 0;
}
after_send thread_ok now terminated h = record (device_start_registration_wait thread_ok h) {
  status = disconnected;
}
after_send thread_ok now not_sent h = count_failure thread_ok h

-- The status is `connected` and the last answer is too old.
unfoldable pub is_late : ℕ → Heartbeat → Bool
is_late now h = elim h.status [
  | connected ↦ ltb 0 h.last_received && ltb (h.last_received + h.config.heartbeat_timeout) now
  | disconnected ↦ false
  | timed_out ↦ false
]

unfoldable pub check_timeout : ℕ → Heartbeat → Heartbeat
check_timeout now h = if is_late now h then record h { status = timed_out } else h

-- The part of a round of `heartbeat_thread_func` that holds `g_heartbeat_mutex`.
unfoldable pub heartbeat_locked : Bool → ℕ → SendResult → Heartbeat → Heartbeat
heartbeat_locked thread_ok now result h =
    let due = h.tls_sync_pending || leb (h.last_sent + h.config.heartbeat_interval) now in
    let sent = after_send thread_ok now result h in check_timeout now (if due then sent else h)

-- A round in which no other thread changes the flag between its test and the lock.
unfoldable pub heartbeat_round : Bool → ℕ → SendResult → Heartbeat → Heartbeat
heartbeat_round thread_ok now result h =
    let locked = heartbeat_locked thread_ok now result h in if h.revoked then h else locked
