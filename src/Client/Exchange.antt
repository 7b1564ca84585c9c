-- ===== src/Client/Exchange.antt =====
-- The heartbeat that client/proxy/client/device_heartbeat.c sends, and what it reads of the answer.
use net_port.Base.{ℕ, Bool, false, ◌||◌, Option, none, some, Str, codes, str_eq, if◌then◌else◌}
use net_port.Security.Json.{contains}
use net_port.Devices.Json.{
  Json, boolean, integer, real, string, object, end_of, member, json_object_get, string_at,
  json_is_true,
}
use net_port.Client.Device.{Device, Options, SslContext, Settings, device_apply_tls_settings_update}
use net_port.Client.Heartbeat.{SendResult, answered, terminated, not_sent}

-- `g_client_traffic` of client/proxy/client/proxy_client.c, since the last heartbeat.
pub record Counters : Type 0 where
  pub bytes_sent : ℕ
  pub bytes_received : ℕ
  pub active_connections : ℕ

-- The request of `send_heartbeat`. `percent` is the text of the two rates, `uptime` the time. The counters
-- go on while the request is made: `k` are the three numbers that are read for `statistics`, one after
-- the other, and `later` those that are read for `traffic`.
unfoldable pub heartbeat_request : Str → Str → ℕ → Counters → Counters → Json
heartbeat_request session_token percent uptime k later = object (
    member (codes "action") (string (codes "heartbeat")) (
      member (codes "session_token") (string session_token) (
        member (codes "status") (string (codes "healthy")) (
          member (codes "statistics")
            (object (
              member (codes "connections") (integer k.active_connections) (
                member (codes "bytes_sent") (integer k.bytes_sent) (
                  member (codes "bytes_received") (integer k.bytes_received) (
                    member (codes "cpu_usage") (real percent) (
                      member (codes "memory_usage") (real percent)
                        (member (codes "uptime") (integer uptime) end_of)))))))
            (member (codes "traffic")
              (object (
                member (codes "bytes_sent") (integer later.bytes_sent) (
                  member (codes "bytes_received") (integer later.bytes_received) (
                    member (codes "active_connections") (integer later.active_connections)
                      end_of))))
              end_of)))))

-- `json_is_boolean`.
abbrev pub as_boolean : Option Json → Option Bool
as_boolean (some (boolean b)) = some b
as_boolean _ = none

-- The two flags of an answer, and whether it asks for a reload, if both flags are there.
unfoldable pub read_tls : Json → Option (Bool × Bool × Bool)
read_tls response = elim (as_boolean (json_object_get (codes "input_tls") response)) [
  | none ↦ none
  | some input_tls ↦ elim (as_boolean (json_object_get (codes "tunnel_tls") response)) [
    | none ↦ none
    | some tunnel_tls ↦
        some (input_tls, tunnel_tls, json_is_true (json_object_get (codes "reload_tls") response))
  ]
]

-- The session is over: the answer forces it or its message says so.
unfoldable pub says_terminated : Str → Json → Bool
says_terminated status response =
    let message : Str = elim (string_at (codes "message") response) [
      | none ↦ status
      | some text ↦ text
    ] in
    json_is_true (json_object_get (codes "force_disconnect") response)
    || contains (codes "Session terminated") message
    || contains (codes "Invalid session") message

-- What `send_heartbeat` makes of an answer at a time: its result, and the TLS flags that it applies.
unfoldable pub read_heartbeat : ℕ → Json → SendResult × Option (Bool × Bool × Bool)
read_heartbeat now response = elim (string_at (codes "status") response) [
  | none ↦ (not_sent, none)
  | some status ↦
      if str_eq status (codes "ok")
      then (answered now, read_tls response)
      else ((if says_terminated status response then terminated else not_sent), none)
]

-- The TLS flags of an answer, applied as `send_heartbeat` does: the state, the settings, and whether
-- the tunnel is restarted.
unfoldable pub apply_answer :
    Options → SslContext → ℕ → Json → Device → Settings → Device × Settings × Bool
apply_answer o c now response d s = elim (read_heartbeat now response).1 [
  | none ↦ (d, s, false)
  | some (input_tls, tunnel_tls, force_reload) ↦
      device_apply_tls_settings_update o c input_tls tunnel_tls force_reload d s
]
