-- ===== src/Protocol/Answers.antt =====
-- A heartbeat's answer from `process_heartbeat_request` of server/proxy/server/device_manager.c to
-- `send_heartbeat` of client/proxy/client/device_heartbeat.c.
use net_port.Base.{ℕ, ◌≡◌, refl, Bool, true, false, ◌||◌, none, some, str_eq, ◌⊎◌, arith}
use net_port.Security.Json.{starts_with, contains}
use net_port.Devices.Json.{find_member, json_object_get}
use net_port.Devices.Response.{
  Problem, invalid_payload, invalid_json, missing_action, unknown_action, missing_credentials,
  rate_limited, not_authenticated, no_session, no_proxy, missing_token, session_terminated,
  invalid_token, unauthorized, missing_device, reload_failed, TlsSettings, error, alive, message,
  force_member, tls_members, members, to_json,
}
use net_port.Proxy.Dynamic.State.{named}
use net_port.Client.Device.{Device, Options, SslContext, Settings, device_apply_tls_settings_update}
use net_port.Client.Device.Laws.{Matches, Synced, apply_tls_settings-Synced}
use net_port.Client.Heartbeat.{SendResult, answered, terminated, not_sent}
use net_port.Client.Exchange.{read_tls, says_terminated, read_heartbeat, apply_answer}

-- Whether a problem ends the session for the client.
abbrev pub ends_session : Problem → Bool
ends_session session_terminated = true
ends_session invalid_token = true
ends_session _ = false

abbrev pub result_of : Bool → SendResult
result_of true = terminated
result_of false = not_sent

-- The client takes a session for terminated exactly if the server's error is that the session was
-- terminated or that its token is not valid; every other error is a heartbeat that failed.
pub read_heartbeat-error :
    (now : ℕ) (p : Problem)
    → read_heartbeat now (to_json (error p)) ≡ (result_of (ends_session p), none)
unfolding read_heartbeat says_terminated contains starts_with members message force_member
    json_object_get find_member str_eq
read_heartbeat-error now invalid_payload = refl
read_heartbeat-error now invalid_json = refl
read_heartbeat-error now missing_action = refl
read_heartbeat-error now unknown_action = refl
read_heartbeat-error now missing_credentials = refl
read_heartbeat-error now rate_limited = refl
read_heartbeat-error now not_authenticated = refl
read_heartbeat-error now no_session = refl
read_heartbeat-error now no_proxy = refl
read_heartbeat-error now missing_token = refl
read_heartbeat-error now session_terminated = refl
read_heartbeat-error now invalid_token = refl
read_heartbeat-error now unauthorized = refl
read_heartbeat-error now missing_device = refl
read_heartbeat-error now reload_failed = refl

alive_read :
    (now time : ℕ) (input_tls tunnel_tls reload_tls : Bool)
    → read_heartbeat now (
        to_json (
          alive
            (some
              (record { input_tls = input_tls; tunnel_tls = tunnel_tls; reload_tls = reload_tls }))
            time))
      ≡ (answered now, some (input_tls, tunnel_tls, reload_tls))
unfolding read_heartbeat read_tls members tls_members json_object_get find_member str_eq
alive_read now time input_tls tunnel_tls true = refl
alive_read now time input_tls tunnel_tls false = refl

read_heartbeat-alive :
    (now time : ℕ) (t : TlsSettings)
    → read_heartbeat now (to_json (alive (some t) time))
      ≡ (answered now, some (t.input_tls, t.tunnel_tls, t.reload_tls))
read_heartbeat-alive now time t = alive_read now time t.input_tls t.tunnel_tls t.reload_tls

-- With a CA file and a TLS context that is there or can be made, a client whose tunnel uses TLS exactly
-- if the server says so has the flags of the server after it read the server's answer to its heartbeat, still uses TLS exactly so, and restarts
-- its tunnel where the answer asks for a reload.
pub apply_answer-Synced :
    (o : Options) (c : SslContext) (now time : ℕ) (t : TlsSettings) (d : Device) (s : Settings)
    → named o.ca_file ≡ true
    → (c.is_set || c.can_be_made) ≡ true
    → Matches d s
    → Synced t.input_tls t.tunnel_tls
        (apply_answer o c now (to_json (alive (some t) time)) d s).0
        (apply_answer o c now (to_json (alive (some t) time)) d s).1
      × ((t.reload_tls ≡ false)
          ⊎ ((apply_answer o c now (to_json (alive (some t) time)) d s).2 ≡ true))
unfolding apply_answer device_apply_tls_settings_update
apply_answer-Synced o c now time t d s given able before =
    rw (read_heartbeat-alive now time t, apply_answer)
      (
        apply_tls_settings-Synced o c t.input_tls t.tunnel_tls t.reload_tls d s given able before,
        ground arith,
      )
