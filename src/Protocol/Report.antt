-- ===== src/Protocol/Report.antt =====
-- A heartbeat's numbers from `send_heartbeat` of client/proxy/client/device_heartbeat.c to
-- `process_heartbeat_request` of server/proxy/server/device_manager.c.
use net_port.Base.{ℕ, ◌%◌, ◌≡◌, refl, true, some, Str, codes, str_eq}
use net_port.Devices.Json.{find_member, json_object_get, string_at}
use net_port.Devices.Session.{u32}
use net_port.Devices.Traffic.{both_counts, read_part, read_traffic}
use net_port.Client.Exchange.{Counters, heartbeat_request}

-- The server reads the session's token from the client's heartbeat, the byte counts that the client read
-- first, for `statistics`, whatever it read for `traffic` later, and the number of connections that it
-- read last, cut to 32 bits.
pub read_traffic-heartbeat_request :
    (session_token percent : Str) (uptime : ℕ) (k later : Counters)
    → (string_at (codes "session_token") (heartbeat_request session_token percent uptime k later)
        ≡ some session_token)
      × (read_traffic (heartbeat_request session_token percent uptime k later) ≡ (
        record {
          bytes_sent = k.bytes_sent;
          bytes_received = k.bytes_received;
          connections = later.active_connections % u32;
        },
        true,
      ))
unfolding read_traffic read_part both_counts heartbeat_request json_object_get find_member str_eq
read_traffic-heartbeat_request session_token percent uptime k later = (refl, refl)
