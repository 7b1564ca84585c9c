-- ===== src/Client/Pump.antt =====
-- The write loops of `server_input_thread` and `server_output_thread` in
-- client/proxy/client/proxy_client.c, and the counters that they keep.
use net_port.Base.{
  ℕ, ◌+◌, ◌-◌, ◌%◌, ◌^◌, Bool, true, false, List, [], ◌∷◌, ◌++◌, Str, length, take, drop, ltb, ◌==◌,
  if◌then◌else◌,
}
use net_port.Proxy.Forward.{End, success, broken, unfinished, Sent}
use net_port.Client.Exchange.{Counters}
pub mod Laws

-- What one write returns. `wrote n`: `send` or `SSL_write` returns `n`. `want`: TLS wants to be called
-- again. `closed`: TLS is closed or in error. `would_block failed`: -1 with EAGAIN, and whether the
-- `select` after it fails. `failed`: -1 with another error.
pub data Write : Type 0 where
  wrote : ℕ → Write
  want closed failed : Write
  would_block : Bool → Write

abbrev pub stop_here : Str → Sent
stop_here chunk = record { written = chunk; end = broken }

-- The loop from `sent` bytes on; beside each write stands `is_running_output`, or `is_running_input`,
-- as the round's end tests it.
unfoldable pub pump : Str → ℕ → ℕ → List (Write × Bool) → Sent
pump buf sent remaining [] = record { written = []; end = unfinished }
pump buf sent remaining ((wrote n, running) ∷ rounds) =
    let rest = pump buf (sent + n) (remaining - n) rounds in
    let chunk = take n (drop sent buf) in
    if ltb n remaining
    then (if running
        then record { written = chunk ++ rest.written; end = rest.end }
        else stop_here chunk)
    else record { written = chunk; end = success }
pump buf sent remaining ((want, running) ∷ rounds) =
    let rest = pump buf sent remaining rounds in if running then rest else stop_here []
pump buf sent remaining ((closed, running) ∷ rounds) = stop_here []
pump buf sent remaining ((failed, running) ∷ rounds) = stop_here []
pump buf sent remaining ((would_block select_failed, running) ∷ rounds) =
    let rest = pump buf sent remaining rounds in
    if select_failed then stop_here [] else if running then rest else stop_here []

-- `uint64_t` wraps here.
abbrev pub u64 : ℕ
u64 = 2 ^ 64

-- `client_traffic_add_sent` and `client_traffic_add_received`.
unfoldable pub client_traffic_add_sent : ℕ → Counters → Counters
client_traffic_add_sent bytes k = record k { bytes_sent = (k.bytes_sent + bytes) % u64 }

unfoldable pub client_traffic_add_received : ℕ → Counters → Counters
client_traffic_add_received bytes k = record k { bytes_received = (k.bytes_received + bytes) % u64 }

-- `client_traffic_reset_since_last`.
unfoldable pub client_traffic_reset_since_last : Counters → Counters
client_traffic_reset_since_last k = record k { bytes_sent = 0; bytes_received = 0 }

-- A chunk from the server to the device's target: what is written, and the counters.
unfoldable pub to_target : Str → List (Write × Bool) → Counters → Sent × Counters
to_target buf rounds k =
    let sent = pump buf 0 (length buf) rounds in
    (
      sent,
      elim sent.end [
        | success ↦ client_traffic_add_received (length buf) k
        | broken ↦ k
        | unfinished ↦ k
      ],
    )

-- A chunk from the target to the server.
unfoldable pub to_server : Str → List (Write × Bool) → Counters → Sent × Counters
to_server buf rounds k =
    let sent = pump buf 0 (length buf) rounds in
    (
      sent,
      elim sent.end [
        | success ↦ client_traffic_add_sent (length buf) k
        | broken ↦ k
        | unfinished ↦ k
      ],
    )

-- The chunks that a thread receives in turn: whatever became of one, the thread goes on with the next.
unfoldable pub to_target_all : List (Str × List (Write × Bool)) → Counters → Str × Counters
to_target_all [] k = ([], k)
to_target_all ((buf, rounds) ∷ chunks) k =
    let (sent, k1) = to_target buf rounds k in
    let (written, k2) = to_target_all chunks k1 in (sent.written ++ written, k2)
