-- ===== src/Client/Heartbeat/Revoked.antt =====
-- Whether a client whose session was revoked comes back: the heartbeat thread and the registration
-- wait of client/proxy/client, in any order.
use net_port.Base.{ℕ, ◌≡◌, Bool, true, false, arith}
use net_port.Client.Heartbeat.{
  SendResult, Heartbeat, heartbeat_request_tls_sync, device_start_registration_wait,
  registration_allowed, registration_wait_ends, heartbeat_round,
}

-- A round of the heartbeat thread, a request for a TLS update, or what the thread of the registration wait
-- does, if it runs.
pub data Event (h : Heartbeat) (g : Heartbeat) : Type 0 where
  round :
      (thread_ok : Bool) (now : ℕ) (result : SendResult)
      → g ≡ heartbeat_round thread_ok now result h
      → Event h g
  tls_sync : g ≡ heartbeat_request_tls_sync h → Event h g
  wait_allowed : h.wait_running ≡ true → g ≡ registration_allowed h → Event h g
  wait_ends :
      (rejected : Bool) → h.wait_running ≡ true → g ≡ registration_wait_ends rejected h → Event h g

pub data Run (h : Heartbeat) : Heartbeat → Type 0 where
  done : Run h h
  more : {g k : Heartbeat} → Run h g → Event g k → Run h k

-- The session is revoked, nobody waits for a new one, and the last heartbeat was sent at `t`.
pub record Stuck (t : ℕ) (h : Heartbeat) : Type 0 where
  pub revoked : h.revoked ≡ true
  pub idle : h.wait_running ≡ false
  pub last : h.last_sent ≡ t

Event-Stuck : (t : ℕ) {h g : Heartbeat} → Stuck t h → Event h g → Stuck t g
unfolding heartbeat_round heartbeat_request_tls_sync
Event-Stuck t {h} {g} s (round thread_ok now result e) = record {
  revoked = ground (arith, e, s.revoked);
  idle = ground (arith, e, s.revoked, s.idle);
  last = ground (arith, e, s.revoked, s.last);
}
Event-Stuck t s (tls_sync e) = record {
  revoked = ground (arith, e, s.revoked);
  idle = ground (arith, e, s.idle);
  last = ground (arith, e, s.last);
}
Event-Stuck t s (wait_allowed runs e) = absurd (ground (arith, runs, s.idle))
Event-Stuck t s (wait_ends rejected runs e) = absurd (ground (arith, runs, s.idle))

Run-Stuck : (t : ℕ) {h g : Heartbeat} → Stuck t h → Run h g → Stuck t g
Run-Stuck t s done = s
Run-Stuck t s (more r e) = Event-Stuck t (Run-Stuck t s r) e

-- If no registration wait runs, and the heartbeat thread starts one for which no thread can be created,
-- the session stays revoked with nobody waiting for a new one, and no heartbeat is sent again, whatever
-- rounds of that thread, TLS requests and steps of a wait follow.
pub failed_wait_is_final :
    (h : Heartbeat) {g : Heartbeat}
    → h.wait_running ≡ false
    → Run (device_start_registration_wait false h) g
    → Stuck h.last_sent g
unfolding device_start_registration_wait
failed_wait_is_final h idle r =
    Run-Stuck h.last_sent
      (record {
        revoked = ground (arith, idle);
        idle = ground (arith, idle);
        last = ground (arith, idle);
      })
      r
