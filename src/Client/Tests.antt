-- ===== src/Client/Tests.antt =====
-- Runs of the definitions for client/proxy/client, and concrete cases of the theorems.
use net_port.Base.{◌≡◌, refl, true, false}
use net_port.Client.Heartbeat.{
  connected, disconnected, HeartbeatConfig, Heartbeat, answered, not_sent, heartbeat_locked,
  device_start_registration_wait, count_failure, after_send, is_late, check_timeout,
  heartbeat_round,
}
use net_port.Client.Heartbeat.Revoked.{round, done, more, Stuck, failed_wait_is_final}

-- The numbers that the client sets.
abbrev usual : HeartbeatConfig
usual = record { heartbeat_interval = 30; heartbeat_timeout = 90; max_failures = 3 }

abbrev alive : Heartbeat
alive = record {
  config = usual;
  status = connected;
  last_sent = 1000;
  last_received = 1001;
  fail_count = 2;
  reconnect_attempts = 0;
  tls_sync_pending = false;
  revoked = false;
  wait_running = false;
}

-- The third failure in a row starts the registration wait.
third_failure :
    heartbeat_round true 1030 not_sent alive
    ≡ record alive { status = disconnected; fail_count = 0; revoked = true; wait_running = true }
unfolding heartbeat_round heartbeat_locked after_send count_failure device_start_registration_wait
    check_timeout is_late
third_failure = refl

early_round : heartbeat_round true 1029 not_sent alive ≡ alive
unfolding heartbeat_round heartbeat_locked check_timeout is_late
early_round = refl

abbrev lost : Heartbeat
lost = device_start_registration_wait false alive

abbrev lost_later : Heartbeat
lost_later = heartbeat_round true 2000 (answered 2000) lost

failed_wait_is_final_example : Stuck 1000 lost_later
failed_wait_is_final_example =
    failed_wait_is_final alive refl (more done (round true 2000 (answered 2000) refl))
