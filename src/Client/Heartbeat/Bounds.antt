-- ===== src/Client/Heartbeat/Bounds.antt =====
-- What each round of the thread in client/proxy/client/device_heartbeat.c keeps.
use net_port.Base.{
  ℕ, ◌+◌, ◌≤◌, ◌<◌, ◌≡◌, ◌≢◌, ◌⊎◌, inl, inr, Bool, true, false, ◌||◌, leb, arith, if◌then◌else◌,
  Bool-cases,
}
use mathlib.Core.Path.{subst, sym}
use net_port.Client.Heartbeat.{
  connected, SendResult, answered, terminated, not_sent, Heartbeat, u32,
  device_start_registration_wait, count_failure, after_send, is_late, check_timeout,
  heartbeat_locked, heartbeat_round,
}

-- The status is `connected` only if the last answer, if there was one, is not too old.
abbrev pub Recent : ℕ → Heartbeat → Type 0
Recent now h =
    (h.status ≢ connected)
    ⊎ ((h.last_received ≡ 0) ⊎ (now ≤ h.last_received + h.config.heartbeat_timeout))

not_late-Recent : (now : ℕ) (h : Heartbeat) → is_late now h ≡ false → Recent now h
unfolding is_late
not_late-Recent now h e = ground (arith, e)

check_timeout-Recent : (now : ℕ) (h : Heartbeat) → Recent now (check_timeout now h)
unfolding check_timeout
check_timeout-Recent now h = elim (Bool-cases (is_late now h)) [
  | inl late ↦ rw (late, check_timeout) (inl (λ e. ground (arith, e)))
  | inr in_time ↦ rw (in_time, check_timeout) (not_late-Recent now h in_time)
]

-- A round of a session that is not revoked.
abbrev round_of : Bool → ℕ → SendResult → Heartbeat → Heartbeat
round_of thread_ok now result h =
    if h.tls_sync_pending || leb (h.last_sent + h.config.heartbeat_interval) now
    then after_send thread_ok now result h
    else h

heartbeat_round_live :
    (thread_ok : Bool) (now : ℕ) (result : SendResult) (h : Heartbeat)
    → h.revoked ≡ false
    → heartbeat_round thread_ok now result h ≡ check_timeout now (round_of thread_ok now result h)
unfolding heartbeat_round heartbeat_locked
heartbeat_round_live thread_ok now result h live = ground (arith, live)

-- After a round at `now` of a session that is not revoked, the status is `connected` only if no answer
-- was ever received or the last one is at most `heartbeat_timeout` old.
pub heartbeat_round-Recent :
    (thread_ok : Bool) (now : ℕ) (result : SendResult) (h : Heartbeat)
    → h.revoked ≡ false
    → Recent now (heartbeat_round thread_ok now result h)
unfolding heartbeat_round heartbeat_locked
heartbeat_round-Recent thread_ok now result h live =
    subst (Recent now) (sym (heartbeat_round_live thread_ok now result h live))
      (check_timeout-Recent now _)

count_failure-bound :
    (thread_ok : Bool) (h : Heartbeat)
    → h.revoked ≡ false
    → h.config.max_failures < u32
    → h.fail_count < h.config.max_failures
    → (count_failure thread_ok h).fail_count < (count_failure thread_ok h).config.max_failures
unfolding count_failure device_start_registration_wait
count_failure-bound thread_ok h live small below = ground (arith, live, small, below)

after_send-bound :
    (thread_ok : Bool) (now : ℕ) (result : SendResult) (h : Heartbeat)
    → h.revoked ≡ false
    → h.config.max_failures < u32
    → h.fail_count < h.config.max_failures
    → (after_send thread_ok now result h).fail_count
      < (after_send thread_ok now result h).config.max_failures
unfolding after_send device_start_registration_wait
after_send-bound thread_ok now (answered time) h live small below = ground (arith, below)
after_send-bound thread_ok now terminated h live small below = ground (arith, below)
after_send-bound thread_ok now not_sent h live small below =
    count_failure-bound thread_ok h live small below

-- The failures counted stay below the limit.
abbrev pub Counted : Heartbeat → Type 0
Counted h = h.fail_count < h.config.max_failures

check_timeout-Counted : (now : ℕ) (h : Heartbeat) → Counted h → Counted (check_timeout now h)
unfolding check_timeout
check_timeout-Counted now h below = elim (Bool-cases (is_late now h)) [
  | inl late ↦ rw (late, check_timeout) below
  | inr in_time ↦ rw (in_time, check_timeout) below
]

round_of-Counted :
    (thread_ok : Bool) (now : ℕ) (result : SendResult) (h : Heartbeat)
    → h.revoked ≡ false
    → h.config.max_failures < u32
    → Counted h
    → Counted (round_of thread_ok now result h)
round_of-Counted thread_ok now result h live small below =
    let due = h.tls_sync_pending || leb (h.last_sent + h.config.heartbeat_interval) now in
    elim (Bool-cases due) [
      | inl sent ↦ rw sent (after_send-bound thread_ok now result h live small below)
      | inr early ↦ rw early below
    ]

heartbeat_round_revoked :
    (thread_ok : Bool) (now : ℕ) (result : SendResult) (h : Heartbeat)
    → h.revoked ≡ true
    → heartbeat_round thread_ok now result h ≡ h
unfolding heartbeat_round heartbeat_locked
heartbeat_round_revoked thread_ok now result h gone = ground (arith, gone)

-- Where the number of failures is below `max_failures`, which fits its type, it is so after every
-- round of the thread.
pub heartbeat_round-Counted :
    (thread_ok : Bool) (now : ℕ) (result : SendResult) (h : Heartbeat)
    → h.config.max_failures < u32
    → Counted h
    → Counted (heartbeat_round thread_ok now result h)
heartbeat_round-Counted thread_ok now result h small below = elim (Bool-cases h.revoked) [
  | inl gone ↦ subst Counted (sym (heartbeat_round_revoked thread_ok now result h gone)) below
  | inr live ↦
      subst Counted (sym (heartbeat_round_live thread_ok now result h live))
        (check_timeout-Counted now _ (round_of-Counted thread_ok now result h live small below))
]
