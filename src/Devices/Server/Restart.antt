-- ===== src/Devices/Server/Restart.antt =====
-- A control server of server/proxy/server/device_manager.c that is stopped and started again.
use mathlib.Core.Logic.{◌⊎◌, inl, inr}
use net_port.Proxy.Dynamic.Stop.{descriptor}
use net_port.Base.{
  Bool-cases, if-true, if-false, ℕ, ◌≡◌, refl, sym, ap, ◌∙◌, Bool, true, false, not, List, [], ◌∷◌,
  ◌++◌, Option, none, some, Str, if◌then◌else◌, arith,
}
use mathlib.Core.Path.{subst}
use net_port.Base.Outcome.{done, fault, ◌>>=◌}
use net_port.Security.State.{Security, security_features_cleanup}
use net_port.Security.RateLimit.{
  table_full, find_entry, reserve, append_entry, insert_key, check_rate_limit,
}
use net_port.Devices.Json.{Json}
use net_port.Devices.Register.{Manager}
use net_port.Devices.Server.{
  ControlServer, Conn, Context, listening, on_security, device_manager_init, device_manager_start,
  device_manager_stop, control_server_thread,
}
use net_port.Devices.Server.Laws.{
  answer, answer_all, request_of, object_of, objects, descriptors, served,
  control_server_thread-answer_all,
}

-- Stop, `device_manager_init`, and a start that succeeds.
abbrev pub restarted : Context → Bool → Bool × Str × Str → ℕ → ControlServer → ControlServer
restarted c calloc_ok config fd s =
    (device_manager_start (listening fd) true
      (device_manager_init c calloc_ok config (device_manager_stop s)).0).0

-- What a server that was running is after that: it runs, with the settings that it had, without a context,
-- and with the state of the security features as `security_features_cleanup` leaves it.
record IsBare (s t : ControlServer) : Type 0 where
  running : t.running ≡ true
  enable_ssl : t.enable_ssl ≡ s.enable_ssl
  ssl_ctx : t.ssl_ctx ≡ none
  security : t.manager.control.security ≡ security_features_cleanup s.manager.control.security

-- After `device_manager_stop`.
abbrev pub stopped : ControlServer → ControlServer
stopped s = record s {
  running = false;
  closed = s.closed ++ descriptor s.control_socket;
  control_socket = none;
  freed = s.freed ++ descriptor s.ssl_ctx;
  ssl_ctx = none;
  manager = on_security security_features_cleanup s.manager;
}

pub device_manager_stop-stopped :
    (s : ControlServer) → s.running ≡ true → device_manager_stop s ≡ stopped s
unfolding device_manager_stop
device_manager_stop-stopped s running = if-true s.running (stopped s) s running

pub device_manager_init-again :
    (c : Context) (calloc_ok : Bool) (config : Bool × Str × Str) (s : ControlServer)
    → s.initialized ≡ true
    → device_manager_init c calloc_ok config s ≡ (s, true)
unfolding device_manager_init
device_manager_init-again c calloc_ok config s initialized =
    if-true s.initialized (s, true) _ initialized

-- A server that listens on `fd`.
abbrev pub opened : ℕ → ControlServer → ControlServer
opened fd s = record s { control_socket = some fd; running = true }

pub device_manager_start-listening :
    (fd : ℕ) (s : ControlServer)
    → s.initialized ≡ true
    → s.running ≡ false
    → device_manager_start (listening fd) true s ≡ (opened fd s, true)
unfolding device_manager_start
device_manager_start-listening fd s initialized idle =
    if-false (not s.initialized) (s, false) (if s.running then (s, true) else (opened fd s, true))
      (ground (arith, initialized))
    ∙ if-false s.running (s, true) (opened fd s, true) idle

pub restarted-opened :
    (c : Context) (calloc_ok : Bool) (config : Bool × Str × Str) (fd : ℕ) (s : ControlServer)
    → s.initialized ≡ true
    → s.running ≡ true
    → restarted c calloc_ok config fd s ≡ opened fd (stopped s)
restarted-opened c calloc_ok config fd s initialized running =
    let first : ControlServer × Bool → ControlServer = λ r. r.0 in
    ap
      (λ x. first (
        device_manager_start (listening fd) true
          (first (device_manager_init c calloc_ok config x))))
      (device_manager_stop-stopped s running)
    ∙ ap (λ r. first (device_manager_start (listening fd) true (first r)))
        (device_manager_init-again c calloc_ok config (stopped s) initialized)
    ∙ ap first (device_manager_start-listening fd (stopped s) initialized refl)

restarted-IsBare :
    (c : Context) (calloc_ok : Bool) (config : Bool × Str × Str) (fd : ℕ) (s : ControlServer)
    → s.initialized ≡ true
    → s.running ≡ true
    → IsBare s (restarted c calloc_ok config fd s)
unfolding on_security
restarted-IsBare c calloc_ok config fd s initialized running =
    let whole = restarted-opened c calloc_ok config fd s initialized running in
    subst (IsBare s) (sym whole)
      (record { running = refl; enable_ssl = refl; ssl_ctx = refl; security = refl })

no_answers :
    (json_loads : Str → Option Json) (cs : List (Option Conn)) (m : Manager)
    → answer_all json_loads true none cs m ≡ done m
unfolding answer_all answer request_of
no_answers json_loads [] m = refl
no_answers json_loads (none ∷ cs) m = no_answers json_loads cs m
no_answers json_loads (some c ∷ cs) m = no_answers json_loads cs m

no_objects : (cs : List (Option Conn)) → objects true none cs ≡ []
unfolding objects object_of
no_objects [] = refl
no_objects (none ∷ cs) = no_objects cs
no_objects (some c ∷ cs) = no_objects cs

-- Once the rows are freed, a key has no room: a `realloc` to 0 bytes that gives a pointer is written
-- behind, and otherwise the request passes.
check_rate_limit-cleanup :
    (realloc : ℕ → Bool) (now : ℕ) (key : Str) (s : Security)
    → (check_rate_limit realloc now (some key) (security_features_cleanup s) ≡ fault)
      ⊎ (check_rate_limit realloc now (some key) (security_features_cleanup s)
          ≡ done (security_features_cleanup s, table_full))
unfolding check_rate_limit find_entry insert_key reserve append_entry security_features_cleanup
check_rate_limit-cleanup realloc now key s = elim (Bool-cases (realloc 0)) [
  | inl given ↦ inl (ground (arith, given))
  | inr denied ↦ inr (ground (arith, denied))
]

-- Let a control server with TLS be running. If it is stopped and started again, with `device_manager_init`
-- before the start or without it, it runs, and answers nobody: it closes every connection without
-- reading from it, and no connection changes its state. And its rate limits are off: a check of any
-- key passes because there is no room for it, or writes outside of the table.
pub restarted_answers_nobody :
    (c : Context) (calloc_ok : Bool) (config : Bool × Str × Str) (fd : ℕ) (s : ControlServer)
    (json_loads : Str → Option Json) (cs : List (Option Conn)) (realloc : ℕ → Bool) (now : ℕ)
    (key : Str)
    → s.initialized ≡ true
    → s.running ≡ true
    → s.enable_ssl ≡ true
    → let t = restarted c calloc_ok config fd s in
      (t.running ≡ true)
      × (control_server_thread json_loads cs t ≡ done (served (descriptors cs) [] t.manager t))
      × ((check_rate_limit realloc now (some key) t.manager.control.security ≡ fault)
          ⊎ (check_rate_limit realloc now (some key) t.manager.control.security
              ≡ done (t.manager.control.security, table_full)))
restarted_answers_nobody c calloc_ok config fd s json_loads cs realloc now key initialized running
      tls =
    let t = restarted c calloc_ok config fd s in
    let bare = restarted-IsBare c calloc_ok config fd s initialized running in
    let limits : Security → Type 0 = λ x.
      (check_rate_limit realloc now (some key) x ≡ fault)
      ⊎ (check_rate_limit realloc now (some key) x ≡ done (x, table_full)) in
    let answers : Bool → Option ℕ → Type 0 = λ ssl ctx.
      (answer_all json_loads ssl ctx cs t.manager >>= λ m.
      done (served (descriptors cs) (objects ssl ctx cs) m t))
      ≡ done (served (descriptors cs) [] t.manager t) in
    let none_answered : answers true none =
      ap (λ o. o >>= λ m. done (served (descriptors cs) (objects true none cs) m t))
        (no_answers json_loads cs t.manager)
      ∙ ap (λ xs. done (served (descriptors cs) xs t.manager t)) (no_objects cs) in
    (
      bare.running,
      control_server_thread-answer_all json_loads cs t
          ∙ subst (λ b. answers b t.ssl_ctx) (sym (bare.enable_ssl ∙ tls))
              (subst (answers true) (sym bare.ssl_ctx) none_answered),
      subst limits (sym bare.security)
          (check_rate_limit-cleanup realloc now key s.manager.control.security),
    )
