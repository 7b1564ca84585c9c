-- ===== src/Client/Tunnel/Laws.antt =====
-- What starting and stopping keep true of the connections of client/proxy/client/proxy_client.c.
use net_port.Base.{
  ℕ, ◌≤◌, ◌≡◌, ◌⊎◌, inl, inr, Bool, true, false, not, ◌||◌, List, [], ◌∷◌, Option, none, some, All,
  arith, Bool-cases, Option-cases, refl, length,
}
use net_port.Proxy.Dynamic.State.{named}
use net_port.Client.Device.{refresh_client_ssl_context}
use net_port.Client.Tunnel.{
  Connection, InputStart, no_thread, runs, server_input_start, stop_for_restart, Restart,
  restart_connection, restart_all, OutputStart, no_output_thread, no_socket, no_connection,
  stopped_early, tls_failed, output_runs, output_thread_starts, server_output_start, Client,
  ensure_client_ssl_context,
}

-- No connection has two input threads.
abbrev pub Single : Connection → Type 0
Single c = c.threads ≤ 1

-- The threads that run end within the wait.
abbrev pub Prompt : Restart → Type 0
Prompt r = r.in_time ≡ true

restart_connection-Single :
    (r : Restart) (c : Connection) → Prompt r → Single (restart_connection r c)
unfolding restart_connection server_input_start stop_for_restart
restart_connection-Single r c prompt = elim (start-cases r.start) [
  | inl none_started ↦ ground (arith, prompt, none_started)
  | inr started ↦ ground (arith, prompt, started)
]
  where
    start-cases : (s : InputStart) → (s ≡ no_thread) ⊎ (s ≡ runs)
    start-cases no_thread = inl refl
    start-cases runs = inr refl

-- After a restart no connection has two input threads, if every thread that ran ended within the ten
-- seconds that it was given.
pub restart_all-Single :
    (rs : List Restart) (cs : List Connection)
    → length rs ≡ length cs
    → All Prompt rs
    → All Single (restart_all rs cs)
unfolding restart_all
restart_all-Single rs [] same prompt = tt
restart_all-Single [] (c ∷ cs) same prompt = absurd (omega (arith, same))
restart_all-Single (r ∷ rs) (c ∷ cs) same prompt = (
  restart_connection-Single r c prompt.0,
  restart_all-Single rs cs (omega (arith, same)) prompt.1,
)

-- The ways to fail in which the output thread leaves its flag set.
unfoldable pub forgets : OutputStart → Bool
forgets (no_socket fd) = true
forgets no_connection = true
forgets (tls_failed stop_seen) = not stop_seen
forgets _ = false

abbrev asked : Connection → Connection
asked c = record c { is_starting_output = true; stop_running_output = false }

idle_start :
    (result : OutputStart) (c : Connection)
    → c.is_running_output ≡ false
    → c.is_starting_output ≡ false
    → server_output_start result c ≡ (
      record (output_thread_starts result (asked c)) { is_starting_output = false },
      (output_thread_starts result (asked c)).is_starting_output,
    )
unfolding server_output_start
idle_start result c idle unasked = ground (arith, idle, unasked)

-- `server_output_start` never leaves a start pending. On a connection without an output it waits out
-- its limit of 5 seconds exactly if the thread fails at the socket, the connection or the handshake
-- without seeing a stop, and the output runs exactly if the thread does.
pub server_output_start-ends :
    (result : OutputStart) (c : Connection)
    → c.is_running_output ≡ false
    → c.is_starting_output ≡ false
    → ((server_output_start result c).0.is_starting_output ≡ false)
      × ((server_output_start result c).1 ≡ forgets result)
      × (((server_output_start result c).0.is_running_output ≡ false)
          ⊎ ((fd : ℕ) × (result ≡ output_runs fd)
              × ((server_output_start result c).0.output ≡ some fd)))
unfolding output_thread_starts forgets
server_output_start-ends no_output_thread c idle unasked =
    rw (idle_start no_output_thread c idle unasked) (refl, refl, inl idle)
server_output_start-ends (no_socket fd) c idle unasked =
    rw (idle_start (no_socket fd) c idle unasked) (refl, refl, inl refl)
server_output_start-ends no_connection c idle unasked =
    rw (idle_start no_connection c idle unasked) (refl, refl, inl refl)
server_output_start-ends stopped_early c idle unasked =
    rw (idle_start stopped_early c idle unasked) (refl, refl, inl refl)
server_output_start-ends (tls_failed true) c idle unasked =
    rw (idle_start (tls_failed true) c idle unasked) (refl, refl, inl refl)
server_output_start-ends (tls_failed false) c idle unasked =
    rw (idle_start (tls_failed false) c idle unasked) (refl, refl, inl idle)
server_output_start-ends (output_runs fd) c idle unasked =
    rw (idle_start (output_runs fd) c idle unasked) (refl, refl, inr (fd, refl, refl))

-- TLS is wanted on the tunnel or on the target's side.
abbrev pub wants_tls : Client → Bool
wants_tls t = t.settings.enable_ssl || t.enable_output_ssl

abbrev pub has_ctx : Client → Bool
has_ctx t = elim t.ssl_ctx [ none ↦ false | some ctx ↦ true ]

-- After `ensure_client_ssl_context` there is a context exactly if TLS is on; where it fails, TLS is off
-- on both sides.
pub ensure_client_ssl_context-agrees :
    (made : Option ℕ) (t : Client)
    → (has_ctx (ensure_client_ssl_context made t).0
        ≡ wants_tls (ensure_client_ssl_context made t).0)
      × (((ensure_client_ssl_context made t).1 ≡ true)
          ⊎ (wants_tls (ensure_client_ssl_context made t).0 ≡ false))
unfolding ensure_client_ssl_context
ensure_client_ssl_context-agrees made t = elim (Bool-cases (wants_tls t)) [
  | inr unwanted ↦ (ground (arith, unwanted), inl (ground (arith, unwanted)))
  | inl wanted ↦ elim (Option-cases t.ssl_ctx) [
    | inr (ctx, there) ↦ (ground (arith, wanted, there), inl (ground (arith, wanted, there)))
    | inl missing ↦ elim (Bool-cases (named t.settings.ca_file)) [
      | inr no_ca ↦
          (ground (arith, wanted, missing, no_ca), inr (ground (arith, wanted, missing, no_ca)))
      | inl given ↦ elim (Option-cases made) [
        | inl unmade ↦ (
          ground (arith, wanted, missing, given, unmade),
          inr (ground (arith, wanted, missing, given, unmade)),
        )
        | inr (ctx, fresh) ↦ (
          ground (arith, wanted, missing, given, fresh),
          inl (ground (arith, wanted, missing, given, fresh)),
        )
      ]
    ]
  ]
]

abbrev is_made : Option ℕ → Bool
is_made none = false
is_made (some ctx) = true

-- Where the tunnel wants TLS, `refresh_client_ssl_context` on the settings alone does what
-- `ensure_client_ssl_context` does to them.
refresh_client_ssl_context-ensure_client_ssl_context :
    (made : Option ℕ) (t : Client)
    → t.settings.enable_ssl ≡ true
    → refresh_client_ssl_context
        (record { is_set = has_ctx t; can_be_made = is_made made })
        t.settings
      ≡ (ensure_client_ssl_context made t).0.settings
unfolding ensure_client_ssl_context refresh_client_ssl_context
refresh_client_ssl_context-ensure_client_ssl_context made t wanted = elim (Option-cases t.ssl_ctx) [
  | inr (ctx, there) ↦ ground (arith, wanted, there)
  | inl missing ↦ elim (Bool-cases (named t.settings.ca_file)) [
    | inr no_ca ↦ ground (arith, wanted, missing, no_ca)
    | inl given ↦ elim (Option-cases made) [
      | inl unmade ↦ ground (arith, wanted, missing, given, unmade)
      | inr (ctx, fresh) ↦ ground (arith, wanted, missing, given, fresh)
    ]
  ]
]
