-- ===== src/Switcher/Start/Laws.antt =====
-- What holds of the servers after they have been set up and started.
use net_port.Base.{
  if-true, if-false, ℕ, ◌≡◌, refl, sym, ap, ◌∙◌, inl, inr, true, false, ◌||◌, Option, some, Str,
  arith, Bool-cases, Option-cases,
}
use net_port.Proxy.Dynamic.State.{Server, Runtime}
use net_port.Proxy.Dynamic.Open.{
  Env, opened_fd, opened_ok, server_input_init, server_output_init, init_ssl_context,
}
use net_port.Switcher.Start.{running, path, open_sockets, init_server, start_server}

-- Both sides after `open_sockets`.
record IsOpened (env : Env) (s : Server) : Type 0 where
  input : s.input ≡ opened_fd env.input_opened
  input_enabled : s.is_input_enabled ≡ opened_ok env.input_opened
  input_idle : s.is_input_running ≡ false
  output : s.output ≡ opened_fd env.output_opened
  output_enabled : s.is_output_enabled ≡ opened_ok env.output_opened
  output_idle : s.is_output_running ≡ false

open_sockets-IsOpened : (env : Env) (s : Server) → IsOpened env (open_sockets env s)
unfolding open_sockets server_input_init server_output_init
open_sockets-IsOpened env s = record {
  input = refl;
  input_enabled = refl;
  input_idle = refl;
  output = refl;
  output_enabled = refl;
  output_idle = refl;
}

-- A server that is served as its row says: it is enabled, it has a side whose thread runs exactly where
-- the descriptor of this side listens, and if TLS is on for a side there is a context.
pub record Serves (env : Env) (s : Server) : Type 0 where
  pub enabled : s.enable ≡ true
  pub input_runs : s.is_input_running ≡ opened_ok env.input_opened
  pub input_fd : s.input ≡ opened_fd env.input_opened
  pub output_runs : s.is_output_running ≡ opened_ok env.output_opened
  pub output_fd : s.output ≡ opened_fd env.output_opened
  pub tls :
      (s.enable_input_ssl || s.enable_output_ssl) ≡ true
      → (ctx : ℕ) × (env.new_ctx ≡ some ctx) × (s.ssl_ctx ≡ some ctx)

start_server-sides :
    (env : Env) (s : Server) (rt : Runtime)
    → start_server env s ≡ running rt
    → s.is_input_running ≡ false
    → s.is_output_running ≡ false
    → (rt.server.input ≡ s.input)
      × (rt.server.output ≡ s.output)
      × (rt.server.is_input_running ≡ s.is_input_enabled)
      × (rt.server.is_output_running ≡ s.is_output_enabled)
      × (rt.server.enable ≡ true)
      × (rt.server.ssl_ctx ≡ s.ssl_ctx)
      × (rt.server.enable_input_ssl ≡ s.enable_input_ssl)
      × (rt.server.enable_output_ssl ≡ s.enable_output_ssl)
unfolding start_server
start_server-sides env s rt started input_idle output_idle =
    ground (arith, started, input_idle, output_idle)

init_ssl_context-tls :
    (env : Env) (s : Server)
    → ((init_ssl_context env s).enable_input_ssl || (init_ssl_context env s).enable_output_ssl)
      ≡ true
    → (ctx : ℕ) × (env.new_ctx ≡ some ctx) × ((init_ssl_context env s).ssl_ctx ≡ some ctx)
unfolding init_ssl_context
init_ssl_context-tls env s wanted = elim (Option-cases env.new_ctx) [
  | inl missing ↦ absurd (ground (arith, wanted, missing))
  | inr (ctx, made) ↦ (ctx, made, ground (arith, wanted, made))
]

open_sockets-tls :
    (env : Env) (s : Server)
    → ((open_sockets env s).enable_input_ssl ≡ s.enable_input_ssl)
      × ((open_sockets env s).enable_output_ssl ≡ s.enable_output_ssl)
      × ((open_sockets env s).ssl_ctx ≡ s.ssl_ctx)
unfolding open_sockets server_input_init server_output_init
open_sockets-tls env s = (refl, refl, refl)

start_server-enable :
    (env : Env) (s : Server) (rt : Runtime) → start_server env s ≡ running rt → s.enable ≡ true
unfolding start_server
start_server-enable env s rt started = ground (arith, started)

-- `servers_init` passes over a server that is not enabled.
init_server-opens :
    (env started_env : Env) (cert_file key_file : Option Str) (s : Server) (rt : Runtime)
    → start_server started_env (init_server env cert_file key_file s) ≡ running rt
    → init_server env cert_file key_file s
      ≡ open_sockets env
          (init_ssl_context env (record s { cert_file = path cert_file; key_file = path key_file }))
unfolding init_server
init_server-opens env started_env cert_file key_file s rt started =
    let opened =
      open_sockets env (
        init_ssl_context env (record s { cert_file = path cert_file; key_file = path key_file })) in
    elim (Bool-cases s.enable) [
      | inl on ↦ if-true s.enable opened s on
      | inr off ↦
          let same =
            ap (start_server started_env) (sym (if-false s.enable opened s off)) ∙ started in
          if-true s.enable opened s (start_server-enable started_env s rt same)
    ]

-- A server that `servers_init` has set up and `switcher_servers_start` has started, with whatever answers
-- of the environment at the two times, is enabled in its row; its input thread runs exactly if the
-- input socket listens, its output thread exactly if the output socket does, each with the
-- descriptor that was opened; and where TLS is on for one of its sides it has the context that was made.
pub start_server-Serves :
    (env started_env : Env) (cert_file key_file : Option Str) (s : Server) (rt : Runtime)
    → start_server started_env (init_server env cert_file key_file s) ≡ running rt
    → Serves env rt.server
start_server-Serves env started_env cert_file key_file s rt started =
    let ready =
      init_ssl_context env (record s { cert_file = path cert_file; key_file = path key_file }) in
    let ready_input : Server = record s { cert_file = path cert_file; key_file = path key_file } in
    let opens = init_server-opens env started_env cert_file key_file s rt started in
    let started_open = ap (start_server started_env) (sym opens) ∙ started in
    let sides = open_sockets-IsOpened env ready in
    let kept =
      start_server-sides started_env (open_sockets env ready) rt started_open sides.input_idle
        sides.output_idle in
    let tls_kept = open_sockets-tls env ready in
    record {
      enabled = kept.4;
      input_runs = kept.2 ∙ sides.input_enabled;
      input_fd = kept.0 ∙ sides.input;
      output_runs = kept.3 ∙ sides.output_enabled;
      output_fd = kept.1 ∙ sides.output;
      tls = λ wanted.
          let found =
            init_ssl_context-tls env ready_input
              (ground (arith, wanted, kept.6, kept.7, tls_kept)) in
          (found.0, found.1, kept.5 ∙ tls_kept.2 ∙ found.2);
    }
