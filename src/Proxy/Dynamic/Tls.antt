-- ===== src/Proxy/Dynamic/Tls.antt =====
-- On which ports a server of server/proxy/server/proxy_server.c speaks TLS.
use net_port.Base.{
  ◌≡◌, refl, Bool, true, false, ◌&&◌, [], ◌∷◌, none, some, inl, inr, Str, take, arith, Option-cases,
}
use net_port.Proxy.Dynamic.State.{named}
use net_port.Proxy.Dynamic.Open.{
  Env, certs_configured, init_ssl_context, apply_dynamic_server_ssl_config, path_max,
}
use net_port.Proxy.Dynamic.Start.{Request, granted, new_server}

-- A TLS context could be made.
abbrev pub has_ctx : Env → Bool
has_ctx env = elim env.new_ctx [ none ↦ false | some ctx ↦ true ]

named-take : (c : Str) → named (take path_max c) ≡ named c
unfolding named
named-take [] = refl
named-take (x ∷ c) = refl

-- A server speaks TLS on a port exactly if the device asked for it, the device manager has a
-- certificate and a key, and a context could be made of them; otherwise the port is opened without
-- TLS.
pub new_server_tls :
    (env : Env) (q : Request)
    → ((new_server env (granted env q)).enable_input_ssl
        ≡ (q.input_ssl && certs_configured env && has_ctx env))
      × ((new_server env (granted env q)).enable_output_ssl
          ≡ (q.tunnel_ssl && certs_configured env && has_ctx env))
unfolding new_server granted apply_dynamic_server_ssl_config init_ssl_context certs_configured
new_server_tls env q = elim (Option-cases env.certs) [
  | inl missing ↦ (ground (arith, missing), ground (arith, missing))
  | inr ((c, k), given) ↦ (
    ground (arith, given, named-take c, named-take k),
    ground (arith, given, named-take c, named-take k),
  )
]
