-- ===== src/Proxy/Dynamic/Growth.antt =====
-- How the array `servers` of server/proxy/server/proxy_server.c grows.
use net_port.Base.{
  ℕ, ◌+◌, ◌%◌, ◌≤◌, ◌<◌, ◌≡◌, refl, Bool, true, false, not, ◌&&◌, List, [], ◌∷◌, ◌++◌, some, ◌⊎◌,
  inl, inr, length, take, length-take_of_le, get_elem?, get_elem?-append_end, set, All, ltb, arith,
  Bool-cases, Option-cases,
}
use mathlib.Core.Path.{subst}
use net_port.Proxy.Dynamic.State.{Server, zero_server, Runtime, Registry, named, server_at}
use net_port.Proxy.Dynamic.Stop.{Ends, cleanup_dynamic_server_slot}
use net_port.Proxy.Dynamic.Open.{
  Env, server_input_init, server_output_init, init_ssl_context, apply_dynamic_server_ssl_config,
  start_server_listening_threads,
}
use net_port.Proxy.Dynamic.Start.{
  Request, new_server, with_input, with_output, running_server, admit_runtime, open_server, u16,
  grow,
}

-- The server would not be taken for a stopped one.
abbrev pub Kept : Server → Type 0
Kept s = (s.is_dynamic_port && not s.enable) ≡ false

-- The servers that count, none of them stopped.
pub record Listed (r : Registry) : Type 0 where
  pub fits : r.servers_count ≤ length r.servers
  pub small : r.servers_count < u16
  pub kept : All Kept (take r.servers_count r.servers)

abbrev pub listed : Registry → List Server
listed r = take r.servers_count r.servers

pub length-listed : (r : Registry) → Listed r → length (listed r) ≡ r.servers_count
length-listed r h = length-take_of_le r.servers_count r.servers h.fits

pub cleanup-grow :
    (ends : Ends) (r : Registry)
    → Listed r
    → cleanup_dynamic_server_slot ends r.servers_count (grow r) ≡ grow r
unfolding cleanup_dynamic_server_slot server_at grow named
cleanup-grow ends r h =
    let at : get_elem? (listed r ++ zero_server ∷ []) r.servers_count ≡ some zero_server =
      subst (λ n. get_elem? (listed r ++ zero_server ∷ []) n ≡ some zero_server) (length-listed r h)
        (get_elem?-append_end (listed r) zero_server) in
    elim (Bool-cases (ltb r.servers_count ((r.servers_count + 1) % u16))) [
      | inr over ↦ rw (over, server_at, cleanup_dynamic_server_slot) refl
      | inl within ↦ rw (within, at, server_at, cleanup_dynamic_server_slot) refl
    ]

new_server_enabled : (env : Env) (q : Request) → (new_server env q).enable ≡ true
unfolding new_server apply_dynamic_server_ssl_config init_ssl_context
new_server_enabled env q = ground arith

with_output_enabled : (env : Env) (q : Request) → (with_output env q).enable ≡ true
unfolding with_output with_input server_input_init server_output_init
with_output_enabled env q = new_server_enabled env q

admit_runtime-servers :
    (env : Env) (index : ℕ) (q : Request) (rt : Runtime) (r : Registry)
    → ((admit_runtime env index q rt r).0.servers ≡ r.servers)
      × ((admit_runtime env index q rt r).0.servers_count ≡ r.servers_count)
unfolding admit_runtime
admit_runtime-servers env index q rt r = (ground arith, ground arith)

-- What opening a server does to the array: it writes one server, which is enabled on success.
pub record Wrote (index : ℕ) (r t : Registry) (ok : Bool) : Type 0 where
  pub server : Server
  pub servers : t.servers ≡ set r.servers index server
  pub count : t.servers_count ≡ r.servers_count
  pub enabled : (ok ≡ false) ⊎ (server.enable ≡ true)

pub open_server-Wrote :
    (env : Env) (index : ℕ) (q : Request) (r : Registry)
    → Wrote index r (open_server env index q r).0 (open_server env index q r).1
unfolding open_server
open_server-Wrote env index q r = elim (Bool-cases (server_input_init env (new_server env q)).1) [
  | inr shut ↦
      rw (shut, open_server)
        (record { server = _; servers = refl; count = refl; enabled = inl refl })
  | inl input ↦ elim (Bool-cases (server_output_init env (with_input env q)).1) [
    | inr shut ↦
        rw (input, shut, open_server)
          (record { server = _; servers = refl; count = refl; enabled = inl refl })
    | inl output ↦ elim (Option-cases (start_server_listening_threads env (with_output env q))) [
      | inl failed ↦
          rw (input, output, failed, open_server)
            (record { server = _; servers = refl; count = refl; enabled = inl refl })
      | inr (rt, started) ↦
          rw (input, output, started, open_server)
            (record {
              server = running_server (with_output env q) rt;
              servers = (admit_runtime-servers env index q rt _).0;
              count = (admit_runtime-servers env index q rt _).1;
              enabled = inr (with_output_enabled env q);
            })
    ]
  ]
]
