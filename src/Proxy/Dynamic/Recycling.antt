-- ===== src/Proxy/Dynamic/Recycling.antt =====
-- How often server/proxy/server/proxy_server.c uses an element of `servers`.
use net_port.Base.{
  ℕ, ◌+◌, ◌≡◌, refl, Bool, ◌&&◌, List, [], ◌∷◌, ◌++◌, Option, none, some, ◌⊎◌, inl, inr, Str,
  str_eq, length, length-append, take_of_length-le, All, All-append, ltb, ◌==◌, arith, Bool-cases,
}
use net_port.Proxy.Dynamic.State.{Server, Registry}
use net_port.Proxy.Dynamic.Stop.{stop_dynamic_runtimes_for_device}
use net_port.Proxy.Dynamic.Open.{Env}
use net_port.Proxy.Dynamic.Registry.{find_healthy_dynamic_server}
use net_port.Proxy.Dynamic.Start.{
  Request, granted, find_stopped, find_stopped_dynamic_server, u16,
  create_dynamic_server_for_device, restart_or_create, ensure_dynamic_server_for_device,
}
use net_port.Proxy.Dynamic.Growth.{Kept, Listed, listed, length-listed}
use net_port.Proxy.Dynamic.Creation.{Failed, Added, Outcome, create_server-Outcome}

Failed-Listed : (r t : Registry) {o : Option ℕ} → Listed r → Failed r t o → Listed t
Failed-Listed r t h f = record {
  fits = f.fits;
  small = rw f.count h.small;
  kept = rw f.same h.kept;
}

Added-Listed : (r t : Registry) {o : Option ℕ} → Listed r → Added r t o → Listed t
Added-Listed r t h a =
    let size : length (listed r ++ a.server ∷ []) ≡ r.servers_count + 1 =
      omega (arith, length-append (listed r) (a.server ∷ []), length-listed r h) in
    record {
      fits = rw (a.one_more, a.count, size) (omega arith);
      small = rw a.count a.below;
      kept =
          rw
            (
              a.one_more,
              a.count,
              take_of_length-le (r.servers_count + 1) (listed r ++ a.server ∷ [])
                  (omega (arith, size)),
            )
            (All-append Kept (listed r) (a.server ∷ []) h.kept (ground (arith, a.enabled), tt));
    }

-- What a request leaves of the array, with the answer: no answer and as many servers as before, or
-- one more, which is the answer.
pub record Grows (r t : Registry) (o : Option ℕ) : Type 0 where
  pub invariant : Listed t
  pub growth :
      ((o ≡ none) × (t.servers_count ≡ r.servers_count))
      ⊎ ((o ≡ some r.servers_count) × (t.servers_count ≡ r.servers_count + 1))

Outcome-Grows : (r : Registry) (x : Registry × Option ℕ) → Listed r → Outcome r x → Grows r x.0 x.1
Outcome-Grows r (t, o) h (inl f) = record {
  invariant = Failed-Listed r t h f;
  growth = inl (f.answer, f.count);
}
Outcome-Grows r (t, o) h (inr a) = record {
  invariant = Added-Listed r t h a;
  growth = inr (a.answer, a.count);
}

find_stopped-Kept :
    (chosen : Server → Bool) (servers : List Server)
    → All Kept servers
    → find_stopped chosen servers ≡ none
unfolding find_stopped
find_stopped-Kept chosen [] h = refl
find_stopped-Kept chosen (s ∷ servers) h =
    let no_more = find_stopped-Kept chosen servers h.1 in ground (arith, h.0, no_more)

find_stopped_dynamic_server-Listed :
    (device_id : Str) (ip tp : ℕ) (r : Registry)
    → Listed r
    → find_stopped_dynamic_server device_id ip tp r ≡ none
unfolding find_stopped_dynamic_server
find_stopped_dynamic_server-Listed device_id ip tp r h =
    rw
      (
        find_stopped-Kept (λ s. str_eq s.device_id device_id) (listed r) h.kept,
        find_stopped_dynamic_server,
      )
      (find_stopped-Kept (λ s. (s.input_port == ip) && (s.output_port == tp)) (listed r) h.kept)

abbrev Answered : Registry → Registry × Option ℕ → Type 0
Answered r x = Grows r x.0 x.1

create_dynamic_server-Answered :
    (env : Env) (q : Request) (r : Registry)
    → Listed r
    → Answered r (create_dynamic_server_for_device env q r)
unfolding create_dynamic_server_for_device
create_dynamic_server-Answered env q r h =
    elim (Bool-cases (ltb 0 q.input_port && ltb 0 q.tunnel_port)) [
      | inl ok ↦
          rw (ok, create_dynamic_server_for_device)
            (Outcome-Grows r _ h (create_server-Outcome env (granted env q) r h))
      | inr bad ↦
          rw (bad, create_dynamic_server_for_device)
            (record { invariant = h; growth = inl (refl, refl) })
    ]

restart_or_create-Answered :
    (env : Env) (q : Request) (r : Registry) → Listed r → Answered r (restart_or_create env q r)
unfolding restart_or_create
restart_or_create-Answered env q r h =
    rw
      (
        find_stopped_dynamic_server-Listed q.device_id q.input_port q.tunnel_port r h,
        restart_or_create,
      )
      (create_dynamic_server-Answered env q r h)

stop-Listed :
    (env : Env) (q : Request) (r : Registry)
    → Listed r
    → Listed (stop_dynamic_runtimes_for_device env.ends q.device_id q.input_port q.tunnel_port r)
unfolding stop_dynamic_runtimes_for_device
stop-Listed env q r h = record { fits = h.fits; small = h.small; kept = h.kept }

stop-Answered :
    (env : Env) (q : Request) (r : Registry) (x : Registry × Option ℕ)
    → Answered
        (stop_dynamic_runtimes_for_device env.ends q.device_id q.input_port q.tunnel_port r)
        x
    → Answered r x
unfolding stop_dynamic_runtimes_for_device
stop-Answered env q r x a = record { invariant = a.invariant; growth = a.growth }

-- Where no server that counts is stopped, a request that finds no healthy server for its ports is
-- answered by the next unused element of `servers`, which then counts, or not at all; and again no
-- server that counts is stopped. So the search for a stopped server of the device never finds one.
pub ensure_never_recycles :
    (env : Env) (q : Request) (r : Registry)
    → Listed r
    → find_healthy_dynamic_server env.accepts q.input_port q.tunnel_port
        (granted env q).input_ssl
        (granted env q).tunnel_ssl
        r.machine.heap
        r.slots
      ≡ none
    → Grows r
        (ensure_dynamic_server_for_device env q r).0
        (ensure_dynamic_server_for_device env q r).1
unfolding ensure_dynamic_server_for_device
ensure_never_recycles env q r h none_healthy =
    elim (Bool-cases (ltb 0 q.input_port && ltb 0 q.tunnel_port)) [
      | inr bad ↦
          rw (bad, ensure_dynamic_server_for_device)
            (record { invariant = h; growth = inl (refl, refl) })
      | inl ok ↦
          rw (ok, none_healthy, ensure_dynamic_server_for_device)
            (stop-Answered env q r _ (restart_or_create-Answered env q _ (stop-Listed env q r h)))
    ]

-- Once 65535 servers are listed and none of them is stopped, a request that finds no healthy server
-- for its ports is refused.
pub full_servers_refuse :
    (env : Env) (q : Request) (r : Registry)
    → Listed r
    → r.servers_count + 1 ≡ u16
    → find_healthy_dynamic_server env.accepts q.input_port q.tunnel_port
        (granted env q).input_ssl
        (granted env q).tunnel_ssl
        r.machine.heap
        r.slots
      ≡ none
    → (ensure_dynamic_server_for_device env q r).1 ≡ none
full_servers_refuse env q r h full none_healthy =
    let g = ensure_never_recycles env q r h none_healthy in
    elim g.growth [
      | inl (refused, _) ↦ refused
      | inr (_, more) ↦ absurd (omega (arith, g.invariant.small, more, full))
    ]
