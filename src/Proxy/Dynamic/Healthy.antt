-- ===== src/Proxy/Dynamic/Healthy.antt =====
-- What server/proxy/server/proxy_server.c promises when it answers with the index of a server.
use net_port.Base.{
  ℕ, suc, ◌≡◌, refl, Bool, true, false, ◌&&◌, List, [], ◌∷◌, some, inl, inr, length, get_elem?,
  get_elem?-append_end, ltb, arith, Bool-cases, Option-cases,
}
use net_port.Proxy.Dynamic.State.{Runtime, Slot, Registry}
use net_port.Proxy.Dynamic.Open.{
  Env, server_input_init, server_output_init, start_server_listening_threads,
}
use net_port.Proxy.Dynamic.Registry.{
  is_runtime_listener_active, is_healthy, slot_healthy, find_healthy_dynamic_server,
}
use net_port.Proxy.Dynamic.Start.{
  Request, granted, admit_runtime, open_server, start_dynamic_server_at_index, create_server,
  create_dynamic_server_for_device, restart_or_create, ensure_dynamic_server_for_device, new_server,
  with_input, with_output, grow, find_stopped_dynamic_server,
}

-- A slot among the others that passes the test for a request, with its server's index.
pub record Found (pass : Slot → Bool) (slots : List Slot) (index : ℕ) : Type 0 where
  pub at : ℕ
  pub slot : Slot
  pub stored : get_elem? slots at ≡ some slot
  pub passes : pass slot ≡ true
  pub same_index : slot.server_index ≡ index

-- Where the search of the registry answers, it is with the server of a slot that passes its test: it
-- is active, has the two ports, and points to a runtime that listens on both with the TLS asked for.
pub find_healthy_sound :
    (accepts : ℕ → Bool) (ip tp : ℕ) (input_ssl tunnel_ssl : Bool) (heap : List Runtime)
    (slots : List Slot) (index : ℕ)
    → find_healthy_dynamic_server accepts ip tp input_ssl tunnel_ssl heap slots ≡ some index
    → Found (slot_healthy accepts ip tp input_ssl tunnel_ssl heap) slots index
unfolding find_healthy_dynamic_server
find_healthy_sound accepts ip tp input_ssl tunnel_ssl heap [] index e = absurd (cc)
find_healthy_sound accepts ip tp input_ssl tunnel_ssl heap (slot ∷ slots) index e =
    elim (Bool-cases (slot_healthy accepts ip tp input_ssl tunnel_ssl heap slot)) [
      | inl ok ↦ record {
        at = 0;
        slot = slot;
        stored = refl;
        passes = ok;
        same_index = ground (arith, ok);
      }
      | inr bad ↦
          let f =
            find_healthy_sound accepts ip tp input_ssl tunnel_ssl heap slots index
              (ground (arith, bad)) in
          record {
            at = suc f.at;
            slot = f.slot;
            stored = f.stored;
            passes = f.passes;
            same_index = f.same_index;
          }
    ]

-- A runtime on the heap that listens on both ports.
pub record Serving (accepts : ℕ → Bool) (ip tp : ℕ) (heap : List Runtime) : Type 0 where
  pub p : ℕ
  pub rt : Runtime
  pub stored : get_elem? heap p ≡ some rt
  pub input_listens : is_runtime_listener_active accepts ip false rt.server ≡ true
  pub tunnel_listens : is_runtime_listener_active accepts tp true rt.server ≡ true

healthy-Serving :
    (accepts : ℕ → Bool) (ip tp : ℕ) (a b : Bool) (heap : List Runtime) (slot : Slot)
    → slot_healthy accepts ip tp a b heap slot ≡ true
    → Serving accepts ip tp heap
unfolding slot_healthy is_healthy
healthy-Serving accepts ip tp a b heap slot e = elim (Option-cases slot.connections_data) [
  | inl gone ↦ absurd (ground (arith, gone))
  | inr (p, held) ↦ elim (Option-cases (get_elem? heap p)) [
    | inl gone ↦ absurd (ground (arith, gone, held))
    | inr (rt, at) ↦ record {
      p = p;
      rt = rt;
      stored = at;
      input_listens = ground (arith, e, held, at);
      tunnel_listens = ground (arith, e, held, at);
    }
  ]
]

admit_runtime-Serving :
    (env : Env) (index : ℕ) (q : Request) (rt : Runtime) (r : Registry)
    → (admit_runtime env index q rt r).1 ≡ true
    → Serving env.accepts q.input_port q.tunnel_port (admit_runtime env index q rt r).0.machine.heap
unfolding admit_runtime
admit_runtime-Serving env index q rt r e =
    let test : Bool =
      is_runtime_listener_active env.accepts q.input_port false rt.server
      && is_runtime_listener_active env.accepts q.tunnel_port true rt.server in
    elim (Bool-cases test) [
      | inl ok ↦ rw ok (record {
        p = length r.machine.heap;
        rt = rt;
        stored = get_elem?-append_end r.machine.heap rt;
        input_listens = ground (arith, ok);
        tunnel_listens = ground (arith, ok);
      })
      | inr bad ↦ absurd (ground (arith, e, bad))
    ]

open_server-Serving :
    (env : Env) (index : ℕ) (q : Request) (r : Registry)
    → (open_server env index q r).1 ≡ true
    → Serving env.accepts q.input_port q.tunnel_port (open_server env index q r).0.machine.heap
unfolding open_server
open_server-Serving env index q r e =
    elim (Bool-cases (server_input_init env (new_server env q)).1) [
      | inr shut ↦ absurd (ground (arith, shut, e))
      | inl input ↦ elim (Bool-cases (server_output_init env (with_input env q)).1) [
        | inr shut ↦ absurd (ground (arith, input, shut, e))
        | inl output ↦
            elim (Option-cases (start_server_listening_threads env (with_output env q))) [
              | inl failed ↦ absurd (ground (arith, input, output, failed, e))
              | inr (rt, started) ↦
                  rw (input, output, started)
                    (admit_runtime-Serving env index q rt _
                      (ground (arith, input, output, started, e)))
            ]
      ]
    ]

start_dynamic_server-Serving :
    (env : Env) (index : ℕ) (q : Request) (r : Registry)
    → (start_dynamic_server_at_index env index q r).1 ≡ true
    → Serving env.accepts q.input_port q.tunnel_port
        (start_dynamic_server_at_index env index q r).0.machine.heap
unfolding start_dynamic_server_at_index
start_dynamic_server-Serving env index q r e = elim (Bool-cases (ltb index r.servers_count)) [
  | inl within ↦ rw within (open_server-Serving env index q _ (ground (arith, within, e)))
  | inr beyond ↦ absurd (ground (arith, beyond, e))
]

pub create_server_succeeds :
    (env : Env) (q : Request) (r : Registry)
    → env.realloc_ok ≡ true
    → (start_dynamic_server_at_index env r.servers_count q (grow r)).1 ≡ true
    → create_server env q r
      ≡ ((start_dynamic_server_at_index env r.servers_count q (grow r)).0, some r.servers_count)
unfolding create_server
create_server_succeeds env q r room ok = ground (arith, room, ok)

create_server-Serving :
    (env : Env) (q : Request) (r : Registry) (i : ℕ)
    → (create_server env q r).1 ≡ some i
    → Serving env.accepts q.input_port q.tunnel_port (create_server env q r).0.machine.heap
unfolding create_server
create_server-Serving env q r i e = elim (Bool-cases env.realloc_ok) [
  | inr out ↦ absurd (ground (arith, out, e))
  | inl room ↦ elim (Bool-cases (start_dynamic_server_at_index env r.servers_count q (grow r)).1) [
    | inl ok ↦
        rw (create_server_succeeds env q r room ok)
          (start_dynamic_server-Serving env r.servers_count q (grow r) ok)
    | inr bad ↦ absurd (ground (arith, room, bad, e))
  ]
]

create_dynamic_server-Serving :
    (env : Env) (q : Request) (r : Registry) (i : ℕ)
    → (create_dynamic_server_for_device env q r).1 ≡ some i
    → Serving env.accepts q.input_port q.tunnel_port
        (create_dynamic_server_for_device env q r).0.machine.heap
unfolding create_dynamic_server_for_device granted
create_dynamic_server-Serving env q r i e =
    elim (Bool-cases (ltb 0 q.input_port && ltb 0 q.tunnel_port)) [
      | inl ok ↦ rw ok (create_server-Serving env (granted env q) r i (ground (arith, ok, e)))
      | inr bad ↦ absurd (ground (arith, bad, e))
    ]

restart_or_create-Serving :
    (env : Env) (q : Request) (r : Registry) (i : ℕ)
    → (restart_or_create env q r).1 ≡ some i
    → Serving env.accepts q.input_port q.tunnel_port (restart_or_create env q r).0.machine.heap
unfolding restart_or_create granted
restart_or_create-Serving env q r i e =
    elim (Option-cases (find_stopped_dynamic_server q.device_id q.input_port q.tunnel_port r)) [
      | inl missing ↦
          rw (missing, restart_or_create)
            (create_dynamic_server-Serving env q r i (ground (arith, missing, e)))
      | inr (j, at) ↦ elim (Bool-cases (start_dynamic_server_at_index env j (granted env q) r).1) [
        | inl ok ↦
            rw (at, ok, restart_or_create) (start_dynamic_server-Serving env j (granted env q) r ok)
        | inr bad ↦
            rw (at, bad, restart_or_create)
              (create_dynamic_server-Serving env q _ i (ground (arith, at, bad, e)))
      ]
    ]

-- Where `ensure_dynamic_server_for_device` answers with an index, a runtime on the heap listens on
-- both ports of the request, found there or just started.
pub ensure_dynamic_server-Serving :
    (env : Env) (q : Request) (r : Registry) (i : ℕ)
    → (ensure_dynamic_server_for_device env q r).1 ≡ some i
    → Serving env.accepts q.input_port q.tunnel_port
        (ensure_dynamic_server_for_device env q r).0.machine.heap
unfolding ensure_dynamic_server_for_device
ensure_dynamic_server-Serving env q r i e =
    let g = granted env q in
    elim (Bool-cases (ltb 0 q.input_port && ltb 0 q.tunnel_port)) [
      | inr bad ↦ absurd (ground (arith, bad, e))
      | inl ok ↦
          elim (Option-cases (
            find_healthy_dynamic_server env.accepts q.input_port q.tunnel_port g.input_ssl
              g.tunnel_ssl r.machine.heap r.slots)) [
                | inl missing ↦
                    rw (ok, missing)
                      (restart_or_create-Serving env q _ i (ground (arith, ok, missing, e)))
                | inr (j, at) ↦
                    rw (ok, at)
                      (let f =
                          find_healthy_sound env.accepts q.input_port q.tunnel_port g.input_ssl
                            g.tunnel_ssl r.machine.heap r.slots j at in
                        healthy-Serving env.accepts q.input_port q.tunnel_port g.input_ssl
                          g.tunnel_ssl r.machine.heap f.slot f.passes)
              ]
    ]
