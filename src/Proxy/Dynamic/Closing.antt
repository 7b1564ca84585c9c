-- ===== src/Proxy/Dynamic/Closing.antt =====
-- Which descriptors a stop for a device closes, in server/proxy/server/proxy_server.c.
use net_port.Base.{
  ℕ, ◌≡◌, refl, sym, ◌∙◌, ap, Bool, true, false, List, [], ◌∷◌, ◌++◌, some, ◌⊎◌, inl, inr, map, Str,
  get_elem?, set, get_elem?-set_same, get_elem?-set_other, lt_of_get_elem?, All, All-append, ◌==◌,
  arith, Bool-cases, Option-cases,
}
use mathlib.Core.Path.{subst}
use mathlib.Core.List.{append-nil, append_assoc}
use net_port.Proxy.Dynamic.State.{LocalSocket, Runtime, Slot, Machine}
use net_port.Proxy.Dynamic.Stop.{
  Ends, socket_descriptors, runtime_descriptors, shut_socket, shut_server, wait_for_runtime_threads,
  refuses, stop_dynamic_server_runtime, stop_slot, stop_slots,
}

-- The descriptors of some runtimes.
unfoldable pub all_descriptors : List Runtime → List ℕ
all_descriptors [] = []
all_descriptors (x ∷ xs) = runtime_descriptors x ++ all_descriptors xs

-- A runtime of a heap that may be stopped for a device: it has the device's name, or one of the two has
-- no name.
abbrev pub IsOf : Str → List Runtime → Runtime → Type 0
IsOf device_id heap x = (refuses device_id x ≡ false) × (q : ℕ) × (get_elem? heap q ≡ some x)

-- What was closed between two states: descriptors of runtimes that may be stopped for the device.
pub record ClosesOwn (device_id : Str) (heap : List Runtime) (before after : List ℕ) : Type 0 where
  pub runtimes : List Runtime
  pub own : All (IsOf device_id heap) runtimes
  pub closed : after ≡ before ++ all_descriptors runtimes

all_descriptors-append :
    (xs ys : List Runtime) → all_descriptors (xs ++ ys) ≡ all_descriptors xs ++ all_descriptors ys
unfolding all_descriptors
all_descriptors-append [] ys = refl
all_descriptors-append (x ∷ xs) ys =
    ap (λ (l : List ℕ). runtime_descriptors x ++ l) (all_descriptors-append xs ys)
    ∙ sym (append_assoc (runtime_descriptors x) (all_descriptors xs) (all_descriptors ys))

ClosesOwn-none : (d : Str) (heap : List Runtime) (l : List ℕ) → ClosesOwn d heap l l
unfolding all_descriptors
ClosesOwn-none d heap l = record { runtimes = []; own = tt; closed = sym (append-nil l) }

ClosesOwn-trans :
    (d : Str) (heap : List Runtime) (a b c : List ℕ)
    → ClosesOwn d heap a b
    → ClosesOwn d heap b c
    → ClosesOwn d heap a c
ClosesOwn-trans d heap a b c f g = record {
  runtimes = f.runtimes ++ g.runtimes;
  own = All-append (IsOf d heap) f.runtimes g.runtimes f.own g.own;
  closed =
      g.closed
      ∙ ap (λ (l : List ℕ). l ++ all_descriptors g.runtimes) f.closed
      ∙ append_assoc a (all_descriptors f.runtimes) (all_descriptors g.runtimes)
      ∙ ap (λ (l : List ℕ). a ++ l) (sym (all_descriptors-append f.runtimes g.runtimes));
}

-- Every runtime of the heap now was there before, or has no descriptor left.
abbrev Kept : List Runtime → List Runtime → Type 0
Kept heap now =
    (q : ℕ) (x : Runtime)
    → get_elem? now q ≡ some x
    → (get_elem? heap q ≡ some x) ⊎ (runtime_descriptors x ≡ [])

shut_sockets : (ss : List LocalSocket) → socket_descriptors (map shut_socket ss) ≡ []
unfolding socket_descriptors
shut_sockets [] = refl
shut_sockets (s ∷ ss) = shut_sockets ss

abbrev shut : Ends → Runtime → Runtime
shut env x = record {
  local_sockets = map shut_socket x.local_sockets;
  server = shut_server env x.server;
}

shut-descriptors : (env : Ends) (x : Runtime) → runtime_descriptors (shut env x) ≡ []
unfolding runtime_descriptors shut_server wait_for_runtime_threads
shut-descriptors env x = rw (shut_sockets x.local_sockets) refl

Some-same : (x y : Runtime) → some x ≡ some y → x ≡ y
Some-same x y e = cc

Kept-set :
    (env : Ends) (heap now : List Runtime) (p : ℕ) (x : Runtime)
    → get_elem? now p ≡ some x
    → Kept heap now
    → Kept heap (set now p (shut env x))
Kept-set env heap now p x at kept q y there = elim (Bool-cases (p == q)) [
  | inl same ↦
      let e : p ≡ q = ground (arith, same) in
      let here : get_elem? (set now p (shut env x)) p ≡ some (shut env x) =
        get_elem?-set_same now p (shut env x) (lt_of_get_elem? now p at) in
      let y_shut : shut env x ≡ y =
        Some-same (shut env x) y
          (sym here ∙ subst (λ i. get_elem? (set now p (shut env x)) i ≡ some y) (sym e) there) in
      inr (subst (λ z. runtime_descriptors z ≡ []) y_shut (shut-descriptors env x))
  | inr other ↦
      kept q y
        (sym (get_elem?-set_other now p q (shut env x) (λ e. ground (arith, other, e))) ∙ there)
]

-- One stop keeps the invariant and closes descriptors of its own only.
Stops : Str → List Runtime → Machine → Machine → Type 0
Stops d heap m t = Kept heap t.heap × ClosesOwn d heap m.closed t.closed

stop_runtime-Stops :
    (env : Ends) (p : ℕ) (d : Str) (heap : List Runtime) (m : Machine)
    → Kept heap m.heap
    → Stops d heap m (stop_dynamic_server_runtime env (some p) d m)
unfolding stop_dynamic_server_runtime all_descriptors Stops
stop_runtime-Stops env p d heap m kept = elim (Option-cases (get_elem? m.heap p)) [
  | inl dangling ↦ rw (dangling, stop_dynamic_server_runtime) (kept, ClosesOwn-none d heap m.closed)
  | inr (x, at) ↦ elim (Bool-cases (refuses d x)) [
    | inl spared ↦
        rw (at, stop_dynamic_server_runtime, spared) (kept, ClosesOwn-none d heap m.closed)
    | inr stopped ↦
        rw (at, stop_dynamic_server_runtime, stopped)
          (
            Kept-set env heap m.heap p x at kept,
            elim (kept p x at) [
              | inl there ↦ record {
                runtimes = x ∷ [];
                own = ((stopped, p, there), tt);
                closed =
                    ap (λ (l : List ℕ). m.closed ++ l) (sym (append-nil (runtime_descriptors x)));
              }
              | inr empty ↦ record {
                runtimes = [];
                own = tt;
                closed = ap (λ (l : List ℕ). m.closed ++ l) empty;
              }
            ],
          )
  ]
]

stop_slot-Stops :
    (env : Ends) (chosen : Slot → Bool) (d : Str) (slot : Slot) (heap : List Runtime) (m : Machine)
    → (chosen slot ≡ true → slot.device_id ≡ d)
    → Kept heap m.heap
    → Stops d heap m (stop_slot env chosen slot m).1
unfolding stop_slot Stops
stop_slot-Stops env chosen d slot heap m only kept = elim (Option-cases slot.connections_data) [
  | inl empty ↦ rw (empty, stop_slot) (kept, ClosesOwn-none d heap m.closed)
  | inr (q, held) ↦ elim (Bool-cases (chosen slot)) [
    | inr passed ↦ rw (held, stop_slot, passed) (kept, ClosesOwn-none d heap m.closed)
    | inl stopped ↦
        rw (held, stop_slot, stopped, only stopped) (stop_runtime-Stops env q d heap m kept)
  ]
]

pub stop_slots-ClosesOwn :
    (env : Ends) (chosen : Slot → Bool) (d : Str) (slots : List Slot) (heap : List Runtime)
    (m : Machine)
    → ((slot : Slot) → chosen slot ≡ true → slot.device_id ≡ d)
    → Kept heap m.heap
    → ClosesOwn d heap m.closed (stop_slots env chosen slots m).1.closed
unfolding stop_slots Stops
stop_slots-ClosesOwn env chosen d [] heap m only kept = ClosesOwn-none d heap m.closed
stop_slots-ClosesOwn env chosen d (slot ∷ slots) heap m only kept =
    let next = (stop_slot env chosen slot m).1 in
    let (kept', first) = stop_slot-Stops env chosen d slot heap m (only slot) kept in
    ClosesOwn-trans d heap m.closed next.closed (stop_slots env chosen slots next).1.closed first
      (stop_slots-ClosesOwn env chosen d slots heap next only kept')
