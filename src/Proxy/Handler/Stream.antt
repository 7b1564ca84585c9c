-- ===== src/Proxy/Handler/Stream.antt =====
-- What `connection_input_handler` of server/proxy/server/proxy_server.c passes on and counts.
use net_port.Base.{
  ℕ, ◌+◌, ◌-◌, ◌%◌, ◌<◌, ◌≡◌, refl, sym, ap, ◌∙◌, Bool, true, false, not, List, [], ◌∷◌, ◌++◌, Str,
  length, length-append, if◌then◌else◌, arith, if-cases,
}
use mathlib.Core.Path.{subst}
use mathlib.Core.List.{append-nil, append_assoc}
use net_port.Proxy.Forward.{Round, send_chunk, success}
use net_port.Proxy.Forward.Laws.{Honest, send_chunk_success}
use net_port.Switcher.{u64}
use net_port.Switcher.Totals.{update_server_statistics}
use net_port.Proxy.Handler.{
  Pair, Handshake, no_context, no_object, failed, established, Received, select_failed, quiet,
  ended, tls_failed, chunk, Turn, close_input, free_input, free_output, handshake_input,
  shake_input, u32, count_connection, count_bytes, pass_on, input_turn, input_turns, finish_input,
  connection_input_handler,
}

abbrev pub bytes : Received → Str
bytes (chunk c) = c
bytes _ = []

abbrev pub goes_on : Received → Bool → Bool
goes_on quiet gave_up = true
goes_on (chunk c) gave_up = not gave_up
goes_on _ gave_up = false

-- What the client has sent, up to the round that ends the loop.
unfoldable pub stream : List Turn → Str
stream [] = []
stream (t ∷ ts) =
    let rest = stream ts in bytes t.received ++ (if goes_on t.received t.gave_up then rest else [])

-- Each chunk is written whole by honest writes.
abbrev pub IsWhole : List Round → Received → Type 0
IsWhole rounds (chunk c) = Honest (length c) rounds × ((send_chunk c rounds).end ≡ success)
IsWhole rounds _ = Unit

abbrev pub AllWhole : List Turn → Type 0
AllWhole [] = Unit
AllWhole (t ∷ ts) = IsWhole t.rounds t.received × AllWhole ts

-- `sent` is passed on from `p` to `q`, and counted.
pub record IsPassed (sent : Str) (p q : Pair) : Type 0 where
  pub passed : q.to_output ≡ p.to_output ++ sent
  pub counted :
      q.served.statistics.bytes_received ≡ (p.served.statistics.bytes_received + length sent) % u64
  pub static : q.served.server.is_dynamic_port ≡ false

-- A server that is not one of a device, with a count that fits its field.
pub record IsStatic (p : Pair) : Type 0 where
  pub small : p.served.statistics.bytes_received < u64
  pub static : p.served.server.is_dynamic_port ≡ false

IsPassed-nil : (p : Pair) → IsStatic p → IsPassed [] p p
IsPassed-nil p h = record {
  passed = sym (append-nil p.to_output);
  counted = omega (arith, h.small);
  static = h.static;
}

IsPassed-IsStatic : (sent : Str) (p q : Pair) → IsPassed sent p q → IsStatic q
IsPassed-IsStatic sent p q h = record { small = omega (arith, h.counted); static = h.static }

IsPassed-trans :
    (xs ys : Str) (p q r : Pair) → IsPassed xs p q → IsPassed ys q r → IsPassed (xs ++ ys) p r
IsPassed-trans xs ys p q r a b = record {
  passed = b.passed ∙ ap (λ s. s ++ ys) a.passed ∙ append_assoc p.to_output xs ys;
  counted = omega (arith, a.counted, b.counted, length-append xs ys);
  static = b.static;
}

count_bytes-IsPassed :
    (now received : ℕ) (p : Pair)
    → IsStatic p
    → ((count_bytes now received 0 p).served.statistics.bytes_received
        ≡ (p.served.statistics.bytes_received + received) % u64)
      × ((count_bytes now received 0 p).served.server.is_dynamic_port ≡ false)
      × ((count_bytes now received 0 p).to_output ≡ p.to_output)
unfolding count_bytes update_server_statistics
count_bytes-IsPassed now received p h = ground (arith, h.static)

pass_on-IsPassed :
    (t : Turn) (c : Str) (p : Pair)
    → IsStatic p
    → Honest (length c) t.rounds
    → (send_chunk c t.rounds).end ≡ success
    → IsPassed c p (pass_on t c p)
unfolding pass_on free_output
pass_on-IsPassed t c p h honest done =
    let q = count_bytes t.now (length c) 0 p in
    let counted = count_bytes-IsPassed t.now (length c) p h in
    let r : Pair = record q { to_output = q.to_output ++ (send_chunk c t.rounds).written } in
    let written = send_chunk_success c t.rounds honest done in
    let one : q.to_output ++ (send_chunk c t.rounds).written ≡ p.to_output ++ c =
      ap (λ s. s ++ (send_chunk c t.rounds).written) counted.2
      ∙ ap (λ s. p.to_output ++ s) written in
    if-cases (IsPassed c p) t.tls_lost (free_output r) r
      (λ lost. record { passed = one; counted = counted.0; static = counted.1 })
      (λ held. record { passed = one; counted = counted.0; static = counted.1 })

input_turn-IsPassed :
    (t : Turn) (r : Received) (p : Pair)
    → IsStatic p
    → IsWhole t.rounds r
    → IsPassed (bytes r) p (input_turn t r p).0 × ((input_turn t r p).1 ≡ goes_on r t.gave_up)
unfolding input_turn close_input free_input
input_turn-IsPassed t select_failed p h w = (IsPassed-nil p h, refl)
input_turn-IsPassed t quiet p h w = (IsPassed-nil p h, refl)
input_turn-IsPassed t ended p h w = (IsPassed-nil p h, refl)
input_turn-IsPassed t tls_failed p h w =
    let same = IsPassed-nil p h in
    (record { passed = same.passed; counted = same.counted; static = same.static }, refl)
input_turn-IsPassed t (chunk c) p h w = (pass_on-IsPassed t c p h w.0 w.1, refl)

IsPassed-branch :
    (b : Bool) (xs ys : Str) (p q : Pair) (r : Pair × Bool)
    → IsPassed xs p q
    → IsPassed ys q r.0
    → IsPassed (xs ++ (if b then ys else [])) p (if b then r else (q, true)).0
IsPassed-branch true xs ys p q r first rest = IsPassed-trans xs ys p q r.0 first rest
IsPassed-branch false xs ys p q r first rest =
    subst (λ s. IsPassed s p q) (sym (append-nil xs)) first

input_turns-IsPassed :
    (ts : List Turn) (p : Pair)
    → IsStatic p
    → AllWhole ts
    → IsPassed (stream ts) p (input_turns ts p).0
unfolding input_turns stream
input_turns-IsPassed [] p h w = IsPassed-nil p h
input_turns-IsPassed (t ∷ ts) p h w =
    let first = input_turn-IsPassed t t.received p h w.0 in
    let after = (input_turn t t.received p).0 in
    let on = (input_turn t t.received p).1 in
    let rest =
      input_turns-IsPassed ts after (IsPassed-IsStatic (bytes t.received) p after first.0) w.1 in
    subst
      (λ b.
        IsPassed (bytes t.received ++ (if b then stream ts else [])) p
          (if on then input_turns ts after else (after, true)).0)
      first.1
      (IsPassed-branch on (bytes t.received) (stream ts) p after (input_turns ts after) first.0
        rest)

-- What neither the handshake nor the counting of connections changes.
record IsSame (p q : Pair) : Type 0 where
  passed : q.to_output ≡ p.to_output
  counted : q.served.statistics.bytes_received ≡ p.served.statistics.bytes_received
  static : q.served.server ≡ p.served.server

IsSame-refl : (p : Pair) → IsSame p p
IsSame-refl p = record { passed = refl; counted = refl; static = refl }

handshake_input-IsSame : (h : Handshake) (p : Pair) → IsSame p (handshake_input h p).0
unfolding handshake_input close_input free_input
handshake_input-IsSame no_context p = record { passed = refl; counted = refl; static = refl }
handshake_input-IsSame no_object p = record { passed = refl; counted = refl; static = refl }
handshake_input-IsSame (failed ssl) p = record { passed = refl; counted = refl; static = refl }
handshake_input-IsSame (established ssl) p = record { passed = refl; counted = refl; static = refl }

shake_input-IsSame : (h : Handshake) (p : Pair) → IsSame p (shake_input h p).0
unfolding shake_input
shake_input-IsSame h p =
    if-cases (λ r. IsSame p r.0) p.served.server.enable_input_ssl (handshake_input h p) (p, true)
      (λ tls. handshake_input-IsSame h p) (λ plain. IsSame-refl p)

count_connection-IsSame : (step : ℕ) (p : Pair) → IsSame p (count_connection step p)
unfolding count_connection
count_connection-IsSame step p =
    if-cases (IsSame p) p.served.server.is_dynamic_port p _ (λ dynamic. IsSame-refl p)
      (λ static. record { passed = refl; counted = refl; static = refl })

finish_input-IsSame : (p : Pair) → IsSame p (finish_input p)
unfolding finish_input close_input free_input
finish_input-IsSame p =
    let h = count_connection-IsSame (u32 - 1) (record (close_input (free_input p)) {
      close_output_socket = true;
      is_input_connected = false;
    }) in
    record { passed = h.passed; counted = h.counted; static = h.static }

IsSame-trans : (p q r : Pair) → IsSame p q → IsSame q r → IsSame p r
IsSame-trans p q r a b = record {
  passed = b.passed ∙ a.passed;
  counted = b.counted ∙ a.counted;
  static = b.static ∙ a.static;
}

IsPassed-between :
    (sent : Str) (p q r s : Pair) → IsSame p q → IsPassed sent q r → IsSame r s → IsPassed sent p s
IsPassed-between sent p q r s a b c = record {
  passed = c.passed ∙ b.passed ∙ ap (λ o. o ++ sent) a.passed;
  counted = ground (arith, a.counted, b.counted, c.counted);
  static = ap (λ v. v.is_dynamic_port) c.static ∙ b.static;
}

-- Let the handshake of an input connection succeed, where it has one, and let each chunk that is read be
-- written whole by honest writes, for a server that is not one of a device. Then the output side has been
-- handed exactly what the input side has sent up to the round that ended the loop, in order, nothing
-- missing and nothing twice, behind what it had before; and these bytes, no more and no fewer, have
-- been added to the bytes received of the server, modulo 2^64. It holds while the handler runs and when
-- it has returned.
pub connection_input_handler-IsPassed :
    (h : Handshake) (ts : List Turn) (p : Pair)
    → IsStatic p
    → AllWhole ts
    → (shake_input h (record p { is_input_connected = true })).1 ≡ true
    → IsPassed (stream ts) p (connection_input_handler h ts p).0
unfolding connection_input_handler
connection_input_handler-IsPassed h ts p static whole on =
    let started : Pair = record p { is_input_connected = true } in
    let shaken = shake_input h started in
    let counted = count_connection 1 shaken.0 in
    let looped = input_turns ts counted in
    let start : IsSame p started = record { passed = refl; counted = refl; static = refl } in
    let same =
      IsSame-trans p shaken.0 counted
        (IsSame-trans p started shaken.0 start (shake_input-IsSame h started))
        (count_connection-IsSame 1 shaken.0) in
    let ready : IsStatic counted = record {
      small = ground (arith, static.small, same.counted);
      static = ap (λ v. v.is_dynamic_port) same.static ∙ static.static;
    } in
    let passed = input_turns-IsPassed ts counted ready whole in
    if-cases (λ r. IsPassed (stream ts) p r.0) (not shaken.1) (shaken.0, true)
      (if looped.1 then (finish_input looped.0, true) else looped)
      (λ back. absurd (ground (arith, back, on)))
      (λ forth.
        if-cases (λ r. IsPassed (stream ts) p r.0) looped.1 (finish_input looped.0, true) looped
          (λ done.
            IsPassed-between (stream ts) p counted looped.0 (finish_input looped.0) same passed
              (finish_input-IsSame looped.0))
          (λ runs.
            IsPassed-between (stream ts) p counted looped.0 looped.0 same passed
              (IsSame-refl looped.0)))
