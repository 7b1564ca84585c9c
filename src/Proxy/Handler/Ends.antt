-- ===== src/Proxy/Handler/Ends.antt =====
-- What a handler of server/proxy/server/proxy_server.c leaves when it has returned.
use net_port.Base.{
  ℕ, ◌+◌, ◌-◌, ◌%◌, ◌<◌, ◌≡◌, refl, ap, ◌∙◌, inl, inr, Bool, true, false, not, List, [], ◌∷◌, ◌++◌,
  none, Str, length, if◌then◌else◌, arith, Bool-cases, if-cases,
}
use mathlib.Core.List.{append-nil}
use net_port.Proxy.Dynamic.Stop.{descriptor}
use net_port.Switcher.{SwitcherServer}
use net_port.Switcher.Totals.{update_server_statistics}
use net_port.Proxy.Handler.{
  Pair, Handshake, no_context, no_object, failed, established, Received, select_failed, quiet,
  ended, tls_failed, chunk, Turn, close_input, free_input, free_output, handshake_input, u32,
  count_connection, count_bytes, pass_on, input_turn, input_turns, finish_input,
  connection_input_handler, shake_input,
}

-- The descriptor of the input side, closed or still open.
abbrev pub spent : Pair → List ℕ
spent p = p.closed ++ descriptor p.input_local

-- What no round of the input handler changes.
record IsKept (p q : Pair) : Type 0 where
  spent_same : spent q ≡ spent p
  count_same : q.served.statistics.connections_count ≡ p.served.statistics.connections_count
  server_same : q.served.server ≡ p.served.server

IsKept-refl : (p : Pair) → IsKept p p
IsKept-refl p = record { spent_same = refl; count_same = refl; server_same = refl }

IsKept-trans : (p q r : Pair) → IsKept p q → IsKept q r → IsKept p r
IsKept-trans p q r a b = record {
  spent_same = b.spent_same ∙ a.spent_same;
  count_same = b.count_same ∙ a.count_same;
  server_same = b.server_same ∙ a.server_same;
}

update_server_statistics-kept :
    (now received sent : ℕ) (s : SwitcherServer) (servers : List SwitcherServer)
    → ((update_server_statistics now received sent s servers).0.statistics.connections_count
        ≡ s.statistics.connections_count)
      × ((update_server_statistics now received sent s servers).0.server ≡ s.server)
unfolding update_server_statistics
update_server_statistics-kept now received sent s servers = ground arith

count_bytes-IsKept : (now received sent : ℕ) (p : Pair) → IsKept p (count_bytes now received sent p)
unfolding count_bytes
count_bytes-IsKept now received sent p =
    let kept = update_server_statistics-kept now received sent p.served p.servers in
    record { spent_same = refl; count_same = kept.0; server_same = kept.1 }

pass_on-IsKept : (t : Turn) (c : Str) (p : Pair) → IsKept p (pass_on t c p)
unfolding pass_on free_output count_bytes
pass_on-IsKept t c p =
    let counted = count_bytes-IsKept t.now (length c) 0 p in
    elim (Bool-cases t.tls_lost) [
      | inl lost ↦ rw lost (record {
        spent_same = refl;
        count_same = counted.count_same;
        server_same = counted.server_same;
      })
      | inr held ↦ rw held (record {
        spent_same = refl;
        count_same = counted.count_same;
        server_same = counted.server_same;
      })
    ]

input_turn-IsKept : (t : Turn) (r : Received) (p : Pair) → IsKept p (input_turn t r p).0
unfolding input_turn free_input close_input
input_turn-IsKept t select_failed p = IsKept-refl p
input_turn-IsKept t quiet p = IsKept-refl p
input_turn-IsKept t ended p = IsKept-refl p
input_turn-IsKept t tls_failed p = record {
  spent_same = append-nil _;
  count_same = refl;
  server_same = refl;
}
input_turn-IsKept t (chunk c) p = pass_on-IsKept t c p

input_turns-IsKept : (ts : List Turn) (p : Pair) → IsKept p (input_turns ts p).0
unfolding input_turns
input_turns-IsKept [] p = IsKept-refl p
input_turns-IsKept (t ∷ ts) p =
    let after = (input_turn t t.received p).0 in
    let first = input_turn-IsKept t t.received p in
    elim (Bool-cases (input_turn t t.received p).1) [
      | inl on ↦
          rw on (IsKept-trans p after (input_turns ts after).0 first (input_turns-IsKept ts after))
      | inr off ↦ rw off first
    ]

-- A handler that has returned: its descriptor is closed, it was closed once, and its TLS object is freed.
pub record IsOver (p q : Pair) : Type 0 where
  pub closed_once : q.closed ≡ spent p
  pub no_tls : q.ssl_input ≡ none
  pub disconnected : q.is_input_connected ≡ false
  pub count_same : q.served.statistics.connections_count ≡ p.served.statistics.connections_count

count_connection_lem :
    (step : ℕ) (p : Pair)
    → (spent (count_connection step p) ≡ spent p)
      × ((count_connection step p).closed ≡ p.closed)
      × ((count_connection step p).ssl_input ≡ p.ssl_input)
      × ((count_connection step p).is_input_connected ≡ p.is_input_connected)
      × ((count_connection step p).served.server ≡ p.served.server)
      × ((count_connection step p).served.statistics.connections_count ≡ (
          if p.served.server.is_dynamic_port
          then p.served.statistics.connections_count
          else (p.served.statistics.connections_count + step) % u32))
unfolding count_connection
count_connection_lem step p = elim (Bool-cases p.served.server.is_dynamic_port) [
  | inl dynamic ↦ ground (arith, dynamic)
  | inr static ↦ ground (arith, static)
]

counted_back :
    (p q : Pair)
    → p.served.statistics.connections_count < u32
    → IsKept (count_connection 1 p) q
    → IsOver p (finish_input q)
unfolding finish_input close_input free_input
counted_back p q small kept =
    let up = count_connection_lem 1 p in
    let left : Pair = record (close_input (free_input q)) {
      close_output_socket = true;
      is_input_connected = false;
    } in
    let down = count_connection_lem (u32 - 1) left in
    let same : q.served.server.is_dynamic_port ≡ p.served.server.is_dynamic_port =
      ap (λ s. s.is_dynamic_port) (kept.server_same ∙ up.4) in
    record {
      closed_once = down.1 ∙ kept.spent_same ∙ up.0;
      no_tls = down.2;
      disconnected = down.3;
      count_same = ground (arith, small, down.5, up.5, same, kept.count_same);
    }

IsOver-disconnected :
    (p q : Pair)
    → q.closed ≡ spent p
    → q.ssl_input ≡ none
    → q.is_input_connected ≡ false
    → q.served ≡ p.served
    → IsOver p q
IsOver-disconnected p q closed tls off served = record {
  closed_once = closed;
  no_tls = tls;
  disconnected = off;
  count_same = ap (λ s. s.statistics.connections_count) served;
}

handshake_input-IsOver :
    (h : Handshake) (p : Pair)
    → p.ssl_input ≡ none
    → (handshake_input h p).1 ≡ false
    → IsOver p (handshake_input h p).0
unfolding handshake_input close_input free_input
handshake_input-IsOver no_context p fresh back = IsOver-disconnected p _ refl fresh refl refl
handshake_input-IsOver no_object p fresh back = IsOver-disconnected p _ refl fresh refl refl
handshake_input-IsOver (failed ssl) p fresh back = IsOver-disconnected p _ refl refl refl refl
handshake_input-IsOver (established ssl) p fresh back = ground (arith, back)

handshake_input-IsKept :
    (h : Handshake) (p : Pair) → (handshake_input h p).1 ≡ true → IsKept p (handshake_input h p).0
unfolding handshake_input
handshake_input-IsKept no_context p on = ground (arith, on)
handshake_input-IsKept no_object p on = ground (arith, on)
handshake_input-IsKept (failed ssl) p on = ground (arith, on)
handshake_input-IsKept (established ssl) p on = record {
  spent_same = refl;
  count_same = refl;
  server_same = refl;
}

shake_input-IsOver :
    (h : Handshake) (p : Pair)
    → p.ssl_input ≡ none
    → (shake_input h p).1 ≡ false
    → IsOver p (shake_input h p).0
unfolding shake_input
shake_input-IsOver h p fresh =
    if-cases (λ r. r.1 ≡ false → IsOver p r.0) p.served.server.enable_input_ssl
      (handshake_input h p) (p, true) (λ tls. handshake_input-IsOver h p fresh)
      (λ plain back. ground (arith, back))

shake_input-IsKept :
    (h : Handshake) (p : Pair) → (shake_input h p).1 ≡ true → IsKept p (shake_input h p).0
unfolding shake_input
shake_input-IsKept h p =
    if-cases (λ r. r.1 ≡ true → IsKept p r.0) p.served.server.enable_input_ssl (handshake_input h p)
      (p, true) (λ tls. handshake_input-IsKept h p) (λ plain on. IsKept-refl p)

IsOver-trans : (p q r : Pair) → IsKept p q → IsOver q r → IsOver p r
IsOver-trans p q r kept over = record {
  closed_once = over.closed_once ∙ kept.spent_same;
  no_tls = over.no_tls;
  disconnected = over.disconnected;
  count_same = over.count_same ∙ kept.count_same;
}

-- However its handshake and its rounds go, an input handler that has returned leaves the pair in order:
-- of what it was given it has closed its descriptor, once and nothing else; there is no TLS object of
-- the input side; the side is not connected; and the number of connections, which is below 2^32, is
-- what it was before. The pair had no TLS object of the input side when the handler was started.
pub connection_input_handler-IsOver :
    (h : Handshake) (ts : List Turn) (p : Pair)
    → p.ssl_input ≡ none
    → p.served.statistics.connections_count < u32
    → (connection_input_handler h ts p).1 ≡ true
    → IsOver p (connection_input_handler h ts p).0
unfolding connection_input_handler
connection_input_handler-IsOver h ts p fresh small =
    let started : Pair = record p { is_input_connected = true } in
    let shaken = shake_input h started in
    let counted = count_connection 1 shaken.0 in
    let looped = input_turns ts counted in
    let P : Pair × Bool → Type 0 = λ r. r.1 ≡ true → IsOver p r.0 in
    let start : IsKept p started = record {
      spent_same = refl;
      count_same = refl;
      server_same = refl;
    } in
    if-cases P (not shaken.1) (shaken.0, true)
      (if looped.1 then (finish_input looped.0, true) else looped)
      (λ back returned.
        IsOver-trans p started shaken.0 start
          (shake_input-IsOver h started fresh (ground (arith, back))))
      (λ on.
        if-cases P looped.1 (finish_input looped.0, true) looped
          (λ done returned.
            let shook = shake_input-IsKept h started (ground (arith, on)) in
            let kept = IsKept-trans p started shaken.0 start shook in
            IsOver-trans p shaken.0 (finish_input looped.0) kept (
              counted_back shaken.0 looped.0 (ground (arith, small, kept.count_same))
                (input_turns-IsKept ts counted)))
          (λ runs returned. ground (arith, runs, returned)))
