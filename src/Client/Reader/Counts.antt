-- ===== src/Client/Reader/Counts.antt =====
-- What `server_input_thread` of client/proxy/client/proxy_client.c counts.
use net_port.Base.{
  ◌+◌, ◌≤◌, ◌≡◌, refl, ap, ◌∙◌, Bool, true, false, not, List, [], ◌∷◌, none, length, length-append,
  All, if-cases, arith,
}
use net_port.Client.Connect.{Ending, connected, stopped, unfinished, connect_round, connect_loop}
use net_port.Client.Connect
use net_port.Client.Exchange.{Counters}
use net_port.Client.Pump.{to_target}
use net_port.Client.Pump.Laws.{HonestWrites, to_target-counts}
use net_port.Client.Side.{
  Side, no_object, failed, established, Handshake, Received, told_to_stop, timed_out, select_failed,
  quiet, hung_up, tls_failed, chunk, Turn, After, goes_on, leaves, restarts, returns, open_side,
  close_side, free_side, return_side, shake_side, turns_of,
}
use net_port.Client.Side.Laws.{Fits, and_then-Fits, behind_loop-Fits, turns_of-Fits}
use net_port.Client.Reader.{
  Socket, no_socket, ready, Session, start_output, give_up, reader_turn, pause_after, start_tls,
  as_running, finish_reader, read_loop, attempt_side, round_side, connect_side, step_cases,
  after_connect, open_session, session, go_round, server_input_thread,
}

-- From one state to a later one the received bytes grow by at most the bytes written, and the sent bytes
-- do not change.
pub record IsCounted (p s : Side) : Type 0 where
  pub at_most :
      s.counters.bytes_received + length p.written ≤ p.counters.bytes_received + length s.written
  pub sent_same : s.counters.bytes_sent ≡ p.counters.bytes_sent

IsCounted-refl : (p : Side) → IsCounted p p
IsCounted-refl p = record { at_most = omega arith; sent_same = refl }

IsCounted-trans : (p q r : Side) → IsCounted p q → IsCounted q r → IsCounted p r
IsCounted-trans p q r a b = record {
  at_most = omega (arith, a.at_most, b.at_most);
  sent_same = b.sent_same ∙ a.sent_same;
}

-- The same counters and the same output.
IsCounted-same : (p s : Side) → s.counters ≡ p.counters → s.written ≡ p.written → IsCounted p s
IsCounted-same p s counters written = record {
  at_most = rw (counters, written) (omega arith);
  sent_same = ap (λ (k : Counters). k.bytes_sent) counters;
}

abbrev Counted : Side → Side → After → Type 0
Counted p s e = IsCounted p s

-- No write takes more than it is offered.
abbrev pub HonestReceived : Turn → Received → Type 0
HonestReceived t (chunk c) = HonestWrites (length c) t.writes
HonestReceived t _ = Unit

abbrev pub HonestTurn : Turn → Type 0
HonestTurn t = HonestReceived t t.received

abbrev pub HonestSession : Session → Type 0
HonestSession x = All HonestTurn x.turns

start_output-IsCounted : (idle : Bool) (s : Side) → IsCounted s (start_output idle s)
unfolding start_output
start_output-IsCounted true s = IsCounted-same s _ refl refl
start_output-IsCounted false s = IsCounted-refl s

reader_turn-IsCounted :
    (t : Turn) (r : Received) (s : Side) → HonestReceived t r → IsCounted s (reader_turn t r s).0
unfolding reader_turn free_side give_up close_side start_output
reader_turn-IsCounted t told_to_stop s honest = IsCounted-refl s
reader_turn-IsCounted t timed_out s honest = IsCounted-same s _ refl refl
reader_turn-IsCounted t select_failed s honest = IsCounted-refl s
reader_turn-IsCounted t quiet s honest = IsCounted-refl s
reader_turn-IsCounted t hung_up s honest = IsCounted-same s _ refl refl
reader_turn-IsCounted t tls_failed s honest = IsCounted-same s _ refl refl
reader_turn-IsCounted t (chunk c) s honest =
    let counts = to_target-counts c t.writes s.counters honest in
    let size = length-append s.written (to_target c t.writes s.counters).0.written in
    if-cases (Fits (Counted s)) t.other_runs _ _
      (λ on. record { at_most = omega (arith, counts.0, size); sent_same = counts.1 })
      (λ off. start_output-IsCounted t.other_idle s)

pause_after-IsCounted :
    (h : Handshake) (stop : Bool) (s : Side) → IsCounted s (pause_after stop (shake_side h s)).0
unfolding pause_after shake_side return_side close_side free_side
pause_after-IsCounted no_object true s = IsCounted-same s _ refl refl
pause_after-IsCounted no_object false s = IsCounted-same s _ refl refl
pause_after-IsCounted (failed ssl) true s = IsCounted-same s _ refl refl
pause_after-IsCounted (failed ssl) false s = IsCounted-same s _ refl refl
pause_after-IsCounted (established ssl) stop s = IsCounted-same s _ refl refl

start_tls-IsCounted : (tls : Bool) (x : Session) (s : Side) → IsCounted s (start_tls tls x s).0
unfolding start_tls return_side close_side
start_tls-IsCounted tls x s =
    if-cases (Fits (Counted s)) (not tls) _ _ (λ plain. IsCounted-refl s)
      (λ on.
        if-cases (Fits (Counted s)) x.stop_before_tls _ _ (λ stop. IsCounted-same s _ refl refl)
          (λ more. pause_after-IsCounted x.handshake x.stop_in_pause s))

finish_reader-IsCounted : (tls stop : Bool) (s : Side) → IsCounted s (finish_reader tls stop s).0
unfolding finish_reader close_side free_side
finish_reader-IsCounted true true s = IsCounted-same s _ refl refl
finish_reader-IsCounted true false s = IsCounted-same s _ refl refl
finish_reader-IsCounted false true s = IsCounted-same s _ refl refl
finish_reader-IsCounted false false s = IsCounted-same s _ refl refl

read_loop-IsCounted :
    (tls : Bool) (x : Session) (s : Side) → HonestSession x → IsCounted s (read_loop tls x s).0
unfolding read_loop
read_loop-IsCounted tls x s honest =
    let begun : Side = as_running s in
    behind_loop-Fits (Counted s) (turns_of reader_turn x.turns begun)
      (finish_reader tls x.stop_at_end)
      (turns_of-Fits (Counted s) HonestTurn reader_turn
        (λ t s' each h.
          IsCounted-trans s s' (reader_turn t t.received s').0 h
            (reader_turn-IsCounted t t.received s' each))
        x.turns begun honest (IsCounted-same s begun refl refl))
      (λ s' h.
        IsCounted-trans s s' (finish_reader tls x.stop_at_end s').0 h
          (finish_reader-IsCounted tls x.stop_at_end s'))

after_connect-IsCounted :
    (tls : Bool) (x : Session) (e : Ending) (s : Side)
    → HonestSession x
    → IsCounted s (after_connect tls x e s).0
unfolding after_connect return_side close_side
after_connect-IsCounted tls x (connected r) s honest =
    and_then-Fits (Counted s) (start_tls tls x s) (read_loop tls x) (start_tls-IsCounted tls x s)
      (λ s' h. IsCounted-trans s s' (read_loop tls x s').0 h (read_loop-IsCounted tls x s' honest))
after_connect-IsCounted tls x stopped s honest = IsCounted-same s _ refl refl
after_connect-IsCounted tls x unfinished s honest = IsCounted-refl s

attempt_side-IsCounted : (r : Connect.Round) (s : Side) → IsCounted s (attempt_side r s)
unfolding attempt_side close_side open_side
attempt_side-IsCounted r s =
    if-cases (IsCounted s) r.connects _ _ (λ up. IsCounted-refl s)
      (λ down.
        if-cases (IsCounted s) r.stop_in_sleep _ _ (λ stop. IsCounted-same s _ refl refl)
          (λ more. IsCounted-same s _ refl refl))

round_side-IsCounted : (r : Connect.Round) (s : Side) → IsCounted s (round_side r s)
unfolding round_side close_side open_side
round_side-IsCounted r s =
    let opened : Side = open_side r.reopened_fd (close_side s) in
    let reopened : IsCounted s opened = IsCounted-same s opened refl refl in
    if-cases (IsCounted s) r.stop_at_head _ _ (λ stop. IsCounted-refl s)
      (λ go.
        if-cases (IsCounted s) (not r.revoked) _ _ (λ allowed. attempt_side-IsCounted r s)
          (λ revoked.
            if-cases (IsCounted s) r.stop_in_pause _ _ (λ stop. IsCounted-refl s)
              (λ waited.
                if-cases (IsCounted s) r.still_revoked _ _ (λ still. IsCounted-refl s)
                  (λ lifted.
                    if-cases (IsCounted s) r.reopened _ _
                      (λ up.
                        IsCounted-trans s opened (attempt_side r opened) reopened
                          (attempt_side-IsCounted r opened))
                      (λ down. reopened)))))

connect_side-IsCounted : (rs : List Connect.Round) (s : Side) → IsCounted s (connect_side rs s)
unfolding connect_side
connect_side-IsCounted [] s = IsCounted-refl s
connect_side-IsCounted (r ∷ rs) s =
    let after : Side = round_side r s in
    let first = round_side-IsCounted r s in
    step_cases (IsCounted s) (connect_round 1 r) after (connect_side rs after) first
      (IsCounted-trans s after (connect_side rs after) first (connect_side-IsCounted rs after))

open_session-IsCounted :
    (tls : Bool) (x : Session) (k : Socket) (s : Side)
    → HonestSession x
    → IsCounted s (open_session tls x k s).0
unfolding open_session open_side
open_session-IsCounted tls x (no_socket left) s honest = IsCounted-same s _ refl refl
open_session-IsCounted tls x (ready fd) s honest =
    let opened : Side = connect_side x.rounds (open_side fd s) in
    IsCounted-trans s opened (after_connect tls x (connect_loop 1 x.rounds).1 opened).0
      (IsCounted-trans s (open_side fd s) opened (IsCounted-same s (open_side fd s) refl refl)
        (connect_side-IsCounted x.rounds (open_side fd s)))
      (after_connect-IsCounted tls x (connect_loop 1 x.rounds).1 opened honest)

session-IsCounted :
    (tls : Bool) (x : Session) (s : Side) → HonestSession x → IsCounted s (session tls x s).0
unfolding session return_side close_side
session-IsCounted tls x s honest =
    let head : Side = record s { fd = none } in
    if-cases (Fits (Counted s)) x.stop_at_head _ _ (λ stop. IsCounted-same s _ refl refl)
      (λ go.
        IsCounted-trans s head (open_session tls x x.socket head).0
          (IsCounted-same s head refl refl) (open_session-IsCounted tls x x.socket head honest))

go_round-IsCounted :
    (p : Side) (r : Side × After) (f : Side → Side × After)
    → IsCounted p r.0
    → ((s : Side) → IsCounted s (f s).0)
    → IsCounted p (go_round r f).0
unfolding go_round
go_round-IsCounted p (s, goes_on) f h next = h
go_round-IsCounted p (s, leaves) f h next = h
go_round-IsCounted p (s, restarts) f h next = IsCounted-trans p s (f s).0 h (next s)
go_round-IsCounted p (s, returns) f h next = h

-- However often the thread connects again, it counts no byte that it has not written: over its whole run
-- the received bytes grow by at most the number of bytes that were written to the target, and the sent
-- bytes not at all. No write takes more than it is offered.
pub server_input_thread-IsCounted :
    (tls : Bool) (xs : List Session) (s : Side)
    → All HonestSession xs
    → IsCounted s (server_input_thread tls xs s).0
unfolding server_input_thread
server_input_thread-IsCounted tls [] s honest = IsCounted-refl s
server_input_thread-IsCounted tls (x ∷ xs) s honest =
    go_round-IsCounted s (session tls x s) (server_input_thread tls xs)
      (session-IsCounted tls x s honest.0) (λ s'. server_input_thread-IsCounted tls xs s' honest.1)
