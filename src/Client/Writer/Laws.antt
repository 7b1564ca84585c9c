-- ===== src/Client/Writer/Laws.antt =====
-- What `server_output_thread` of client/proxy/client/proxy_client.c leaves when it returns.
use net_port.Base.{
  ◌⊎◌, inl, inr, Bool-cases, ℕ, ◌≡◌, refl, sym, ap, ◌∙◌, Bool, true, false, List, [], ◌∷◌, ◌++◌,
  Option, none, some, if-cases, arith,
}
use mathlib.Core.Path.{subst}
use mathlib.Core.List.{append-nil}
use net_port.Proxy.Dynamic.Stop.{descriptor}
use net_port.Client.Side.{
  Side, Handshake, no_object, failed, established, Received, told_to_stop, timed_out, select_failed,
  quiet, hung_up, tls_failed, chunk, Turn, After, goes_on, leaves, restarts, returns, open_side,
  close_side, free_side, return_side, shake_side, turns_of,
}
use net_port.Client.Side.Laws.{
  Fits, and_then-Fits, behind_loop-Fits, turns_of-Fits, IsTidy, IsTlsTidy, close_side-IsTidy,
  free_side-IsTlsTidy,
}
use net_port.Client.Writer.Flags.{
  Any, All-Any, fails_to_start, Settled, server_output_thread-Settled,
}
use net_port.Client.Writer.{
  Target, no_target, refused, reached, Run, writer_turn, return_after, start_output_tls,
  finish_writer, write_loop, reach_target, server_output_thread,
}

-- Descriptors and TLS objects are in order; with TLS off there is no object.
pub record IsKept (tls : Bool) (s : Side) : Type 0 where
  tidy : IsTidy s
  tls_tidy : IsTlsTidy s
  plain : tls ≡ false → s.ssl ≡ none

-- No thread: nothing is open, all is closed and freed, and the flag says so.
pub record IsAtRest (s : Side) : Type 0 where
  pub shut : s.fd ≡ none
  pub no_tls : s.ssl ≡ none
  pub all_closed : s.closed ≡ s.opened
  pub all_freed : s.freed ≡ s.made
  pub not_running : s.is_running ≡ false

abbrev Through : Bool → Side → After → Type 0
Through tls s goes_on = IsKept tls s
Through tls s leaves = IsKept tls s
Through tls s restarts = IsAtRest s
Through tls s returns = IsAtRest s

writer_turn-Through :
    (tls : Bool) (t : Turn) (r : Received) (s : Side)
    → IsKept tls s
    → Fits (Through tls) (writer_turn t r s)
unfolding writer_turn free_side
writer_turn-Through tls t told_to_stop s kept = kept
writer_turn-Through tls t timed_out s kept = kept
writer_turn-Through tls t select_failed s kept = kept
writer_turn-Through tls t quiet s kept = kept
writer_turn-Through tls t hung_up s kept = kept
writer_turn-Through tls t tls_failed s kept = record {
  tidy = kept.tidy;
  tls_tidy = free_side-IsTlsTidy s kept.tls_tidy;
  plain = λ off. refl;
}
writer_turn-Through tls t (chunk c) s kept =
    if-cases (Fits (Through tls)) t.other_runs _ _
      (λ on. record { tidy = kept.tidy; tls_tidy = kept.tls_tidy; plain = kept.plain })
      (λ off. kept)

-- Nothing is open and no object is held, but the flags may be set.
IsAtRest-from :
    (s : Side)
    → IsTidy s
    → IsTlsTidy s
    → s.fd ≡ none
    → s.ssl ≡ none
    → s.is_running ≡ false
    → IsAtRest s
IsAtRest-from s tidy tls_tidy shut no_tls still = record {
  shut = shut;
  no_tls = no_tls;
  all_closed =
      sym (append-nil s.closed) ∙ ap (λ (o : Option ℕ). s.closed ++ descriptor o) (sym shut) ∙ tidy;
  all_freed =
      sym (append-nil s.freed)
      ∙ ap (λ (o : Option ℕ). s.freed ++ descriptor o) (sym no_tls)
      ∙ tls_tidy;
  not_running = still;
}

-- A thread that returns and clears its flags.
return_side-IsAtRest : (s : Side) → IsTidy s → IsTlsTidy s → s.ssl ≡ none → IsAtRest (return_side s)
unfolding return_side close_side
return_side-IsAtRest s tidy tls_tidy no_tls =
    IsAtRest-from (return_side s) (close_side-IsTidy s tidy) tls_tidy refl no_tls refl

return_after-IsAtRest :
    (tls stop : Bool) (s : Side) → IsAtRest s → Fits (Through tls) (return_after stop (s, false))
unfolding return_after
return_after-IsAtRest tls false s rest = rest
return_after-IsAtRest tls true s rest =
    return_side-IsAtRest s
      (subst (λ (o : Option ℕ). s.closed ++ descriptor o ≡ s.opened) (sym rest.shut)
        (append-nil s.closed ∙ rest.all_closed))
      (subst (λ (o : Option ℕ). s.freed ++ descriptor o ≡ s.made) (sym rest.no_tls)
        (append-nil s.freed ∙ rest.all_freed))
      rest.no_tls

-- A thread that has opened its descriptor and holds no TLS object.
record IsOpen (s : Side) : Type 0 where
  tidy : IsTidy s
  all_freed : s.freed ≡ s.made
  no_tls : s.ssl ≡ none
  still : s.is_running ≡ false

IsOpen-IsTlsTidy : (s : Side) → IsOpen s → IsTlsTidy s
IsOpen-IsTlsTidy s open_ =
    subst (λ (o : Option ℕ). s.freed ++ descriptor o ≡ s.made) (sym open_.no_tls)
      (append-nil s.freed ∙ open_.all_freed)

shake_side-Through :
    (h : Handshake) (stop : Bool) (s : Side)
    → IsOpen s
    → Fits (Through true) (return_after stop (shake_side h s))
unfolding shake_side close_side free_side return_after
shake_side-Through no_object stop s open_ =
    return_after-IsAtRest true stop (record (close_side s) { ssl = none })
      (record {
        shut = refl;
        no_tls = refl;
        all_closed = open_.tidy;
        all_freed = open_.all_freed;
        not_running = open_.still;
      })
shake_side-Through (failed ssl) stop s open_ =
    return_after-IsAtRest true stop
      (close_side (free_side (record s { ssl = some ssl; made = s.made ++ (ssl ∷ []) })))
      (record {
        shut = refl;
        no_tls = refl;
        all_closed = open_.tidy;
        all_freed = ap (λ (l : List ℕ). l ++ (ssl ∷ [])) open_.all_freed;
        not_running = open_.still;
      })
shake_side-Through (established ssl) stop s open_ = record {
  tidy = open_.tidy;
  tls_tidy = ap (λ (l : List ℕ). l ++ (ssl ∷ [])) open_.all_freed;
  plain = λ off. ground (arith, off);
}

start_output_tls-Through :
    (tls : Bool) (x : Run) (s : Side) → IsOpen s → Fits (Through tls) (start_output_tls tls x s)
unfolding start_output_tls
start_output_tls-Through false x s open_ = record {
  tidy = open_.tidy;
  tls_tidy = IsOpen-IsTlsTidy s open_;
  plain = λ off. open_.no_tls;
}
start_output_tls-Through true x s open_ =
    if-cases (Fits (Through true)) x.stop_before_tls _ _
      (λ stop. return_side-IsAtRest s open_.tidy (IsOpen-IsTlsTidy s open_) open_.no_tls)
      (λ more. shake_side-Through x.handshake x.stop_in_pause s open_)

finish_writer-Through :
    (tls : Bool) (s : Side) → IsKept tls s → Fits (Through tls) (finish_writer tls s)
unfolding finish_writer close_side free_side
finish_writer-Through true s kept =
    IsAtRest-from (finish_writer true s).0 (close_side-IsTidy (free_side s) kept.tidy)
      (free_side-IsTlsTidy s kept.tls_tidy) refl refl refl
finish_writer-Through false s kept =
    IsAtRest-from (finish_writer false s).0 (close_side-IsTidy s kept.tidy) kept.tls_tidy refl
      (kept.plain refl) refl

write_loop-Through :
    (tls : Bool) (x : Run) (s : Side) → IsKept tls s → Fits (Through tls) (write_loop tls x s)
unfolding write_loop
write_loop-Through tls x s kept =
    let begun : Side = record s { is_running = true; is_starting = false } in
    let as_begun : IsKept tls begun = record {
      tidy = kept.tidy;
      tls_tidy = kept.tls_tidy;
      plain = kept.plain;
    } in
    behind_loop-Fits (Through tls) (turns_of writer_turn x.turns begun) (finish_writer tls)
      (turns_of-Fits (Through tls) Any writer_turn
        (λ t s' any h. writer_turn-Through tls t t.received s' h) x.turns begun (All-Any x.turns)
        as_begun)
      (λ s' h. finish_writer-Through tls s' h)

open_side-IsOpen : (fd : ℕ) (s : Side) → IsAtRest s → IsOpen (open_side (some fd) s)
unfolding open_side
open_side-IsOpen fd s rest = record {
  tidy = ap (λ (l : List ℕ). l ++ (fd ∷ [])) rest.all_closed;
  all_freed = rest.all_freed;
  no_tls = rest.no_tls;
  still = rest.not_running;
}

-- A socket that cannot be set up is not left open.
abbrev pub NothingLeft : Target → Type 0
NothingLeft (no_target left) = left ≡ none
NothingLeft (refused fd) = Unit
NothingLeft (reached fd) = Unit

reach_target-Through :
    (tls : Bool) (x : Run) (g : Target) (s : Side)
    → NothingLeft g
    → IsAtRest s
    → Fits (Through tls) (reach_target tls x g s)
unfolding reach_target close_side open_side
reach_target-Through tls x (no_target left) s nothing rest =
    subst (λ (o : Option ℕ). IsAtRest (record (open_side o s) { is_running = false })) (sym nothing)
      (record {
        shut = refl;
        no_tls = rest.no_tls;
        all_closed = rest.all_closed ∙ sym (append-nil s.opened);
        all_freed = rest.all_freed;
        not_running = refl;
      })
reach_target-Through tls x (refused fd) s nothing rest = record {
  shut = refl;
  no_tls = rest.no_tls;
  all_closed = (open_side-IsOpen fd s rest).tidy;
  all_freed = rest.all_freed;
  not_running = refl;
}
reach_target-Through tls x (reached fd) s nothing rest =
    and_then-Fits (Through tls) (start_output_tls tls x (open_side (some fd) s)) (write_loop tls x)
      (start_output_tls-Through tls x (open_side (some fd) s) (open_side-IsOpen fd s rest))
      (λ s' h. write_loop-Through tls x s' h)

-- Wherever it fails, is stopped or comes to its end: where the thread returns, no descriptor and no TLS
-- object of its side is held, each that it has had is closed or freed, once and in order, and
-- `is_running_output` is clear; and `is_starting_output` is clear too, unless the target was not reached
-- or the handshake failed without a stop being seen. When the thread was started, nothing was held and
-- all was closed and freed; and a socket that cannot be set up is not left open.
pub server_output_thread-IsAtRest :
    (tls : Bool) (x : Run) (s : Side)
    → NothingLeft x.target
    → IsAtRest s
    → (server_output_thread tls x s).1 ≡ returns
    → IsAtRest (server_output_thread tls x s).0
      × ((fails_to_start tls x x.target ≡ true)
          ⊎ ((server_output_thread tls x s).0.is_starting ≡ false))
unfolding server_output_thread
server_output_thread-IsAtRest tls x s nothing rest returned = (
  subst (Through tls (server_output_thread tls x s).0) returned
      (reach_target-Through tls x x.target s nothing rest),
  elim (Bool-cases (fails_to_start tls x x.target)) [
    | inl failed_ ↦ inl failed_
    | inr starts ↦ inr (
        subst (Settled (server_output_thread tls x s).0) returned
          (server_output_thread-Settled tls x x.target s starts))
  ],
)
