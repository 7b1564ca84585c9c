-- ===== src/Client/Writer/Flags.antt =====
-- The flag `is_starting_output` that `server_output_thread` of client/proxy/client/proxy_client.c leaves.
use net_port.Base.{
  not, ◌&&◌, ◌≡◌, refl, Bool, true, false, List, [], ◌∷◌, some, All, if-cases, arith,
}
use net_port.Client.Side.{
  Side, Handshake, no_object, failed, established, Received, told_to_stop, timed_out, select_failed,
  quiet, hung_up, tls_failed, chunk, Turn, After, returns, open_side, return_side, shake_side,
  turns_of,
}
use net_port.Client.Side.Laws.{Fits, and_then-Fits, behind_loop-Fits, turns_of-Fits}
use net_port.Client.Writer.{
  Target, no_target, refused, reached, Run, writer_turn, return_after, start_output_tls,
  finish_writer, write_loop, reach_target,
}

abbrev pub Any : Turn → Type 0
Any t = Unit

pub All-Any : (ts : List Turn) → All Any ts
All-Any [] = tt
All-Any (t ∷ ts) = (tt, All-Any ts)

-- The thread ends before its loop and sees no stop: the target is not reached, or the handshake fails.
unfoldable pub fails : Handshake → Bool
fails (established ssl) = false
fails _ = true

unfoldable pub fails_to_start : Bool → Run → Target → Bool
fails_to_start tls x (reached fd) =
    tls && not x.stop_before_tls && fails x.handshake && not x.stop_in_pause
fails_to_start tls x _ = true

-- Where the thread returns, `is_starting_output` is cleared, unless it failed to start.
abbrev pub Settled : Side → After → Type 0
Settled s returns = s.is_starting ≡ false
Settled s _ = Unit

writer_turn-Settled : (t : Turn) (r : Received) (s : Side) → Fits Settled (writer_turn t r s)
unfolding writer_turn
writer_turn-Settled t told_to_stop s = tt
writer_turn-Settled t timed_out s = tt
writer_turn-Settled t select_failed s = tt
writer_turn-Settled t quiet s = tt
writer_turn-Settled t hung_up s = tt
writer_turn-Settled t tls_failed s = tt
writer_turn-Settled t (chunk c) s = if-cases (Fits Settled) t.other_runs _ _ (λ on. tt) (λ off. tt)

write_loop-Settled : (tls : Bool) (x : Run) (s : Side) → Fits Settled (write_loop tls x s)
unfolding write_loop finish_writer
write_loop-Settled tls x s =
    let begun : Side = record s { is_running = true; is_starting = false } in
    behind_loop-Fits Settled (turns_of writer_turn x.turns begun) (finish_writer tls)
      (turns_of-Fits Settled Any writer_turn (λ t s' any h. writer_turn-Settled t t.received s')
        x.turns begun (All-Any x.turns) tt)
      (λ s' h. refl)

shake_side-Settled :
    (h : Handshake) (stop : Bool) (s : Side)
    → (fails h && not stop) ≡ false
    → Fits Settled (return_after stop (shake_side h s))
unfolding return_after shake_side return_side fails
shake_side-Settled no_object true s starts = refl
shake_side-Settled no_object false s starts = absurd (cc)
shake_side-Settled (failed ssl) true s starts = refl
shake_side-Settled (failed ssl) false s starts = absurd (cc)
shake_side-Settled (established ssl) stop s starts = tt

start_output_tls-Settled :
    (tls : Bool) (x : Run) (s : Side)
    → (tls && not x.stop_before_tls && fails x.handshake && not x.stop_in_pause) ≡ false
    → Fits Settled (start_output_tls tls x s)
unfolding start_output_tls return_side
start_output_tls-Settled false x s starts = tt
start_output_tls-Settled true x s starts =
    if-cases (Fits Settled) x.stop_before_tls _ _ (λ stop. refl)
      (λ more. shake_side-Settled x.handshake x.stop_in_pause s (ground (arith, more, starts)))

pub server_output_thread-Settled :
    (tls : Bool) (x : Run) (g : Target) (s : Side)
    → fails_to_start tls x g ≡ false
    → Fits Settled (reach_target tls x g s)
unfolding reach_target fails_to_start
server_output_thread-Settled tls x (no_target left) s starts = absurd (cc)
server_output_thread-Settled tls x (refused fd) s starts = absurd (cc)
server_output_thread-Settled tls x (reached fd) s starts =
    and_then-Fits Settled (start_output_tls tls x (open_side (some fd) s)) (write_loop tls x)
      (start_output_tls-Settled tls x (open_side (some fd) s) starts)
      (λ s' h. write_loop-Settled tls x s')
