-- ===== src/Client/Pump/Laws.antt =====
-- What the write loops of client/proxy/client/proxy_client.c hand over, by way of those of
-- server/proxy/server/proxy_server.c, and what the counters count.
use net_port.Base.{
  ℕ, ◌+◌, ◌-◌, ◌≤◌, ◌≡◌, refl, sym, ◌∙◌, All, ◌⊎◌, inl, inr, Bool, true, false, List, [], ◌∷◌, Str,
  length, length-append, take, drop, arith, length-take_of_le,
}
use mathlib.Core.Path.{subst}
use mathlib.Core.List.{append-nil}
use net_port.Proxy.Forward.{
  Round, End, success, broken, unfinished, Sent, send_loop, accepted, refused,
}
use net_port.Proxy.Forward
use net_port.Proxy.Forward.Laws.{Honest, Delivers, send_loop-Delivers}
use net_port.Client.Exchange.{Counters}
use net_port.Client.Pump.{
  Write, wrote, want, closed, failed, would_block, pump, client_traffic_add_received, to_target,
  to_target_all,
}

-- Rounds of the server's loop that hand over the same bytes; a stop is one that is refused.
unfoldable pub as_rounds : List (Write × Bool) → List Round
as_rounds [] = []
as_rounds ((wrote n, true) ∷ rounds) = accepted n ∷ as_rounds rounds
as_rounds ((wrote n, false) ∷ rounds) = accepted n ∷ refused ∷ []
as_rounds ((want, running) ∷ rounds) = Forward.would_block false running ∷ as_rounds rounds
as_rounds ((closed, running) ∷ rounds) = refused ∷ []
as_rounds ((failed, running) ∷ rounds) = refused ∷ []
as_rounds ((would_block select_failed, running) ∷ rounds) =
    Forward.would_block select_failed running ∷ as_rounds rounds

pump-send_loop :
    (buf : Str) (sent remaining : ℕ) (rounds : List (Write × Bool))
    → pump buf sent remaining rounds ≡ send_loop buf sent remaining (as_rounds rounds)
unfolding pump as_rounds send_loop
pump-send_loop buf sent remaining [] = refl
pump-send_loop buf sent remaining ((wrote n, true) ∷ rounds) =
    rw (pump-send_loop buf (sent + n) (remaining - n) rounds) refl
pump-send_loop buf sent remaining ((wrote n, false) ∷ rounds) =
    rw (append-nil (take n (drop sent buf))) (ground arith)
pump-send_loop buf sent remaining ((want, true) ∷ rounds) = pump-send_loop buf sent remaining rounds
pump-send_loop buf sent remaining ((want, false) ∷ rounds) = refl
pump-send_loop buf sent remaining ((closed, running) ∷ rounds) = refl
pump-send_loop buf sent remaining ((failed, running) ∷ rounds) = refl
pump-send_loop buf sent remaining ((would_block true, running) ∷ rounds) = refl
pump-send_loop buf sent remaining ((would_block false, true) ∷ rounds) =
    pump-send_loop buf sent remaining rounds
pump-send_loop buf sent remaining ((would_block false, false) ∷ rounds) = refl

-- No write takes more than it is offered.
abbrev pub HonestWrites : ℕ → List (Write × Bool) → Type 0
HonestWrites remaining [] = Unit
HonestWrites remaining ((wrote n, running) ∷ rounds) =
    (n ≤ remaining) × HonestWrites (remaining - n) rounds
HonestWrites remaining ((_, running) ∷ rounds) = HonestWrites remaining rounds

as_rounds-Honest :
    (remaining : ℕ) (rounds : List (Write × Bool))
    → HonestWrites remaining rounds
    → Honest remaining (as_rounds rounds)
unfolding as_rounds
as_rounds-Honest remaining [] h = tt
as_rounds-Honest remaining ((wrote n, true) ∷ rounds) h =
    (h.0, as_rounds-Honest (remaining - n) rounds h.1)
as_rounds-Honest remaining ((wrote n, false) ∷ rounds) h = (h.0, tt)
as_rounds-Honest remaining ((want, running) ∷ rounds) h = as_rounds-Honest remaining rounds h
as_rounds-Honest remaining ((closed, running) ∷ rounds) h = tt
as_rounds-Honest remaining ((failed, running) ∷ rounds) h = tt
as_rounds-Honest remaining ((would_block select_failed, running) ∷ rounds) h =
    as_rounds-Honest remaining rounds h

-- The client's write loop on a chunk hands over a first part of it, in order and with nothing lost or
-- repeated between two writes, wherever a write is cut, refused or the thread is stopped; and all of it
-- where it ends in success. No write takes more than it is offered.
pub pump-Delivers :
    (buf : Str) (rounds : List (Write × Bool))
    → HonestWrites (length buf) rounds
    → Delivers buf 0 (length buf) (pump buf 0 (length buf) rounds)
pump-Delivers buf rounds honest =
    subst (Delivers buf 0 (length buf)) (sym (pump-send_loop buf 0 (length buf) rounds)) (
      send_loop-Delivers buf 0 (length buf) (as_rounds rounds)
        (as_rounds-Honest (length buf) rounds honest))

abbrev pub HonestChunk : Str × List (Write × Bool) → Type 0
HonestChunk (buf, rounds) = HonestWrites (length buf) rounds

End-cases : (e : End) → (e ≡ success) ⊎ ((e ≡ broken) ⊎ (e ≡ unfinished))
End-cases success = inl refl
End-cases broken = inr (inl refl)
End-cases unfinished = inr (inr refl)

pub to_target-counts :
    (buf : Str) (rounds : List (Write × Bool)) (k : Counters)
    → HonestWrites (length buf) rounds
    → ((to_target buf rounds k).1.bytes_received
        ≤ k.bytes_received + length (to_target buf rounds k).0.written)
      × ((to_target buf rounds k).1.bytes_sent ≡ k.bytes_sent)
unfolding to_target client_traffic_add_received
to_target-counts buf rounds k honest =
    let d = pump-Delivers buf rounds honest in
    let size = length-take_of_le d.count buf d.within in
    elim (End-cases (pump buf 0 (length buf) rounds).end) [
      | inr (inl cut) ↦ rw (cut, to_target) (omega arith, refl)
      | inr (inr open_) ↦ rw (open_, to_target) (omega arith, refl)
      | inl whole ↦
          let all : length (pump buf 0 (length buf) rounds).written ≡ length buf =
            ground (arith, d.bytes, d.complete, whole, size) in
          rw (whole, to_target) (omega (arith, all), refl)
    ]

-- The counters count no byte that was not delivered: over all the chunks that a thread passes to the
-- target, the received bytes grow by at most the number of bytes written, and the sent bytes not at
-- all. No write takes more than it is offered.
pub to_target_all-counts :
    (chunks : List (Str × List (Write × Bool))) (k : Counters)
    → All HonestChunk chunks
    → ((to_target_all chunks k).1.bytes_received
        ≤ k.bytes_received + length (to_target_all chunks k).0)
      × ((to_target_all chunks k).1.bytes_sent ≡ k.bytes_sent)
unfolding to_target_all
to_target_all-counts [] k honest = (omega arith, refl)
to_target_all-counts ((buf, rounds) ∷ chunks) k honest =
    let (sent, k1) = to_target buf rounds k in
    let here = to_target-counts buf rounds k honest.0 in
    let rest = to_target_all-counts chunks k1 honest.1 in
    let size = length-append sent.written (to_target_all chunks k1).0 in
    (omega (arith, here.0, rest.0, size), rest.1 ∙ here.1)
