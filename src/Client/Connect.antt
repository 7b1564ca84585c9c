-- ===== src/Client/Connect.antt =====
-- The connection loop of `server_input_thread` in client/proxy/client/proxy_client.c.
use net_port.Base.{
  ℕ, ◌+◌, ◌*◌, ◌≤◌, ◌<◌, ◌≡◌, refl, Bool, true, false, not, ◌&&◌, ◌||◌, List, Option, [], ◌∷◌, ◌++◌,
  ltb, ◌==◌, if◌then◌else◌, All, arith, Bool-cases, inl, inr, zero, suc, length,
}
pub mod Laws

-- What one round of the loop meets: whether it sees a stop at its head, in its pause or in its sleep;
-- whether the session is revoked at its head and after the pause; whether `init_input_sockets` returns 0
-- after the pause, and after a failed `connect` and its sleep, each with the descriptor that it leaves;
-- and whether `connect` succeeds.
pub record Round : Type 0 where
  pub stop_at_head : Bool
  pub revoked : Bool
  pub stop_in_pause : Bool
  pub still_revoked : Bool
  pub reopened : Bool
  pub reopened_fd : Option ℕ
  pub connects : Bool
  pub stop_in_sleep : Bool
  pub remade : Bool
  pub remade_fd : Option ℕ

-- The loop connects in a round, is stopped, or does not end within the rounds listed.
pub data Ending : Type 0 where
  connected : Round → Ending
  stopped unfinished : Ending

unfoldable pub next_backoff : ℕ → ℕ
next_backoff backoff = if ltb backoff 30 then backoff * 2 else backoff

-- The part of a round that connects: the seconds slept after a failure of `connect` and of
-- `init_input_sockets`, and the backoff of the next round, or the end of the loop.
pub data Step : Type 0 where
  ends : Ending → Step
  again : List ℕ → ℕ → Step

unfoldable pub attempt : ℕ → Round → Step
attempt backoff r =
    if r.connects
    then ends (connected r)
    else if r.stop_in_sleep
    then ends stopped
    else again (backoff ∷ (if r.remade then [] else 1 ∷ [])) (next_backoff backoff)

-- One round. A revoked session makes it pause; the backoff starts again once the session is allowed.
unfoldable pub connect_round : ℕ → Round → Step
connect_round backoff r =
    if r.stop_at_head
    then ends stopped
    else if not r.revoked
    then attempt backoff r
    else if r.stop_in_pause
    then ends stopped
    else if r.still_revoked
    then again [] backoff
    else if r.reopened
    then attempt 1 r
    else again (1 ∷ []) backoff

-- The rounds after a step.
unfoldable pub go_on : Step → (ℕ → List ℕ × Ending) → List ℕ × Ending
go_on (ends e) rest = ([], e)
go_on (again slept next) rest = (slept ++ (rest next).0, (rest next).1)

-- The loop: the seconds slept after each failure, and the end.
unfoldable pub connect_loop : ℕ → List Round → List ℕ × Ending
connect_loop backoff [] = ([], unfinished)
connect_loop backoff (r ∷ rs) = go_on (connect_round backoff r) (λ next. connect_loop next rs)
