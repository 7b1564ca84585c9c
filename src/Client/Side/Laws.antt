-- ===== src/Client/Side/Laws.antt =====
-- What holds through the parts of a thread of client/proxy/client/proxy_client.c, and the books that a
-- thread keeps of its descriptors.
use net_port.Base.{ℕ, ◌≡◌, sym, ◌∙◌, ap, List, [], ◌∷◌, ◌++◌, Option, none, All}
use mathlib.Core.List.{append-nil}
use net_port.Proxy.Dynamic.Stop.{descriptor}
use net_port.Client.Side.{
  Side, Received, Turn, After, goes_on, leaves, restarts, returns, open_side, close_side, free_side,
  and_then, behind_loop, turns_of,
}

-- A statement about a state and how a part ended in it.
abbrev pub Fits : (Side → After → Type 0) → Side × After → Type 0
Fits P r = P r.0 r.1

pub and_then-Fits :
    (P : Side → After → Type 0) (r : Side × After) (f : Side → Side × After)
    → Fits P r
    → ((s : Side) → P s goes_on → Fits P (f s))
    → Fits P (and_then r f)
unfolding and_then
and_then-Fits P (s, goes_on) f h next = next s h
and_then-Fits P (s, leaves) f h next = h
and_then-Fits P (s, restarts) f h next = h
and_then-Fits P (s, returns) f h next = h

pub behind_loop-Fits :
    (P : Side → After → Type 0) (r : Side × After) (f : Side → Side × After)
    → Fits P r
    → ((s : Side) → P s leaves → Fits P (f s))
    → Fits P (behind_loop r f)
unfolding behind_loop
behind_loop-Fits P (s, goes_on) f h next = h
behind_loop-Fits P (s, leaves) f h next = next s h
behind_loop-Fits P (s, restarts) f h next = h
behind_loop-Fits P (s, returns) f h next = h

-- What each round that satisfies `Q` keeps, the loop keeps.
pub turns_of-Fits :
    (P : Side → After → Type 0) (Q : Turn → Type 0) (turn : Turn → Received → Side → Side × After)
    → ((t : Turn) (s : Side) → Q t → P s goes_on → Fits P (turn t t.received s))
    → (ts : List Turn) (s : Side) → All Q ts
    → P s goes_on
    → Fits P (turns_of turn ts s)
unfolding turns_of
turns_of-Fits P Q turn body [] s each h = h
turns_of-Fits P Q turn body (t ∷ ts) s each h =
    and_then-Fits P (turn t t.received s) (turns_of turn ts) (body t s each.0 h)
      (λ s' h'. turns_of-Fits P Q turn body ts s' each.1 h')

-- Every descriptor that the thread has had is closed, in the order in which it was opened, or it is the
-- one that is open; and the same for the TLS objects.
abbrev pub IsTidy : Side → Type 0
IsTidy s = s.closed ++ descriptor s.fd ≡ s.opened

abbrev pub IsTlsTidy : Side → Type 0
IsTlsTidy s = s.freed ++ descriptor s.ssl ≡ s.made

pub close_side-IsTidy : (s : Side) → IsTidy s → IsTidy (close_side s)
unfolding close_side
close_side-IsTidy s tidy = append-nil _ ∙ tidy

pub free_side-IsTlsTidy : (s : Side) → IsTlsTidy s → IsTlsTidy (free_side s)
unfolding free_side
free_side-IsTlsTidy s tidy = append-nil _ ∙ tidy

pub open_side-IsTidy : (fd : Option ℕ) (s : Side) → s.fd ≡ none → IsTidy s → IsTidy (open_side fd s)
unfolding open_side
open_side-IsTidy fd s shut tidy =
    let all : s.closed ≡ s.opened =
      sym (append-nil s.closed)
      ∙ ap (λ (o : Option ℕ). s.closed ++ descriptor o) (sym shut)
      ∙ tidy in
    ap (λ (l : List ℕ). l ++ descriptor fd) all
