-- ===== src/Proxy/Crossing/Isolation.antt =====
-- An output connection carries the chunks of one input connection only, as long as the handlers keep time.
use net_port.Base.{
  ℕ, zero, suc, ◌≤◌, ◌≡◌, refl, ap, ◌∙◌, sym, Bool, true, false, not, List, [], ◌∷◌, some,
  get_elem?, All, All-get_elem?, arith,
}
use net_port.Proxy.Crossing.{
  InputAt, OutputAt, called, no_output, tests, receives, holds, answers, answers_last, clears,
  no_input, accepted, reads, has_chunk, waits, writes, writes_last, leaves, start_input,
  accept_input_twice, give_up_close, give_up_output, write_late, write_late_fails, start_output,
  accept_output_twice, accept_output_early, end_output, is_output_connected, is_open, output_ends,
  State, initial, Step, accept_input, read_input, pass_close, pass_output, write_output,
  write_output_fails, close_input, end_input, accept_output, test_passes, test_ends, select_again,
  read_output, close_output, pass_input, pass_closing, write_input, write_input_fails, write_last,
  write_last_fails, Reaches, here, next,
}

-- The output connection may have carried chunks.
unfoldable is_carrying : OutputAt → Bool
is_carrying called = true
is_carrying at = is_output_connected at

is_output_connected-carrying :
    (at : OutputAt) → is_output_connected at ≡ true → is_carrying at ≡ true
unfolding is_carrying is_output_connected
is_output_connected-carrying no_output live = live
is_output_connected-carrying called live = refl
is_output_connected-carrying tests live = refl
is_output_connected-carrying receives live = refl
is_output_connected-carrying holds live = refl
is_output_connected-carrying answers live = refl
is_output_connected-carrying answers_last live = refl
is_output_connected-carrying clears live = live

-- Whose chunks an output that is connected has carried: those of the input that is open, or
-- `close_output_socket` is set.
abbrev IsOwner : State → ℕ × ℕ → Type 0
IsOwner s (i, o) =
    (o ≤ s.output)
    × (o ≡ s.output
        → is_carrying s.output_at ≡ true
        → s.close_output_socket ≡ false
        → (i ≡ s.input) × (is_open s.input_at ≡ true))

-- Behind its first wait the input handler finds `close_output_socket` clear.
unfoldable passed : InputAt → Bool → Bool
passed waits closing = not closing
passed writes closing = not closing
passed _ closing = true

-- No two inputs have written to one output.
abbrev SameInput : ℕ × ℕ → ℕ × ℕ → Type 0
SameInput (i, o) (j, q) = o ≡ q → i ≡ j

abbrev Apart : List (ℕ × ℕ) → Type 0
Apart [] = Unit
Apart (e ∷ es) = All (SameInput e) es × Apart es

record IsIsolated (s : State) : Type 0 where
  owners : All (IsOwner s) s.up
  passes : passed s.input_at s.close_output_socket ≡ true
  apart : Apart s.up

All-map :
    {A : Type 0} (P Q : A → Type 0) (xs : List A) → ((x : A) → P x → Q x) → All P xs → All Q xs
All-map P Q [] f h = tt
All-map P Q (x ∷ xs) f h = (f x h.0, All-map P Q xs f h.1)

-- A step that writes nothing to an output.
kept :
    (s t : State)
    → IsIsolated s
    → ((e : ℕ × ℕ) → IsOwner s e → IsOwner t e)
    → passed t.input_at t.close_output_socket ≡ true
    → t.up ≡ s.up
    → IsIsolated t
kept s t h owner passes same = record {
  owners = rw same (All-map (IsOwner s) (IsOwner t) s.up owner h.owners);
  passes = passes;
  apart = rw same h.apart;
}

passed-clear : (at : InputAt) → passed at false ≡ true
unfolding passed
passed-clear no_input = refl
passed-clear reads = refl
passed-clear accepted = refl
passed-clear has_chunk = refl
passed-clear writes_last = refl
passed-clear waits = refl
passed-clear writes = refl
passed-clear leaves = refl

ended :
    (s : State) (down : List (ℕ × ℕ))
    → IsIsolated s
    → IsIsolated (output_ends (record s { down = down }))
unfolding is_output_connected is_carrying
ended s down h =
    kept s _ h (λ e o. (o.0, λ same live clear. absurd (ground (arith, live)))) h.passes refl

-- The chunks that the output has carried before are of the input that writes.
written :
    (s : State)
    → IsIsolated s
    → s.input_at ≡ writes
    → is_output_connected s.output_at ≡ true
    → IsIsolated (record s { input_at = reads; up = (s.input, s.output) ∷ s.up })
unfolding passed is_open
written s h at out =
    let clear : s.close_output_socket ≡ false = ground (arith, at, h.passes) in
    record {
      owners = (
        (omega arith, λ same live clear'. (refl, refl)),
        All-map (IsOwner s)
            (IsOwner (record s { input_at = reads; up = (s.input, s.output) ∷ s.up })) s.up
            (λ e o. (o.0, λ same live clear'. ((o.1 same live clear').0, refl))) h.owners,
      );
      passes = refl;
      apart = (
        All-map (IsOwner s) (SameInput (s.input, s.output)) s.up
            (λ e o same.
              sym (o.1 (sym same) (is_output_connected-carrying s.output_at out) clear).0)
            h.owners,
        h.apart,
      );
    }

Step-IsIsolated : {s t : State} → Step s t → t.in_time ≡ true → IsIsolated s → IsIsolated t
unfolding passed is_output_connected is_carrying is_open
Step-IsIsolated (accept_input s at out) prompt h =
    kept s _ h (λ e o. (o.0, λ same live clear. ground (arith, at, o.1 same live clear))) refl refl
Step-IsIsolated (start_input s at) prompt h =
    kept s _ h (λ e o. (o.0, λ same live clear. ground (arith, at, o.1 same live clear))) refl refl
Step-IsIsolated (accept_input_twice s at out) prompt h = absurd (cc)
Step-IsIsolated (give_up_close s at) prompt h = absurd (cc)
Step-IsIsolated (give_up_output s at) prompt h = absurd (cc)
Step-IsIsolated (write_late s at out) prompt h = absurd (cc)
Step-IsIsolated (write_late_fails s at) prompt h = absurd (cc)
Step-IsIsolated (accept_output_twice s at) prompt h = absurd (cc)
Step-IsIsolated (accept_output_early s at) prompt h = absurd (cc)
Step-IsIsolated (start_output s at) prompt h =
    kept s _ h (λ e o. (o.0, λ same live clear. o.1 same (ground (arith, at)) clear)) h.passes refl
Step-IsIsolated (end_output s at) prompt h =
    kept s _ h (λ e o. (o.0, λ same live clear. absurd (ground (arith, live))))
      (passed-clear s.input_at) refl
Step-IsIsolated (read_input s at) prompt h =
    kept s _ h (λ e o. (o.0, λ same live clear. ((o.1 same live clear).0, refl))) refl refl
Step-IsIsolated (pass_close s at clear) prompt h =
    kept s _ h (λ e o. (o.0, λ same live clear'. ((o.1 same live clear').0, refl)))
      (ground (arith, clear)) refl
Step-IsIsolated (pass_output s at out) prompt h =
    kept s _ h (λ e o. (o.0, λ same live clear. ((o.1 same live clear).0, refl)))
      (ground (arith, at, h.passes)) refl
Step-IsIsolated (write_output s at out) prompt h = written s h at out
Step-IsIsolated (write_output_fails s at) prompt h =
    kept s _ h (λ e o. (o.0, λ same live clear. ((o.1 same live clear).0, refl))) refl refl
Step-IsIsolated (close_input s at) prompt h =
    kept s _ h (λ e o. (o.0, λ same live clear. absurd (ground (arith, clear)))) refl refl
Step-IsIsolated (end_input s at) prompt h =
    kept s _ h (λ e o. (o.0, λ same live clear. absurd (ground (arith, at, o.1 same live clear))))
      refl refl
Step-IsIsolated (accept_output s at) prompt h =
    kept s _ h (λ e o. (omega (arith, o.0), λ same live clear. absurd (omega (arith, o.0, same))))
      h.passes refl
Step-IsIsolated (test_passes s at clear) prompt h =
    kept s _ h (λ e o. (o.0, λ same live clear'. o.1 same (ground (arith, at)) clear')) h.passes
      refl
Step-IsIsolated (test_ends s at closing) prompt h = ended s s.down h
Step-IsIsolated (select_again s at) prompt h =
    kept s _ h (λ e o. (o.0, λ same live clear. o.1 same (ground (arith, at)) clear)) h.passes refl
Step-IsIsolated (read_output s at) prompt h =
    kept s _ h (λ e o. (o.0, λ same live clear. o.1 same (ground (arith, at)) clear)) h.passes refl
Step-IsIsolated (close_output s at) prompt h = ended s s.down h
Step-IsIsolated (pass_input s at inp) prompt h =
    kept s _ h (λ e o. (o.0, λ same live clear. o.1 same (ground (arith, at)) clear)) h.passes refl
Step-IsIsolated (pass_closing s at closing) prompt h =
    kept s _ h (λ e o. (o.0, λ same live clear. o.1 same (ground (arith, at)) clear)) h.passes refl
Step-IsIsolated (write_input s at inp) prompt h =
    kept s _ h (λ e o. (o.0, λ same live clear. o.1 same (ground (arith, at)) clear)) h.passes refl
Step-IsIsolated (write_input_fails s at) prompt h =
    kept s _ h (λ e o. (o.0, λ same live clear. o.1 same (ground (arith, at)) clear)) h.passes refl
Step-IsIsolated (write_last s at inp) prompt h = ended s ((s.output, s.input) ∷ s.down) h
Step-IsIsolated (write_last_fails s at) prompt h = ended s s.down h

-- The mark never rises again.
Step-in_time : {s t : State} → Step s t → t.in_time ≡ true → s.in_time ≡ true
Step-in_time (accept_input s at out) h = h
Step-in_time (start_input s at) h = h
Step-in_time (read_input s at) h = h
Step-in_time (pass_close s at clear) h = h
Step-in_time (pass_output s at out) h = h
Step-in_time (write_output s at out) h = h
Step-in_time (write_output_fails s at) h = h
Step-in_time (close_input s at) h = h
Step-in_time (end_input s at) h = h
Step-in_time (accept_output s at) h = h
Step-in_time (start_output s at) h = h
Step-in_time (test_passes s at clear) h = h
Step-in_time (test_ends s at closing) h = h
Step-in_time (select_again s at) h = h
Step-in_time (read_output s at) h = h
Step-in_time (close_output s at) h = h
Step-in_time (pass_input s at inp) h = h
Step-in_time (pass_closing s at closing) h = h
Step-in_time (write_input s at inp) h = h
Step-in_time (write_input_fails s at) h = h
Step-in_time (write_last s at inp) h = h
Step-in_time (write_last_fails s at) h = h
Step-in_time (end_output s at) h = h
Step-in_time (accept_input_twice s at out) h = absurd (cc)
Step-in_time (give_up_close s at) h = absurd (cc)
Step-in_time (give_up_output s at) h = absurd (cc)
Step-in_time (write_late s at out) h = absurd (cc)
Step-in_time (write_late_fails s at) h = absurd (cc)
Step-in_time (accept_output_twice s at) h = absurd (cc)
Step-in_time (accept_output_early s at) h = absurd (cc)

Reaches-IsIsolated : {s t : State} → Reaches s t → t.in_time ≡ true → IsIsolated s → IsIsolated t
Reaches-IsIsolated here prompt h = h
Reaches-IsIsolated (next way step) prompt h =
    Step-IsIsolated step prompt (Reaches-IsIsolated way (Step-in_time step prompt) h)

initial-IsIsolated : IsIsolated initial
unfolding passed
initial-IsIsolated = record { owners = tt; passes = refl; apart = tt }

Some-injective : {x y : ℕ × ℕ} → some x ≡ some y → x ≡ y
Some-injective e = cc

Apart-get_elem? :
    (es : List (ℕ × ℕ)) (a b i j o : ℕ)
    → Apart es
    → get_elem? es a ≡ some (i, o)
    → get_elem? es b ≡ some (j, o)
    → i ≡ j
Apart-get_elem? [] a b i j o apart first second = absurd (ground (arith, first))
Apart-get_elem? (e ∷ es) zero zero i j o apart first second = ground (arith, first, second)
Apart-get_elem? (e ∷ es) zero (suc b) i j o apart first second =
    let same = All-get_elem? (SameInput e) es b apart.0 second in
    ap (λ p. p.0) (sym (Some-injective first)) ∙ same (ap (λ p. p.1) (Some-injective first))
Apart-get_elem? (e ∷ es) (suc a) zero i j o apart first second =
    let same = All-get_elem? (SameInput e) es a apart.0 first in
    sym (same (ap (λ p. p.1) (Some-injective second))) ∙ ap (λ p. p.0) (Some-injective second)
Apart-get_elem? (e ∷ es) (suc a) (suc b) i j o apart first second =
    Apart-get_elem? es a b i j o apart.1 first second

-- In every state that a pair reaches from its start, an output connection has been written the chunks of
-- one input connection only: where chunks `a` and `b` of the list went to the same output, they came
-- from the same input, however the two handlers and the connections of the clients and of the device
-- have interleaved, provided that no wait has reached its limit of 120 seconds, that each handler has set
-- its flag before the next connection of its side was accepted, and that an output handler has cleared
-- `close_output_socket` before the next output was accepted.
pub upload_isolated :
    (s : State) (a b i j o : ℕ)
    → Reaches initial s
    → s.in_time ≡ true
    → get_elem? s.up a ≡ some (i, o)
    → get_elem? s.up b ≡ some (j, o)
    → i ≡ j
upload_isolated s a b i j o way prompt first second =
    Apart-get_elem? s.up a b i j o (Reaches-IsIsolated way prompt initial-IsIsolated).apart first
      second
