-- ===== src/Proxy/Crossing.antt =====
-- One pair of connections of server/proxy/server/proxy_server.c, with its two threads
-- `connection_input_handler` and `connection_output_handler` and the threads that accept for them, step
-- by step. Connections are plain TCP. `in_time` is a mark of the model, which the code does not keep: it
-- falls where a wait reaches its limit of 120 seconds, where a connection is accepted for a side before
-- the handler of the one before it has set its flag, or where an output is accepted before the handler of
-- the one before it has cleared `close_output_socket`. In the last two cases two handlers of one side run
-- side by side, of which only the later one is followed.
use net_port.Base.{ℕ, zero, suc, ◌≡◌, Bool, true, false, List, [], ◌∷◌}
pub mod Isolation
pub mod Leak

-- Where the input handler is: there is none; before or in its read; with a chunk, at its wait for
-- `close_output_socket` to fall; at its wait for `is_output_connected`; at its write; at its last write,
-- since a wait reached its limit; or after it has set `close_output_socket`, before it clears
-- `is_input_connected`. `accepted`: the connection is accepted and the handler has not set its flag.
pub data InputAt : Type 0 where
  no_input accepted reads has_chunk waits writes writes_last leaves : InputAt

-- Where the output handler is: there is none; at its test of `close_output_socket`; behind the test,
-- before or in its read; with a chunk, at its wait for `is_input_connected`; at its write; or at its last
-- write, since the wait was ended by `close_output_socket`; or after it has cleared `is_output_connected`,
-- before it clears `close_output_socket`. `called`: as `accepted` above.
pub data OutputAt : Type 0 where
  no_output called tests receives holds answers answers_last clears : OutputAt

unfoldable pub is_input_connected : InputAt → Bool
is_input_connected no_input = false
is_input_connected accepted = false
is_input_connected _ = true

unfoldable pub is_output_connected : OutputAt → Bool
is_output_connected no_output = false
is_output_connected called = false
is_output_connected clears = false
is_output_connected _ = true

-- `input_local` is the descriptor of a connection.
unfoldable pub is_open : InputAt → Bool
is_open no_input = false
is_open leaves = false
is_open _ = true

-- The connections are numbered from 1 as they are accepted: `input` and `output` are the last ones.
-- `up` lists the chunks of an input that were written to an output, the last one first: the input and
-- the output; `down` the chunks of an output that were written to an input.
pub record State : Type 0 where
  pub input_at : InputAt
  pub output_at : OutputAt
  pub input : ℕ
  pub output : ℕ
  pub close_output_socket : Bool
  pub in_time : Bool
  pub up : List (ℕ × ℕ)
  pub down : List (ℕ × ℕ)

abbrev pub initial : State
initial = record {
  input_at = no_input;
  output_at = no_output;
  input = 0;
  output = 0;
  close_output_socket = false;
  in_time = true;
  up = [];
  down = [];
}

-- `connection_output_handler` clears `is_output_connected` behind its loop.
abbrev pub output_ends : State → State
output_ends s = record s { output_at = clears }

pub data Step : State → State → Type 0 where
  -- `get_input_socket_with_output` finds the pair
  accept_input :
      (s : State)
      → s.input_at ≡ no_input
      → is_output_connected s.output_at ≡ true
      → Step s (record s { input_at = accepted; input = suc s.input })
  start_input : (s : State) → s.input_at ≡ accepted → Step s (record s { input_at = reads })
  accept_input_twice :
      (s : State)
      → s.input_at ≡ accepted
      → is_output_connected s.output_at ≡ true
      → Step s (record s { input = suc s.input; in_time = false })
  read_input : (s : State) → s.input_at ≡ reads → Step s (record s { input_at = has_chunk })
  -- the loop `while(close_output_socket)` ends
  pass_close :
      (s : State)
      → s.input_at ≡ has_chunk
      → s.close_output_socket ≡ false
      → Step s (record s { input_at = waits })
  -- the loop `while(!is_output_connected)` ends
  pass_output :
      (s : State)
      → s.input_at ≡ waits
      → is_output_connected s.output_at ≡ true
      → Step s (record s { input_at = writes })
  -- a wait reaches its limit
  give_up_close :
      (s : State)
      → s.input_at ≡ has_chunk
      → Step s (record s { input_at = writes_last; in_time = false })
  give_up_output :
      (s : State)
      → s.input_at ≡ waits
      → Step s (record s { input_at = writes_last; in_time = false })
  write_late :
      (s : State)
      → s.input_at ≡ writes_last
      → is_output_connected s.output_at ≡ true
      → Step s (record s {
        input_at = leaves;
        close_output_socket = true;
        in_time = false;
        up = (s.input, s.output) ∷ s.up;
      })
  write_late_fails :
      (s : State)
      → s.input_at ≡ writes_last
      → Step s (record s { input_at = leaves; close_output_socket = true; in_time = false })
  write_output :
      (s : State)
      → s.input_at ≡ writes
      → is_output_connected s.output_at ≡ true
      → Step s (record s { input_at = reads; up = (s.input, s.output) ∷ s.up })
  write_output_fails : (s : State) → s.input_at ≡ writes → Step s (record s { input_at = reads })
  -- the client has closed its connection, or an error
  close_input :
      (s : State)
      → s.input_at ≡ reads
      → Step s (record s { input_at = leaves; close_output_socket = true })
  end_input : (s : State) → s.input_at ≡ leaves → Step s (record s { input_at = no_input })
  -- `get_free_output_socket` finds the pair
  accept_output :
      (s : State)
      → s.output_at ≡ no_output
      → Step s (record s { output_at = called; output = suc s.output })
  start_output : (s : State) → s.output_at ≡ called → Step s (record s { output_at = tests })
  accept_output_twice :
      (s : State)
      → s.output_at ≡ called
      → Step s (record s { output = suc s.output; in_time = false })
  accept_output_early :
      (s : State)
      → s.output_at ≡ clears
      → Step s (record s { output_at = called; output = suc s.output; in_time = false })
  test_passes :
      (s : State)
      → s.output_at ≡ tests
      → s.close_output_socket ≡ false
      → Step s (record s { output_at = receives })
  test_ends :
      (s : State) → s.output_at ≡ tests → s.close_output_socket ≡ true → Step s (output_ends s)
  -- `select` times out
  select_again : (s : State) → s.output_at ≡ receives → Step s (record s { output_at = tests })
  read_output : (s : State) → s.output_at ≡ receives → Step s (record s { output_at = holds })
  -- the device has closed its connection, or an error
  close_output : (s : State) → s.output_at ≡ receives → Step s (output_ends s)
  -- the loop `while(!is_input_connected)` ends, by itself or by its `break`
  pass_input :
      (s : State)
      → s.output_at ≡ holds
      → is_input_connected s.input_at ≡ true
      → Step s (record s { output_at = answers })
  pass_closing :
      (s : State)
      → s.output_at ≡ holds
      → s.close_output_socket ≡ true
      → Step s (record s { output_at = answers_last })
  write_input :
      (s : State)
      → s.output_at ≡ answers
      → is_open s.input_at ≡ true
      → Step s (record s { output_at = tests; down = (s.output, s.input) ∷ s.down })
  write_input_fails : (s : State) → s.output_at ≡ answers → Step s (record s { output_at = tests })
  write_last :
      (s : State)
      → s.output_at ≡ answers_last
      → is_open s.input_at ≡ true
      → Step s (output_ends (record s { down = (s.output, s.input) ∷ s.down }))
  write_last_fails : (s : State) → s.output_at ≡ answers_last → Step s (output_ends s)
  -- the last assignment of `connection_output_handler`
  end_output :
      (s : State)
      → s.output_at ≡ clears
      → Step s (record s { output_at = no_output; close_output_socket = false })

pub data Reaches : State → State → Type 0 where
  here : {s : State} → Reaches s s
  next : {s t u : State} → Reaches s t → Step t u → Reaches s u
