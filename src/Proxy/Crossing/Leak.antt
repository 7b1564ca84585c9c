-- ===== src/Proxy/Crossing/Leak.antt =====
-- A chunk from a device that reaches the client after the one it was meant for.
use net_port.Base.{suc, ◌≡◌, refl, true, ◌∷◌, arith}
use net_port.Proxy.Crossing.{
  accepted, start_input, reads, leaves, no_input, holds, answers, tests, is_output_connected,
  is_input_connected, is_open, State, close_input, end_input, accept_input, pass_input, write_input,
  Reaches, here, next,
}

-- From any state in which the input handler waits in its read and the output handler has just read a
-- chunk, the pair can come to write this chunk to the next client: this client leaves, the next one is
-- given the pair, since the output handler is still there, and the output handler, which looks at
-- `close_output_socket` only at the top of its loop, goes on. The next client has sent nothing.
pub chunk_for_next_client :
    (s : State)
    → s.input_at ≡ reads
    → s.output_at ≡ holds
    → (t : State) × Reaches s t
      × (t.input ≡ suc s.input)
      × (t.down ≡ (s.output, suc s.input) ∷ s.down)
      × (t.up ≡ s.up)
unfolding is_output_connected is_input_connected is_open
chunk_for_next_client s reading holding =
    let s1 : State = record s { input_at = leaves; close_output_socket = true } in
    let s2 : State = record s1 { input_at = no_input } in
    let s2' : State = record s2 { input_at = accepted; input = suc s2.input } in
    let s3 : State = record s2' { input_at = reads } in
    let s4 : State = record s3 { output_at = answers } in
    let s5 : State = record s4 { output_at = tests; down = (s4.output, s4.input) ∷ s4.down } in
    (
      s5,
      next
          (next
            (next
              (next (next (next here (close_input s reading)) (end_input s1 refl))
                (accept_input s2 refl (ground (arith, holding))))
              (start_input s2' refl))
            (pass_input s3 holding refl))
          (write_input s4 refl refl),
      refl,
      refl,
      refl,
    )
