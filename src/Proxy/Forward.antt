-- ===== src/Proxy/Forward.antt =====
-- The write loops of `connection_input_handler` and `connection_output_handler` in
-- server/proxy/server/proxy_server.c, which pass a chunk on to the other side of a pair.
use net_port.Base.{
  ℕ, ◌+◌, ◌-◌, Bool, true, false, List, [], ◌∷◌, ◌++◌, Str, length, take, drop, ltb, ◌==◌,
  if◌then◌else◌,
}
pub mod Laws

-- What one round of the loop meets. `accepted n`: `send` or `SSL_write` returns `n`, not -1.
-- `would_block failed connected`: it returns -1 with EAGAIN; then `failed` says that `select` fails
-- and `connected` that the loop's tests of the pair's flags let it go on. `refused`: it returns -1
-- with another error. `no_ssl`: the TLS object is gone.
pub data Round : Type 0 where
  accepted : ℕ → Round
  would_block : Bool → Bool → Round
  refused no_ssl : Round

-- How the loop ends: by `success`, by a `break`, or not within the rounds listed.
pub data End : Type 0 where
  success broken unfinished : End

-- What has been written to the peer, and the end.
pub record Sent : Type 0 where
  pub written : Str
  pub end : End

-- The loop from `sent` bytes on. The peer takes the bytes from `buf + sent`.
unfoldable pub send_loop : Str → ℕ → ℕ → List Round → Sent
send_loop buf sent remaining [] = record { written = []; end = unfinished }
send_loop buf sent remaining (accepted n ∷ rounds) =
    let rest = send_loop buf (sent + n) (remaining - n) rounds in
    let chunk = take n (drop sent buf) in
    if ltb n remaining
    then record { written = chunk ++ rest.written; end = rest.end }
    else record { written = chunk; end = success }
send_loop buf sent remaining (would_block failed connected ∷ rounds) =
    let rest = send_loop buf sent remaining rounds in
    if failed
    then record { written = []; end = broken }
    else if connected
    then rest
    else record { written = []; end = broken }
send_loop buf sent remaining (refused ∷ rounds) = record { written = []; end = broken }
send_loop buf sent remaining (no_ssl ∷ rounds) = record { written = []; end = broken }

-- The loop on a chunk just received.
unfoldable pub send_chunk : Str → List Round → Sent
send_chunk buf rounds = send_loop buf 0 (length buf) rounds

-- The body of a handler over the chunks that it receives in turn: a chunk that could not be sent is
-- logged, and the handler goes on with the next one.
unfoldable pub forward : List (Str × List Round) → Str
forward [] = []
forward ((buf, rounds) ∷ chunks) = (send_chunk buf rounds).written ++ forward chunks
