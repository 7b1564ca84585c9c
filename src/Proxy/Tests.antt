-- ===== src/Proxy/Tests.antt =====
-- Runs of the definitions for server/proxy/server/proxy_server.c, and concrete cases of the theorems.
use net_port.Base.{◌≡◌, refl, true, false, List, [], ◌∷◌, Str, arith}
use net_port.Proxy.Forward.{
  Round, accepted, would_block, refused, success, broken, send_loop, send_chunk, forward,
}
use net_port.Proxy.Forward.Laws.{Delivers, send_chunk-Delivers}

abbrev chunk : Str
chunk = 1 ∷ 2 ∷ 3 ∷ 4 ∷ 5 ∷ []

-- Two bytes, a full buffer, and the rest.
abbrev slow_peer : List Round
slow_peer = accepted 2 ∷ would_block false true ∷ accepted 3 ∷ []

-- Two bytes, and then the connection is reset.
abbrev lost_peer : List Round
lost_peer = accepted 2 ∷ refused ∷ []

send_chunk-slow_peer : send_chunk chunk slow_peer ≡ record { written = chunk; end = success }
unfolding send_chunk send_loop
send_chunk-slow_peer = refl

send_chunk-lost_peer : send_chunk chunk lost_peer ≡ record { written = 1 ∷ 2 ∷ []; end = broken }
unfolding send_chunk send_loop
send_chunk-lost_peer = refl

forward-lost_peer : forward ((chunk, lost_peer) ∷ (9 ∷ [], accepted 1 ∷ []) ∷ []) ≡ 1 ∷ 2 ∷ 9 ∷ []
unfolding forward send_chunk send_loop
forward-lost_peer = refl

sent_whole : (send_chunk (9 ∷ []) (accepted 1 ∷ [])).end ≡ success
unfolding send_chunk send_loop
sent_whole = refl

send_chunk-Delivers_example : Delivers chunk 0 5 (send_chunk chunk slow_peer)
send_chunk-Delivers_example = send_chunk-Delivers chunk slow_peer (omega arith, (omega arith, tt))

slow_success : (send_chunk chunk slow_peer).end ≡ success
unfolding send_chunk send_loop
slow_success = refl
