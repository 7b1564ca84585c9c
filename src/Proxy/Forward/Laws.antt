-- ===== src/Proxy/Forward/Laws.antt =====
-- What the write loops of server/proxy/server/proxy_server.c deliver.
use net_port.Base.{
  ℕ, zero, suc, ◌+◌, ◌-◌, ◌≤◌, ◌<◌, ◌≡◌, refl, ◌∙◌, ◌⊎◌, inl, inr, true, false, List, [], ◌∷◌, ◌++◌,
  Str, length, take, drop, take-add, take_of_length-le, length-take_of_le, ltb, arith, Bool-cases,
}
use net_port.Proxy.Forward.{
  Round, accepted, would_block, refused, no_ssl, success, Sent, send_loop, send_chunk, forward,
}

-- No write takes more than it is offered, as `send` and `SSL_write` promise.
abbrev pub Honest : ℕ → List Round → Type 0
Honest remaining [] = Unit
Honest remaining (accepted n ∷ rounds) = (n ≤ remaining) × Honest (remaining - n) rounds
Honest remaining (would_block failed connected ∷ rounds) = Honest remaining rounds
Honest remaining (refused ∷ rounds) = Unit
Honest remaining (no_ssl ∷ rounds) = Unit

-- What the loop leaves: the first `count` bytes that were to be sent, all of them exactly if it
-- ends in success.
pub record Delivers (buf : Str) (sent remaining : ℕ) (r : Sent) : Type 0 where
  pub count : ℕ
  pub within : count ≤ remaining
  pub bytes : r.written ≡ take count (drop sent buf)
  pub complete : (¬ (r.end ≡ success)) ⊎ (count ≡ remaining)

drop-nil : (n : ℕ) → drop {A = ℕ} n [] ≡ []
drop-nil zero = refl
drop-nil (suc n) = refl

drop-drop : (m n : ℕ) (xs : Str) → drop n (drop m xs) ≡ drop (m + n) xs
drop-drop zero n xs = let e : zero + n ≡ n = omega arith in rw e refl
drop-drop (suc m) n [] = rw (drop-nil n, drop-nil (suc m + n)) refl
drop-drop (suc m) n (x ∷ xs) =
    let e : suc m + n ≡ suc (m + n) = omega arith in rw e (drop-drop m n xs)

pub send_loop-Delivers :
    (buf : Str) (sent remaining : ℕ) (rounds : List Round)
    → Honest remaining rounds
    → Delivers buf sent remaining (send_loop buf sent remaining rounds)
unfolding send_loop
send_loop-Delivers buf sent remaining [] h = record {
  count = 0;
  within = omega arith;
  bytes = refl;
  complete = inl (λ e. absurd (cc));
}
send_loop-Delivers buf sent remaining (accepted n ∷ rounds) h =
    elim (Bool-cases (ltb n remaining)) [
      | inl more ↦
          let ih = send_loop-Delivers buf (sent + n) (remaining - n) rounds h.1 in
          rw more (record {
            count = n + ih.count;
            within = omega (arith, h.0, ih.within);
            bytes = rw (ih.bytes, take-add n ih.count (drop sent buf), drop-drop sent n buf) refl;
            complete = elim ih.complete [ inl f ↦ inl f | inr e ↦ inr (omega (arith, e, h.0)) ];
          })
      | inr last ↦
          rw last
            (record { count = n; within = h.0; bytes = refl; complete = inr (ground (arith, h.0)) })
    ]
send_loop-Delivers buf sent remaining (would_block true connected ∷ rounds) h = record {
  count = 0;
  within = omega arith;
  bytes = refl;
  complete = inl (λ e. absurd (cc));
}
send_loop-Delivers buf sent remaining (would_block false true ∷ rounds) h =
    send_loop-Delivers buf sent remaining rounds h
send_loop-Delivers buf sent remaining (would_block false false ∷ rounds) h = record {
  count = 0;
  within = omega arith;
  bytes = refl;
  complete = inl (λ e. absurd (cc));
}
send_loop-Delivers buf sent remaining (refused ∷ rounds) h = record {
  count = 0;
  within = omega arith;
  bytes = refl;
  complete = inl (λ e. absurd (cc));
}
send_loop-Delivers buf sent remaining (no_ssl ∷ rounds) h = record {
  count = 0;
  within = omega arith;
  bytes = refl;
  complete = inl (λ e. absurd (cc));
}

-- A loop over honest writes hands over a first part of the chunk, in order and with nothing missing
-- or repeated, however it ends; if it ends in success, that part is the whole chunk.
pub send_chunk-Delivers :
    (buf : Str) (rounds : List Round)
    → Honest (length buf) rounds
    → Delivers buf 0 (length buf) (send_chunk buf rounds)
unfolding send_chunk
send_chunk-Delivers buf rounds h = send_loop-Delivers buf 0 (length buf) rounds h

-- Over honest writes, a loop that ends in success has handed over the whole chunk.
pub send_chunk_success :
    (buf : Str) (rounds : List Round)
    → Honest (length buf) rounds
    → (send_chunk buf rounds).end ≡ success
    → (send_chunk buf rounds).written ≡ buf
send_chunk_success buf rounds h e =
    let d = send_chunk-Delivers buf rounds h in
    elim d.complete [
      | inl f ↦ absurd (f e)
      | inr all ↦ d.bytes ∙ take_of_length-le d.count buf (omega (arith, all))
    ]

-- Rounds that each take at least one byte.
abbrev pub Moving : List Round → Type 0
Moving [] = Unit
Moving (accepted n ∷ rounds) = (0 < n) × Moving rounds
Moving (would_block failed connected ∷ rounds) = ⊥
Moving (refused ∷ rounds) = ⊥
Moving (no_ssl ∷ rounds) = ⊥

send_loop-progress :
    (buf : Str) (sent remaining : ℕ) (rounds : List Round)
    → Moving rounds
    → 0 < remaining
    → remaining ≤ length rounds
    → (send_loop buf sent remaining rounds).end ≡ success
unfolding send_loop
send_loop-progress buf sent remaining [] m p l = absurd (omega arith)
send_loop-progress buf sent remaining (accepted n ∷ rounds) m p l =
    elim (Bool-cases (ltb n remaining)) [
      | inl more ↦ rw more (
          send_loop-progress buf (sent + n) (remaining - n) rounds m.1 (ground arith)
            (omega (arith, m.0)))
      | inr last ↦ rw last refl
    ]
send_loop-progress buf sent remaining (would_block failed connected ∷ rounds) m p l = absurd m
send_loop-progress buf sent remaining (refused ∷ rounds) m p l = absurd m
send_loop-progress buf sent remaining (no_ssl ∷ rounds) m p l = absurd m

-- While every write takes at least one byte and no more than it is offered, the loop ends in success
-- within as many rounds as the chunk has bytes, and the whole chunk is handed over.
pub send_chunk_total :
    (buf : Str) (rounds : List Round)
    → Honest (length buf) rounds
    → Moving rounds
    → 0 < length buf
    → length buf ≤ length rounds
    → ((send_chunk buf rounds).end ≡ success) × ((send_chunk buf rounds).written ≡ buf)
unfolding send_chunk
send_chunk_total buf rounds h m p l =
    let done = send_loop-progress buf 0 (length buf) rounds m p l in
    (done, send_chunk_success buf rounds h done)

-- Every chunk of a session is handed over whole.
abbrev pub AllSent : List (Str × List Round) → Type 0
AllSent [] = Unit
AllSent ((buf, rounds) ∷ chunks) =
    Honest (length buf) rounds × ((send_chunk buf rounds).end ≡ success) × AllSent chunks

abbrev pub received : List (Str × List Round) → Str
received [] = []
received ((buf, rounds) ∷ chunks) = buf ++ received chunks

forward-received :
    (chunks : List (Str × List Round)) → AllSent chunks → forward chunks ≡ received chunks
unfolding forward
forward-received [] h = refl
forward-received ((buf, rounds) ∷ chunks) h =
    rw (send_chunk_success buf rounds h.0 h.1, forward-received chunks h.2)

-- A handler does not stop at a chunk that it could not send: where only the first `count` bytes of a
-- chunk went through and the chunks after it are sent whole, the peer gets those bytes and at once
-- what follows, with the rest of the chunk missing in between.
pub forward-gap :
    (buf : Str) (rounds : List Round) (chunks : List (Str × List Round))
    → Honest (length buf) rounds
    → AllSent chunks
    → (count : ℕ) × (count ≤ length buf)
      × (forward ((buf, rounds) ∷ chunks) ≡ take count buf ++ received chunks)
      × (length (send_chunk buf rounds).written ≡ count)
unfolding forward
forward-gap buf rounds chunks h sent =
    let d = send_chunk-Delivers buf rounds h in
    (
      d.count,
      d.within,
      rw (d.bytes, forward-received chunks sent) refl,
      rw d.bytes (length-take_of_le d.count buf d.within),
    )
