-- ===== src/Client/Report.antt =====
-- The traffic that client/proxy/client/device_heartbeat.c reports while the threads of
-- client/proxy/client/proxy_client.c go on counting.
use net_port.Base.{ℕ, ◌+◌, List, [], ◌∷◌}
use net_port.Client.Exchange.{Counters}
use net_port.Client.Pump.{
  client_traffic_add_sent, client_traffic_add_received, client_traffic_reset_since_last,
}

-- One count of a thread.
pub data Count : Type 0 where
  sent received : ℕ → Count

unfoldable pub count : Count → Counters → Counters
count (sent n) k = client_traffic_add_sent n k
count (received n) k = client_traffic_add_received n k

unfoldable pub count_all : List Count → Counters → Counters
count_all [] k = k
count_all (c ∷ cs) k = count_all cs (count c k)

-- How an exchange ends: the server does not store the request; it stores it and the client does not
-- get the `ok`; or the client gets it.
pub data Exchanged : Type 0 where
  not_stored answer_lost confirmed : Exchanged

-- A heartbeat: what is counted since the last one, what is counted between the reading of the
-- counters and the end of the exchange, and how the exchange ends.
pub record Beat : Type 0 where
  pub earlier : List Count
  pub meanwhile : List Count
  pub exchanged : Exchanged

-- The byte counts that the server stores, sent and received.
abbrev pub Reported : Type 0
Reported = ℕ × ℕ

-- `send_heartbeat` reads the counters for the request, and sets them to 0 after an `ok`.
unfoldable pub send_beat : Beat → Counters → Reported × Counters
send_beat b k =
    let read = count_all b.earlier k in
    let later = count_all b.meanwhile read in
    elim b.exchanged [
      | not_stored ↦ ((0, 0), later)
      | answer_lost ↦ ((read.bytes_sent, read.bytes_received), later)
      | confirmed ↦ ((read.bytes_sent, read.bytes_received), client_traffic_reset_since_last later)
    ]

unfoldable pub send_beats : List Beat → Counters → Reported × Counters
send_beats [] k = ((0, 0), k)
send_beats (b ∷ bs) k =
    let (r1, k1) = send_beat b k in
    let (r2, k2) = send_beats bs k1 in ((r1.0 + r2.0, r1.1 + r2.1), k2)

unfoldable pub sum_sent : List Count → ℕ
sum_sent [] = 0
sum_sent (sent n ∷ cs) = n + sum_sent cs
sum_sent (received n ∷ cs) = sum_sent cs

-- All that the threads count, and what they count while a confirmed heartbeat is on its way.
unfoldable pub sent_in : List Beat → ℕ
sent_in [] = 0
sent_in (b ∷ bs) = sum_sent b.earlier + sum_sent b.meanwhile + sent_in bs

unfoldable pub lost_in : Beat → ℕ
lost_in b = elim b.exchanged [ not_stored ↦ 0 | answer_lost ↦ 0 | confirmed ↦ sum_sent b.meanwhile ]

unfoldable pub sent_meanwhile : List Beat → ℕ
sent_meanwhile [] = 0
sent_meanwhile (b ∷ bs) = lost_in b + sent_meanwhile bs

-- What has been counted since the last confirmed heartbeat, of which `pending` bytes are from before, is
-- stored once more for each heartbeat whose answer is lost: the sum of these, over all heartbeats.
unfoldable pub repeated_in : Beat → ℕ → ℕ
repeated_in b pending = elim b.exchanged [
  | not_stored ↦ 0
  | answer_lost ↦ pending + sum_sent b.earlier
  | confirmed ↦ 0
]

unfoldable pub pending_after : Beat → ℕ → ℕ
pending_after b pending = elim b.exchanged [
  | not_stored ↦ pending + sum_sent b.earlier + sum_sent b.meanwhile
  | answer_lost ↦ pending + sum_sent b.earlier + sum_sent b.meanwhile
  | confirmed ↦ 0
]

unfoldable pub sent_again : List Beat → ℕ → ℕ
sent_again [] pending = 0
sent_again (b ∷ bs) pending = repeated_in b pending + sent_again bs (pending_after b pending)
