-- ===== src/Security/Scan/Laws.antt =====
-- What `detect_port_scanning` of server/proxy/server/security_features.c reports, and what it misses.
use net_port.Base.{
  ℕ, ◌+◌, ◌≤◌, ◌<◌, ◌≡◌, ◌≢◌, refl, Bool, true, false, ◌&&◌, List, [], ◌∷◌, ◌++◌, some, Str, str_eq,
  str_eq_refl, length, length-append, take, All, ltb, leb, arith, Bool-cases, inl, inr,
}
use net_port.Security.State.{Security}
use net_port.Security.Access.{check_ip_access}
use net_port.Security.Access.Laws.{check_ip_access-add}
use net_port.Security.Scan.{
  Tracker, ip_max, forget_old, seen, note_port, track_known, track, detect_port_scanning,
}

-- No port is listed twice.
abbrev pub Distinct : List ℕ → Type 0
Distinct [] = Unit
Distinct (p ∷ ps) = (seen p ps ≡ false) × Distinct ps

pub record IsValid (tr : Tracker) : Type 0 where
  pub bounded : length tr.ports ≤ 10
  pub distinct : Distinct tr.ports

seen-append : (p q : ℕ) (ps : List ℕ) → seen p ps ≡ false → p ≢ q → seen p (ps ++ q ∷ []) ≡ false
unfolding seen
seen-append p q [] h ne = ground arith
seen-append p q (x ∷ ps) h ne = ground (arith, seen-append p q ps)

Distinct-append : (p : ℕ) (ps : List ℕ) → seen p ps ≡ false → Distinct ps → Distinct (ps ++ p ∷ [])
unfolding seen
Distinct-append p [] h d = (refl, tt)
Distinct-append p (q ∷ ps) h d =
    (seen-append q p ps d.0 (ground arith), Distinct-append p ps (ground arith) d.1)

note_port-IsValid :
    (tr : Tracker) (p : ℕ)
    → seen p tr.ports ≡ false
    → IsValid tr
    → IsValid (record tr { ports = note_port p tr.ports })
unfolding note_port
note_port-IsValid tr p new valid = elim (Bool-cases (ltb (length tr.ports) 10)) [
  | inl room ↦ rw room (record {
    bounded = ground (arith, length-append tr.ports (p ∷ []));
    distinct = Distinct-append p tr.ports new valid.distinct;
  })
  | inr full ↦ rw full valid
]

relabel : (tr : Tracker) (t : ℕ) → IsValid tr → IsValid (record tr { last_seen = t })
relabel tr t valid = record { bounded = valid.bounded; distinct = valid.distinct }

track_known-IsValid :
    (now port : ℕ) (tr : Tracker) → IsValid tr → IsValid (track_known now port tr).0
unfolding track_known
track_known-IsValid now port tr valid = elim (Bool-cases (seen port tr.ports)) [
  | inl old ↦ rw old (relabel tr now valid)
  | inr new ↦
      let noted = note_port-IsValid tr port new valid in
      elim (Bool-cases (leb 5 (length (note_port port tr.ports)) && ltb now (tr.first_seen + 60))) [
        | inl alarm ↦ rw (new, alarm) noted
        | inr quiet ↦
            rw (new, quiet) (relabel (record tr { ports = note_port port tr.ports }) now noted)
      ]
]

forget_old-IsValid : (now : ℕ) (tr : Tracker) → IsValid tr → IsValid (forget_old now tr)
unfolding forget_old
forget_old-IsValid now tr valid = elim (Bool-cases (ltb (tr.last_seen + 300) now)) [
  | inl old ↦ rw old (record { bounded = omega arith; distinct = tt })
  | inr fresh ↦ rw fresh valid
]

track-IsValid :
    (now : ℕ) (ip : Str) (port : ℕ) (tr : Tracker) → IsValid tr → IsValid (track now ip port tr).0
unfolding track seen
track-IsValid now ip port tr valid = elim (Bool-cases (str_eq tr.ip ip)) [
  | inl same ↦ rw same (track_known-IsValid now port tr valid)
  | inr other ↦ rw other (record { bounded = omega arith; distinct = (refl, tt) })
]

-- The array of ports is never overrun and lists no port twice.
pub detect_port_scanning-IsValid :
    (realloc_ok strdup_ok : Bool) (now : ℕ) (ip : Str) (port : ℕ) (tr : Tracker) (s : Security)
    → IsValid tr
    → IsValid (detect_port_scanning realloc_ok strdup_ok now ip port (tr, s)).0.0
unfolding detect_port_scanning
detect_port_scanning-IsValid realloc_ok strdup_ok now ip port tr s valid =
    track-IsValid now ip port (forget_old now tr) (forget_old-IsValid now tr valid)

track_found :
    (now : ℕ) (ip : Str) (port : ℕ) (tr : Tracker)
    → (track now ip port tr).1 ≡ true
    → (str_eq tr.ip ip ≡ true)
      × (5 ≤ length (track now ip port tr).0.ports)
      × (now < tr.first_seen + 60)
unfolding track track_known
track_found now ip port tr h = ground arith

-- On a valid tracker, a report means that the tracker, which was following this very address and
-- had started less than a minute before, now lists at least five different ports; and where memory
-- is granted, the address is shut out from then on.
pub report_means :
    (now : ℕ) (ip : Str) (port : ℕ) (tr : Tracker) (s : Security)
    → IsValid tr
    → (detect_port_scanning true true now ip port (tr, s)).1 ≡ true
    → (str_eq (forget_old now tr).ip ip ≡ true)
      × (now < (forget_old now tr).first_seen + 60)
      × (5 ≤ length (detect_port_scanning true true now ip port (tr, s)).0.0.ports)
      × Distinct (detect_port_scanning true true now ip port (tr, s)).0.0.ports
      × (check_ip_access (some ip) (detect_port_scanning true true now ip port (tr, s)).0.1 ≡ false)
unfolding detect_port_scanning
report_means now ip port tr s valid h =
    let (same, many, soon) = track_found now ip port (forget_old now tr) h in
    (
      same,
      soon,
      many,
      (track-IsValid now ip port (forget_old now tr) (forget_old-IsValid now tr valid)).distinct,
      rw (h, check_ip_access-add ip ip s, str_eq_refl ip),
    )

-- Connection attempts in turn: the time, the address and the port of each.
unfoldable pub attempts : List (ℕ × Str × ℕ) → Tracker × Security → List Bool
attempts [] st = []
attempts ((now, ip, port) ∷ h) st =
    let (st', found) = detect_port_scanning true true now ip port st in found ∷ attempts h st'

-- No address comes twice in a row, the first being compared with what the tracker holds.
abbrev pub Alternating : Str → List (ℕ × Str × ℕ) → Type 0
Alternating last [] = Unit
Alternating last ((now, ip, port) ∷ h) =
    (str_eq last ip ≡ false) × (str_eq [] ip ≡ false) × Alternating (take ip_max ip) h

track_other :
    (now : ℕ) (ip : Str) (port : ℕ) (tr : Tracker)
    → str_eq tr.ip ip ≡ false
    → str_eq [] ip ≡ false
    → ((track now ip port (forget_old now tr)).1 ≡ false)
      × ((track now ip port (forget_old now tr)).0.ip ≡ take ip_max ip)
unfolding track forget_old
track_other now ip port tr other nonempty = ground arith

-- No scan is reported, on however many ports, as long as no address makes two attempts in a row,
-- counting the one that the tracker holds, and none is empty; an address is compared with the 15
-- bytes that were kept of the one before it.
pub interleaved_unreported :
    (h : List (ℕ × Str × ℕ)) (tr : Tracker) (s : Security)
    → Alternating tr.ip h
    → All (λ found. found ≡ false) (attempts h (tr, s))
unfolding attempts detect_port_scanning
interleaved_unreported [] tr s alt = tt
interleaved_unreported ((now, ip, port) ∷ h) tr s alt =
    let (quiet, kept) = track_other now ip port tr alt.0 alt.1 in
    (quiet, interleaved_unreported h (track now ip port (forget_old now tr)).0 _ (rw kept alt.2))
