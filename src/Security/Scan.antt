-- ===== src/Security/Scan.antt =====
-- `detect_port_scanning` of server/proxy/server/security_features.c. The tracker is the function's
-- static variable: it follows one address at a time.
use net_port.Base.{
  ℕ, ◌+◌, Bool, true, false, not, ◌&&◌, List, [], ◌∷◌, ◌++◌, Option, none, some, Str, str_eq,
  length, take, ltb, leb, ◌==◌, if◌then◌else◌,
}
use net_port.Security.State.{Security}
use net_port.Security.Access.{add_temporary_blacklist}
pub mod Laws

-- `ports` are the `port_count` entries in use.
pub record Tracker : Type 0 where
  pub ip : Str
  pub ports : List ℕ
  pub first_seen : ℕ
  pub last_seen : ℕ

-- `{0}`, and what `memset` leaves.
abbrev pub blank : Tracker
blank = record { ip = []; ports = []; first_seen = 0; last_seen = 0 }

-- `INET_ADDRSTRLEN - 1`.
abbrev pub ip_max : ℕ
ip_max = 15

unfoldable pub forget_old : ℕ → Tracker → Tracker
forget_old now tr = if ltb (tr.last_seen + 300) now then blank else tr

unfoldable pub seen : ℕ → List ℕ → Bool
seen p [] = false
seen p (q ∷ qs) = if q == p then true else seen p qs

unfoldable pub note_port : ℕ → List ℕ → List ℕ
note_port p ps = if ltb (length ps) 10 then ps ++ p ∷ [] else ps

-- An address that is tracked already: the tracker with its ports noted, and whether it scans.
unfoldable pub track_known : ℕ → ℕ → Tracker → Tracker × Bool
track_known now port tr =
    let tr' : Tracker = record tr { ports = note_port port tr.ports } in
    if seen port tr.ports
    then (record tr { last_seen = now }, false)
    else if leb 5 (length tr'.ports) && ltb now (tr.first_seen + 60)
    then (tr', true)
    else (record tr' { last_seen = now }, false)

unfoldable pub track : ℕ → Str → ℕ → Tracker → Tracker × Bool
track now ip port tr = if str_eq tr.ip ip then track_known now port tr else (
  record { ip = take ip_max ip; ports = port ∷ []; first_seen = now; last_seen = now },
  false,
)

-- `detect_port_scanning(source_ip, port, timestamp)`: the tracker, the state, and whether a scan was
-- reported. The two flags are the answers of the allocations in `add_temporary_blacklist`.
unfoldable pub detect_port_scanning :
    Bool → Bool → ℕ → Str → ℕ → Tracker × Security → (Tracker × Security) × Bool
detect_port_scanning realloc_ok strdup_ok now ip port (tr, s) =
    let (tr', found) = track now ip port (forget_old now tr) in
    ((tr', (if found then add_temporary_blacklist realloc_ok strdup_ok (some ip) s else s)), found)
