-- ===== src/Devices/Pending.antt =====
-- The devices that wait for a TLS reload in server/proxy/server/device_manager.c.
use net_port.Base.{
  ℕ, ◌+◌, ◌-◌, Bool, true, false, ◌&&◌, List, [], ◌∷◌, ◌++◌, Option, none, some, Str, str_eq,
  length, get_elem?, set, take, ltb, if◌then◌else◌,
}
pub mod Laws
pub mod Queue
pub mod Set

-- `TLS_RELOAD_PENDING_MAX` and `DEVICE_ID_MAX_LEN`.
abbrev pub pending_max : ℕ
pending_max = 128

abbrev pub id_max : ℕ
id_max = 64

-- The search loop of both functions, over the `g_tls_reload_pending_count` names in use.
unfoldable pub find_pending : Str → List Str → Option ℕ
find_pending device_id [] = none
find_pending device_id (p ∷ ps) =
    let rest = find_pending device_id ps in
    if str_eq p device_id then some 0 else elim rest [ none ↦ none | some i ↦ some (i + 1) ]

-- `device_manager_set_tls_reload_pending` for a name that is not NULL.
unfoldable pub set_tls_reload_pending : Str → List Str → List Str
set_tls_reload_pending [] ps = ps
set_tls_reload_pending (c ∷ cs) ps = elim (find_pending (c ∷ cs) ps) [
  | some i ↦ ps
  | none ↦ if ltb (length ps) pending_max then ps ++ take id_max (c ∷ cs) ∷ [] else ps
]

-- The last name, cut to its field, takes the place of the one at `i`; the count goes down.
unfoldable pub remove_at : ℕ → List Str → List Str
remove_at i ps =
    let count = length ps in
    let moved : List Str = elim (get_elem? ps (count - 1)) [
      | none ↦ ps
      | some l ↦ set ps i (take id_max l)
    ] in
    take (count - 1) (if ltb i (count - 1) then moved else ps)

-- `device_manager_consume_tls_reload_pending` for a name that is not NULL.
unfoldable pub consume_tls_reload_pending : Str → List Str → List Str × Bool
consume_tls_reload_pending device_id ps = elim (find_pending device_id ps) [
  | none ↦ (ps, false)
  | some i ↦ (remove_at i ps, true)
]
