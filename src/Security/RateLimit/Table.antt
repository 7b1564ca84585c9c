-- ===== src/Security/RateLimit/Table.antt =====
-- The rows of the rate-limit table as a map from keys to rows.
use net_port.Base.{
  ℕ, zero, suc, ◌≡◌, refl, List, [], ◌∷◌, ◌++◌, Option, none, some, Str, str_eq, str_eq_iff,
  get_elem?, set, arith, if◌then◌else◌,
}
use net_port.Security.State.{Entry}
use net_port.Security.RateLimit.{find_entry}

-- The first row of a key, as the search finds it.
unfoldable pub lookup : Str → List Entry → Option Entry
lookup k [] = none
lookup k (e ∷ es) = if str_eq e.key k then some e else lookup k es

pub find_entry_hit :
    (k : Str) (es : List Entry) (i : ℕ)
    → find_entry k es ≡ some i
    → (e : Entry) × (get_elem? es i ≡ some e) × (lookup k es ≡ some e) × (e.key ≡ k)
unfolding find_entry lookup
find_entry_hit k [] i h = absurd (cc)
find_entry_hit k (e ∷ es) zero h = (e, refl, ground arith, ground (arith, str_eq_iff e.key k))
find_entry_hit k (e ∷ es) (suc i) h =
    let (x, at, found, same) = find_entry_hit k es i (ground arith) in (x, at, ground arith, same)

pub find_entry_miss : (k : Str) (es : List Entry) → find_entry k es ≡ none → lookup k es ≡ none
unfolding find_entry lookup
find_entry_miss k [] h = refl
find_entry_miss k (e ∷ es) h = ground (arith, find_entry_miss k es)

pub lookup-set :
    (k j : Str) (es : List Entry) (i : ℕ) (e' : Entry)
    → find_entry k es ≡ some i
    → e'.key ≡ k
    → lookup j (set es i e') ≡ (if str_eq k j then some e' else lookup j es)
unfolding find_entry lookup
lookup-set k j [] i e' h q = absurd (cc)
lookup-set k j (e ∷ es) zero e' h q = ground (arith, str_eq_iff e.key k, str_eq_iff k j)
lookup-set k j (e ∷ es) (suc i) e' h q =
    ground (arith, str_eq_iff e.key k, str_eq_iff k j, str_eq_iff e.key j, lookup-set k j es i e')

pub lookup-append :
    (k j : Str) (es : List Entry) (e' : Entry)
    → lookup k es ≡ none
    → e'.key ≡ k
    → lookup j (es ++ e' ∷ []) ≡ (if str_eq k j then some e' else lookup j es)
unfolding lookup
lookup-append k j [] e' h q = ground arith
lookup-append k j (e ∷ es) e' h q =
    ground (arith, str_eq_iff e.key k, str_eq_iff k j, str_eq_iff e.key j, lookup-append k j es e')
