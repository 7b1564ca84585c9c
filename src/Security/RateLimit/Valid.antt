-- ===== src/Security/RateLimit/Valid.antt =====
-- The invariant of the rate-limit table of server/proxy/server/security_features.c, and the steps
-- of a check that grow it.
use net_port.Base.{
  ℕ, ◌*◌, ◌%◌, ◌^◌, ◌≤◌, ◌<◌, ◌≡◌, refl, Bool, true, false, [], ◌∷◌, ◌++◌, none, some, ◌⊎◌, inl,
  inr, Str, length, length-take-le, take_of_length-le, All, arith, ltb, get_elem?-append_end,
  set-append_end, Bool-cases,
}
use mathlib.Core.Path.{subst}
use net_port.Base.Outcome.{done}
use net_port.Security.State.{Entry, RateConfig, Security, size_limit, entry_bytes, key_max}
use net_port.Security.RateLimit.{fresh_entry, reserve, append_entry, judge, judge_at}

-- No allocation exceeds the largest object.
abbrev pub Realloc : (ℕ → Bool) → Type 0
Realloc realloc = (n : ℕ) → realloc n ≡ true → n < 2 ^ 63

abbrev pub KeyFits : Entry → Type 0
KeyFits e = length e.key ≤ key_max

pub record IsValid (s : Security) : Type 0 where
  pub has_table : s.allocated ≡ true
  pub in_table : length s.entries ≤ s.capacity
  pub has_room : 0 < s.capacity
  pub small : s.capacity * entry_bytes < 2 ^ 63
  pub fitting : All KeyFits s.entries

pub judge-key : (c : RateConfig) (now : ℕ) (e : Entry) → (judge c now e).0.key ≡ e.key
unfolding judge
judge-key c now e = ground arith

-- What a successful `reserve` gives: the same state with room for a row.
pub record Room (s s' : Security) : Type 0 where
  pub entries : s'.entries ≡ s.entries
  pub config : s'.config ≡ s.config
  pub whitelist : s'.whitelist ≡ s.whitelist
  pub blacklist : s'.blacklist ≡ s.blacklist
  pub has_table : s'.allocated ≡ true
  pub has_room : length s'.entries < s'.capacity
  pub grown : s.capacity ≤ s'.capacity
  pub small : s'.capacity * entry_bytes < 2 ^ 63

-- The table is full, and the memory for twice its rows is not granted.
abbrev pub IsFull : (ℕ → Bool) → Security → Type 0
IsFull realloc s =
    (length s.entries ≡ s.capacity) × (realloc (2 * s.capacity * entry_bytes) ≡ false)

pub reserve-Room :
    (realloc : ℕ → Bool) (s : Security)
    → Realloc realloc
    → IsValid s
    → ((reserve realloc s ≡ none) × IsFull realloc s)
      ⊎ ((s' : Security) × (reserve realloc s ≡ some s') × Room s s')
unfolding reserve
reserve-Room realloc s grants valid =
    let bytes : ℕ = s.capacity * 2 % size_limit * entry_bytes % size_limit in
    elim (Bool-cases (ltb (length s.entries) s.capacity)) [
      | inl roomy ↦ inr (
        s,
        rw roomy refl,
        record {
          entries = refl;
          config = refl;
          whitelist = refl;
          blacklist = refl;
          has_table = valid.has_table;
          has_room = ground arith;
          grown = omega arith;
          small = valid.small;
        },
      )
      | inr full ↦ elim (Bool-cases (realloc bytes)) [
        | inr refused ↦ inl (
          rw (full, refused) refl,
          (
            ground (arith, full, valid.in_table),
            let size : bytes ≡ 2 * s.capacity * entry_bytes = omega (arith, valid.small) in
                subst (λ n. realloc n ≡ false) size refused,
          ),
        )
        | inl granted ↦ inr (
          record s { allocated = true; capacity = s.capacity * 2 % size_limit },
          rw (full, granted) refl,
          record {
            entries = refl;
            config = refl;
            whitelist = refl;
            blacklist = refl;
            has_table = refl;
            has_room = omega (arith, valid.in_table, valid.has_room, valid.small);
            grown = omega (arith, valid.small);
            small = omega (arith, grants bytes granted, valid.small);
          },
        )
      ]
    ]

pub fresh_entry-key : (k : Str) (now : ℕ) → length k ≤ key_max → (fresh_entry k now).key ≡ k
unfolding fresh_entry
fresh_entry-key k now short = take_of_length-le key_max k short

pub append_entry_run :
    (e : Entry) (s : Security)
    → s.allocated ≡ true
    → length s.entries < s.capacity
    → append_entry e s ≡ done (record s { entries = s.entries ++ e ∷ [] })
unfolding append_entry
append_entry_run e s table room = ground arith

-- The row just appended is judged.
pub judge_at_end :
    (now : ℕ) (s : Security) (e : Entry)
    → judge_at now (length s.entries) (record s { entries = s.entries ++ e ∷ [] })
      ≡ done (
        record s { entries = s.entries ++ (judge s.config now e).0 ∷ [] },
        (judge s.config now e).1,
      )
unfolding judge_at
judge_at_end now s e =
    rw (get_elem?-append_end s.entries e, judge_at)
      (rw (set-append_end s.entries e (judge s.config now e).0))

pub fresh_entry-KeyFits : (k : Str) (now : ℕ) → KeyFits (fresh_entry k now)
unfolding fresh_entry
fresh_entry-KeyFits k now = length-take-le key_max k
