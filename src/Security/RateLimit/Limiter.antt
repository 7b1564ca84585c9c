-- ===== src/Security/RateLimit/Limiter.antt =====
-- `check_rate_limit` against independent limiters, one for each key.
use net_port.Base.{
  ℕ, ◌+◌, ◌≤◌, ◌≡◌, refl, ap, ◌∙◌, Bool, [], ◌∷◌, ◌++◌, Option, none, some, ◌⊎◌, inl, inr, Str,
  str_eq, length, length-append, length-set, get_elem?, set, All-set, All-append, All-get_elem?,
  arith, if◌then◌else◌, Option-cases,
}
use net_port.Base.Outcome.{Outcome, done, ◌>>=◌}
use net_port.Security.State.{Entry, Security, key_max}
use net_port.Security.RateLimit.{
  Verdict, table_full, find_entry, fresh_entry, append_entry, judge, judge_at, insert_key,
  check_rate_limit,
}
use net_port.Security.RateLimit.Valid.{
  Realloc, IsFull, KeyFits, IsValid, Room, judge-key, reserve-Room, fresh_entry-key,
  fresh_entry-KeyFits, append_entry_run, judge_at_end,
}
use net_port.Security.RateLimit.Table.{
  lookup, find_entry_hit, find_entry_miss, lookup-set, lookup-append,
}

-- The limiter of one key: its row, or a fresh one.
abbrev pub or_fresh : Str → ℕ → Option Entry → Entry
or_fresh k now none = fresh_entry k now
or_fresh k now (some e) = e

-- A check judges the row of its key.
pub record Judged (k : Str) (now : ℕ) (s : Security) (t : Security) (v : Verdict) : Type 0 where
  pub valid : IsValid t
  pub rows : length t.entries ≤ length s.entries + 1
  pub grown : s.capacity ≤ t.capacity
  pub verdict : v ≡ (judge s.config now (or_fresh k now (lookup k s.entries))).1
  pub config : t.config ≡ s.config
  pub whitelist : t.whitelist ≡ s.whitelist
  pub blacklist : t.blacklist ≡ s.blacklist

-- Every row but the judged one is as it was.
abbrev pub Rows : Str → ℕ → Security → Security → Type 0
Rows k now s t =
    (j : Str)
    → lookup j t.entries ≡ (
        if str_eq k j
        then some (judge s.config now (or_fresh k now (lookup k s.entries))).0
        else lookup j s.entries)

-- A key that is cut on its way into the table has no row of its own.
abbrev Effect : Str → ℕ → Security → Security → Verdict → Type 0
Effect k now s t v = Judged k now s t v × (length k ≤ key_max → Rows k now s t)

-- The row at `i` is judged in place.
judge_at_row :
    (k : Str) (now : ℕ) (s : Security) (i : ℕ) (e : Entry)
    → IsValid s
    → find_entry k s.entries ≡ some i
    → get_elem? s.entries i ≡ some e
    → lookup k s.entries ≡ some e
    → e.key ≡ k
    → (t : Security) × (v : Verdict) × (judge_at now i s ≡ done (t, v)) × Effect k now s t v
unfolding judge_at
judge_at_row k now s i e valid found at hit same = (
  record s { entries = set s.entries i (judge s.config now e).0 },
  (judge s.config now e).1,
  rw (at, judge_at) refl,
  (
    record {
      rows = omega (arith, length-set s.entries i (judge s.config now e).0);
      grown = omega arith;
      valid = record {
        has_table = valid.has_table;
        in_table = omega (arith, length-set s.entries i (judge s.config now e).0, valid.in_table);
        has_room = valid.has_room;
        small = valid.small;
        fitting =
            All-set KeyFits s.entries i (judge s.config now e).0 valid.fitting
              (rw (judge-key s.config now e) (All-get_elem? KeyFits s.entries i valid.fitting at));
      };
      verdict = rw (hit, or_fresh) refl;
      config = refl;
      whitelist = refl;
      blacklist = refl;
    },
    λ _ j.
        rw (hit, or_fresh)
          (lookup-set k j s.entries i (judge s.config now e).0 found
            (judge-key s.config now e ∙ same)),
  ),
)

-- A new key in a table with room.
insert_row :
    (k : Str) (now : ℕ) (s s' : Security)
    → IsValid s
    → Room s s'
    → lookup k s.entries ≡ none
    → (t : Security) × (v : Verdict) × ((append_entry (fresh_entry k now) s'
          >>= judge_at now (length s'.entries))
        ≡ done (t, v))
      × Effect k now s t v
unfolding append_entry judge_at
insert_row k now s s' valid room miss =
    let e' : Entry = (judge s.config now (fresh_entry k now)).0 in
    (
      record s' { entries = s'.entries ++ e' ∷ [] },
      (judge s.config now (fresh_entry k now)).1,
      rw (append_entry_run (fresh_entry k now) s' room.has_table room.has_room) (
          judge_at_end now s' (fresh_entry k now)
          ∙ ap {B = Outcome (Security × Verdict)}
              (λ c. done (
                record s' { entries = s'.entries ++ (judge c now (fresh_entry k now)).0 ∷ [] },
                (judge c now (fresh_entry k now)).1,
              ))
              room.config),
      (
        record {
          rows = rw room.entries (omega (arith, length-append s.entries (e' ∷ [])));
          grown = room.grown;
          valid = record {
            has_table = room.has_table;
            in_table = omega (arith, length-append s'.entries (e' ∷ []), room.has_room);
            has_room = omega (arith, room.has_room);
            small = room.small;
            fitting =
                All-append KeyFits s'.entries (e' ∷ []) (rw room.entries valid.fitting)
                  (rw (judge-key s.config now (fresh_entry k now)) (fresh_entry-KeyFits k now), tt);
          };
          verdict = rw (miss, or_fresh) refl;
          config = room.config;
          whitelist = room.whitelist;
          blacklist = room.blacklist;
        },
        λ short j.
            rw (miss, or_fresh, room.entries)
              (lookup-append k j s.entries e' miss
                (judge-key s.config now (fresh_entry k now) ∙ fresh_entry-key k now short)),
      ),
    )

insert_key-Effect :
    (realloc : ℕ → Bool) (k : Str) (now : ℕ) (s : Security)
    → Realloc realloc
    → IsValid s
    → lookup k s.entries ≡ none
    → ((insert_key realloc now k s ≡ done (s, table_full)) × IsFull realloc s)
      ⊎ ((t : Security) × (v : Verdict) × (insert_key realloc now k s ≡ done (t, v))
          × Effect k now s t v)
unfolding insert_key
insert_key-Effect realloc k now s grants valid miss = elim (reserve-Room realloc s grants valid) [
  | inl (refused, full) ↦ inl (rw (refused, insert_key) refl, full)
  | inr (s', granted, room) ↦
      let (t, v, run, judged) = insert_row k now s s' valid room miss in
      inr (t, v, rw (granted, insert_key) run, judged)
]

-- `check_rate_limit` with both parts of its effect.
check_rate_limit-Effect :
    (realloc : ℕ → Bool) (k : Str) (now : ℕ) (s : Security)
    → Realloc realloc
    → IsValid s
    → ((check_rate_limit realloc now (some k) s ≡ done (s, table_full)) × IsFull realloc s)
      ⊎ ((t : Security) × (v : Verdict) × (check_rate_limit realloc now (some k) s ≡ done (t, v))
          × Effect k now s t v)
unfolding check_rate_limit
check_rate_limit-Effect realloc k now s grants valid =
    elim (Option-cases (find_entry k s.entries)) [
      | inl miss ↦
          rw (miss, check_rate_limit)
            (insert_key-Effect realloc k now s grants valid (find_entry_miss k s.entries miss))
      | inr (i, found) ↦
          let (e, at, hit, same) = find_entry_hit k s.entries i found in
          rw (found, check_rate_limit) (inr (judge_at_row k now s i e valid found at hit same))
    ]

-- On a valid state a check does not fault. Either the table is full and no memory is granted, and
-- the request passes with the state unchanged; or the verdict is that of the key's own limiter,
-- the configuration and the access lists stay, and the state is valid again.
pub check_rate_limit-Judged :
    (realloc : ℕ → Bool) (k : Str) (now : ℕ) (s : Security)
    → Realloc realloc
    → IsValid s
    → ((check_rate_limit realloc now (some k) s ≡ done (s, table_full)) × IsFull realloc s)
      ⊎ ((t : Security) × (v : Verdict) × (check_rate_limit realloc now (some k) s ≡ done (t, v))
          × Judged k now s t v)
check_rate_limit-Judged realloc k now s grants valid =
    elim (check_rate_limit-Effect realloc k now s grants valid) [
      | inl full ↦ inl full
      | inr (t, v, run, effect) ↦ inr (t, v, run, effect.0)
    ]

-- On a valid state, where `realloc` grants no 2^63 bytes or more, a check of a key that fits its
-- field either finds the table full, with no memory for twice its rows granted, and changes nothing, or
-- it keeps the state valid and gives the
-- verdict that the key's own limiter gives; the new row of the key is that limiter's, and every
-- other row is as it was.
pub check_rate_limit-Rows :
    (realloc : ℕ → Bool) (k : Str) (now : ℕ) (s : Security)
    → Realloc realloc
    → length k ≤ key_max
    → IsValid s
    → ((check_rate_limit realloc now (some k) s ≡ done (s, table_full)) × IsFull realloc s)
      ⊎ ((t : Security) × (v : Verdict) × (check_rate_limit realloc now (some k) s ≡ done (t, v))
          × Judged k now s t v
          × Rows k now s t)
check_rate_limit-Rows realloc k now s grants short valid =
    elim (check_rate_limit-Effect realloc k now s grants valid) [
      | inl full ↦ inl full
      | inr (t, v, run, effect) ↦ inr (t, v, run, effect.0, effect.1 short)
    ]

-- A key that has a row is always judged.
pub check_rate_limit-known :
    (realloc : ℕ → Bool) (k : Str) (now : ℕ) (s : Security) (e : Entry)
    → length k ≤ key_max
    → IsValid s
    → lookup k s.entries ≡ some e
    → (t : Security) × (v : Verdict) × (check_rate_limit realloc now (some k) s ≡ done (t, v))
      × Judged k now s t v
      × Rows k now s t
unfolding check_rate_limit
check_rate_limit-known realloc k now s e short valid known =
    elim (Option-cases (find_entry k s.entries)) [
      | inl miss ↦ absurd (cc (find_entry_miss k s.entries miss))
      | inr (i, found) ↦
          let (e, at, hit, same) = find_entry_hit k s.entries i found in
          let (t, v, run, effect) = judge_at_row k now s i e valid found at hit same in
          (t, v, rw (found, check_rate_limit) run, effect.0, effect.1 short)
    ]
