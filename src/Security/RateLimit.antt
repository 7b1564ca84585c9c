-- ===== src/Security/RateLimit.antt =====
-- `check_rate_limit` of server/proxy/server/security_features.c.
-- Time is an argument. `realloc n` says whether a request for `n` bytes is granted.
pub mod Table
pub mod Valid
pub mod Limiter
pub mod History
pub mod Quota
pub mod Penalty
pub mod LongKey
use net_port.Base.{
  ℕ, ◌+◌, ◌*◌, ◌%◌, ◌<◌, ◌≡◌, Bool, true, false, ◌&&◌, List, [], ◌∷◌, ◌++◌, Option, none, some, Str,
  str_eq, length, get_elem?, set, take, ltb, leb, if◌then◌else◌,
}
use net_port.Base.Outcome.{Outcome, done, fault, ◌>>=◌}
use net_port.Security.State.{Entry, RateConfig, Security, u32, size_limit, entry_bytes, key_max}

-- How a check ends: the return code with the branch that it comes from. `exceeded` tells whether
-- the branch reports a permanent block.
pub data Verdict : Type 0 where
  no_key table_full penalized allowed : Verdict
  exceeded : Bool → Verdict

-- The return code is 0.
abbrev pub passes : Verdict → Bool
passes penalized = false
passes (exceeded permanent) = false
passes _ = true

-- The search loop.
unfoldable pub find_entry : Str → List Entry → Option ℕ
find_entry key [] = none
find_entry key (e ∷ es) =
    if str_eq e.key key
    then some 0
    else elim (find_entry key es) [ none ↦ none | some i ↦ some (i + 1) ]

-- The row of a new key: `strncpy` keeps `key_max` bytes.
unfoldable pub fresh_entry : Str → ℕ → Entry
fresh_entry key now = record {
  key = take key_max key;
  request_count = 0;
  window_start = now;
  last_request = 0;
  penalty_count = 0;
  penalty_until = 0;
}

-- Room for one more row: `none` if the table is full and cannot grow.
unfoldable pub reserve : (ℕ → Bool) → Security → Option Security
reserve realloc s =
    if ltb (length s.entries) s.capacity
    then some s
    else let new_capacity = s.capacity * 2 % size_limit in
      if realloc (new_capacity * entry_bytes % size_limit)
      then some (record s { allocated = true; capacity = new_capacity })
      else none

-- The write of a new row behind the last one.
unfoldable pub append_entry : Entry → Security → Outcome Security
append_entry e s =
    if s.allocated && ltb (length s.entries) s.capacity
    then done (record s { entries = s.entries ++ e ∷ [] })
    else fault

-- The expired window.
unfoldable pub roll_window : RateConfig → ℕ → Entry → Entry
roll_window c now e =
    if leb (e.window_start + c.window_seconds) now
    then record e { window_start = now; request_count = 0 }
    else e

-- The request count against its limit.
unfoldable pub charge : RateConfig → ℕ → Entry → Entry × Verdict
charge c now e =
    let penalties = (e.penalty_count + 1) % u32 in
    if leb c.max_requests e.request_count
    then (
      record e {
        penalty_count = penalties;
        penalty_until = now + c.penalty_seconds;
        request_count = 0;
        window_start = now;
      },
      exceeded (leb c.max_penalties penalties),
    )
    else (record e { request_count = (e.request_count + 1) % u32; last_request = now }, allowed)

-- All that happens to a row once it is found.
unfoldable pub judge : RateConfig → ℕ → Entry → Entry × Verdict
unfolding roll_window charge
judge c now e =
    if ltb now e.penalty_until then (e, penalized) else charge c now (roll_window c now e)

-- The row behind the pointer `entry`.
unfoldable pub judge_at : ℕ → ℕ → Security → Outcome (Security × Verdict)
judge_at now i s = elim (get_elem? s.entries i) [
  | none ↦ fault
  | some e ↦
      let (e', v) = judge s.config now e in done (record s { entries = set s.entries i e' }, v)
]

unfoldable pub insert_key : (ℕ → Bool) → ℕ → Str → Security → Outcome (Security × Verdict)
insert_key realloc now key s = elim (reserve realloc s) [
  | none ↦ done (s, table_full)
  | some s' ↦ do s'' ← append_entry (fresh_entry key now) s'; judge_at now (length s'.entries) s''
]

-- `check_rate_limit(key, source_ip)`; the address is only logged.
unfoldable pub check_rate_limit :
    (ℕ → Bool) → ℕ → Option Str → Security → Outcome (Security × Verdict)
check_rate_limit realloc now none s = done (s, no_key)
check_rate_limit realloc now (some key) s = elim (find_entry key s.entries) [
  | some i ↦ judge_at now i s
  | none ↦ insert_key realloc now key s
]
