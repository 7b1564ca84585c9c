-- ===== src/Security/Tests.antt =====
-- Concrete runs of the models of server/proxy/server/security_features.c.
use net_port.Base.{
  inr, ℕ, ◌*◌, ◌≤◌, ◌≡◌, ◌↔◌, ◌⊎◌, refl, Bool, true, false, List, [], ◌∷◌, map, some, Str, str_eq,
  codes, length, All, ltb, arith,
}
use net_port.Base.Outcome.{done}
use net_port.Security.State.{Entry, Security, initial, get_security_statistics, count_penalties}
use net_port.Security.RateLimit.{
  Verdict, table_full, penalized, allowed, exceeded, passes, find_entry, judge, judge_at,
  check_rate_limit,
}
use net_port.Security.RateLimit.Valid.{IsFull, Realloc, IsValid}
use net_port.Security.RateLimit.Limiter.{Judged, Rows, check_rate_limit-Rows}
use net_port.Security.RateLimit.History.{run_checks, admitted}
use net_port.Security.RateLimit.Quota.{run_checks-quota}
use net_port.Security.RateLimit.Penalty.{Barred, exceeded_bars}
use net_port.Security.RateLimit.LongKey.{long_key_unlimited}
use net_port.Security.Gate.{validate_device_token}
use net_port.Security.Gate.Laws.{Gated, validate_device_token-Gated}
use net_port.Security.Scan.{Tracker, seen, detect_port_scanning}
use net_port.Security.Scan.Laws as Scan
use net_port.Security.Json.{
  suspicious_patterns, starts_with, contains, inner_null, any_pattern, validate_json_input,
}
use net_port.Security.Json.Laws.{Occurs, validate_json_input_iff}

abbrev grants : ℕ → Bool
grants n = ltb n 1_000_000

grants-Realloc : Realloc grants
grants-Realloc n h = ground arith

abbrev device : Str
device = codes "dev-1"

abbrev address : Str
address = codes "10.0.0.7"

abbrev row : Entry
row = record {
  key = device;
  request_count = 99;
  window_start = 1000;
  last_request = 1010;
  penalty_count = 5;
  penalty_until = 900;
}

-- A device with one request left in its window.
abbrev busy : Security
busy = record initial { allocated = true; capacity = 1000; entries = row ∷ [] }

-- The same with no request left.
abbrev spent : Security
spent = record busy { entries = record row { request_count = 100 } ∷ [] }

-- The same while the device is barred.
abbrev barred : Security
barred = record busy {
  entries =
      record row { request_count = 0; window_start = 1020; penalty_count = 6; penalty_until = 1320 }
      ∷ [];
}

busy-IsValid : IsValid busy
busy-IsValid = record {
  has_table = refl;
  in_table = omega arith;
  has_room = omega arith;
  small = omega arith;
  fitting = omega arith;
}

spent-IsValid : IsValid spent
spent-IsValid = record {
  has_table = refl;
  in_table = omega arith;
  has_room = omega arith;
  small = omega arith;
  fitting = omega arith;
}

-- The last request of the window passes, and the next one is refused.
last_request :
    run_checks grants ((device, 1020) ∷ (device, 1021) ∷ (device, 1022) ∷ []) busy
    ≡ done (
      record busy {
        entries =
            record row {
              request_count = 0;
              window_start = 1021;
              last_request = 1020;
              penalty_count = 6;
              penalty_until = 1321;
            }
            ∷ [];
      },
      (device, allowed) ∷ (device, exceeded true) ∷ (device, penalized) ∷ [],
    )
unfolding run_checks check_rate_limit find_entry judge_at judge str_eq
last_request = refl

check_rate_limit-Rows_example :
    ((check_rate_limit grants 1020 (some address) busy ≡ done (busy, table_full))
      × IsFull grants busy)
    ⊎ ((t : Security) × (v : Verdict) × (check_rate_limit grants 1020 (some address) busy
          ≡ done (t, v))
        × Judged address 1020 busy t v
        × Rows address 1020 busy t)
check_rate_limit-Rows_example =
    check_rate_limit-Rows grants address 1020 busy grants-Realloc (omega arith) busy-IsValid

run_checks-quota_example :
    (t : Security) × (vs : List (Str × Verdict)) × (run_checks grants
        ((device, 1020) ∷ (address, 1500) ∷ (device, 1022) ∷ [])
        busy
      ≡ done (t, vs))
    × IsValid t
    × (admitted device vs ≤ 2 * 100)
unfolding str_eq
run_checks-quota_example =
    run_checks-quota grants 1010 device ((device, 1020) ∷ (address, 1500) ∷ (device, 1022) ∷ [])
      busy grants-Realloc (omega arith) (omega arith) busy-IsValid (omega arith)
      (λ _. omega arith, (λ h. absurd (cc), (λ _. omega arith, tt))) (inr (omega arith))

exceeded_bars_example :
    (u : Security) × (vs : List (Str × Verdict)) × (run_checks grants
        ((device, 1100) ∷ (address, 1500) ∷ [])
        barred
      ≡ done (u, vs))
    × IsValid u
    × Barred device vs
unfolding check_rate_limit find_entry judge_at judge str_eq
exceeded_bars_example =
    exceeded_bars grants device 1020 true ((device, 1100) ∷ (address, 1500) ∷ []) spent barred
      grants-Realloc (omega arith) spent-IsValid refl (omega arith)
      (λ _. omega arith, (λ h. absurd (cc), tt))

-- 64 bytes: as long as the longest device id.
abbrev long_id : Str
long_id = codes "0123456789012345678901234567890123456789012345678901234567890123"

long_key_unlimited_example :
    (t : Security) × (vs : List (Str × Verdict)) × (run_checks grants
        (map (λ now. (long_id, now)) (1 ∷ 1 ∷ 1 ∷ []))
        busy
      ≡ done (t, vs))
    × (length vs ≡ 3)
    × All (λ r. passes r.1 ≡ true) vs
long_key_unlimited_example =
    long_key_unlimited grants long_id (1 ∷ 1 ∷ 1 ∷ []) busy grants-Realloc (omega arith)
      (omega arith) busy-IsValid

statistics_of_barred : get_security_statistics 1100 barred ≡ record {
  rate_limit_entries = 1;
  whitelist_entries = 0;
  blacklist_entries = 0;
  active_penalties = 1;
  permanent_blocks = 1;
}
unfolding get_security_statistics count_penalties
statistics_of_barred = refl

abbrev guarded : Security
guarded = record busy { blacklist = codes "10.0.0.9" ∷ []; whitelist = address ∷ [] }

validate_device_token-Gated_example :
    (t : Security) × (ok : Bool) × (validate_device_token grants 1020 1020
        (some device)
        (some device)
        (some address)
        guarded
      ≡ done (t, ok))
    × Gated (some address) guarded t ok
validate_device_token-Gated_example =
    validate_device_token-Gated grants 1020 1020 (some device) (some device) (some address) guarded
      grants-Realloc busy-IsValid'
  where
    busy-IsValid' : IsValid guarded
    busy-IsValid' = record {
      has_table = refl;
      in_table = omega arith;
      has_room = omega arith;
      small = omega arith;
      fitting = omega arith;
    }

-- Four ports of one address within a few seconds.
abbrev scanning : Tracker
scanning = record {
  ip = address;
  ports = 21 ∷ 22 ∷ 23 ∷ 25 ∷ [];
  first_seen = 1000;
  last_seen = 1003;
}

scanning-IsValid : Scan.IsValid scanning
unfolding seen
scanning-IsValid = record { bounded = omega arith; distinct = (refl, (refl, (refl, (refl, tt)))) }

abbrev fifth : (Tracker × Security) × Bool
fifth = detect_port_scanning true true 1004 address 80 (scanning, busy)

abbrev other_address : Str
other_address = codes "10.0.0.8"

abbrev payload : Str
payload = codes "{\"a\":1}"

validate_json_input_iff_example :
    (validate_json_input (some payload) 4096 ≡ true)
    ↔ ((length payload ≤ 4096) × All (λ p. ¬ Occurs p payload) suspicious_patterns)
validate_json_input_iff_example = validate_json_input_iff payload 4096 (omega arith)

traversal_refused : validate_json_input (some (codes "{\"f\":\"../x\"}")) 4096 ≡ false
unfolding validate_json_input inner_null any_pattern contains starts_with
traversal_refused = refl
