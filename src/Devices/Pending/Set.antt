-- ===== src/Devices/Pending/Set.antt =====
-- What the queue of server/proxy/server/device_manager.c keeps.
use net_port.Base.{
  ℕ, ◌+◌, ◌≤◌, ◌<◌, ◌≡◌, refl, Bool, true, false, not, ◌&&◌, ◌||◌, List, [], ◌∷◌, ◌++◌, none, some,
  inl, inr, Str, str_eq, str_eq_iff, length, length-append, length-set, take_of_length-le, ltb, All,
  All-append, All-set, arith,
}
use mathlib.Core.Path.{subst, sym}
use net_port.Devices.Pending.{
  pending_max, id_max, find_pending, set_tls_reload_pending, remove_at, consume_tls_reload_pending,
}
use net_port.Devices.Pending.Laws.{
  waits, Distinct, Fits, IsValid, find_pending-waits, waits-append, Distinct-append_end,
  replace-waits,
}
use net_port.Devices.Pending.Queue.{snoc, found_snoc, remove_at-snoc, Distinct-set}

waits-one : (e z : Str) → waits e (z ∷ []) ≡ str_eq z e
unfolding waits
waits-one e z = ground arith

find_pending-nil : (d : Str) → find_pending d [] ≡ none
unfolding find_pending
find_pending-nil d = refl

-- The queue `qs` holds what `ps` holds and `d`.
pub record Joined (d : Str) (ps qs : List Str) : Type 0 where
  pub valid : IsValid qs
  pub names : (e : Str) → waits e qs ≡ (waits e ps || str_eq d e)

-- On a valid queue with room, a device with a name that fits its field waits after
-- `device_manager_set_tls_reload_pending`, and of the others those that waited before; the queue
-- stays valid.
pub set_tls_reload_pending-Joined :
    (c : ℕ) (cs : Str) (ps : List Str)
    → IsValid ps
    → length (c ∷ cs) ≤ id_max
    → length ps < pending_max
    → Joined (c ∷ cs) ps (set_tls_reload_pending (c ∷ cs) ps)
unfolding set_tls_reload_pending
set_tls_reload_pending-Joined c cs ps h fits room =
    let d : Str = c ∷ cs in
    let open_place : ltb (length ps) pending_max ≡ true = ground (arith, room) in
    elim (find_pending-waits d ps) [
      | inr (i, found, present) ↦
          rw (found, set_tls_reload_pending)
            (record { valid = h; names = λ e. ground (arith, present, str_eq_iff d e) })
      | inl (missing, out) ↦
          rw (missing, set_tls_reload_pending, open_place, take_of_length-le id_max d fits)
            (record {
              valid = record {
                bounded = omega (arith, length-append ps (d ∷ []), room);
                distinct = Distinct-append_end ps d h.distinct out;
                fitting = All-append Fits ps (d ∷ []) h.fitting (fits, tt);
              };
              names = λ e. ground (arith, waits-append e ps (d ∷ []), waits-one e d);
            })
    ]

Distinct-snoc :
    (xs : List Str) (z : Str) → Distinct (xs ++ z ∷ []) → Distinct xs × (waits z xs ≡ false)
unfolding waits
Distinct-snoc [] z h = (tt, refl)
Distinct-snoc (x ∷ xs) z h =
    let (d, out) = Distinct-snoc xs z h.1 in
    (
      (ground (arith, h.0, waits-append x xs (z ∷ [])), d),
      ground (arith, h.0, out, waits-append x xs (z ∷ []), str_eq_iff x z, str_eq_iff z x),
    )

Fits-snoc : (xs : List Str) (z : Str) → All Fits (xs ++ z ∷ []) → All Fits xs × Fits z
Fits-snoc [] z h = (tt, h.0)
Fits-snoc (x ∷ xs) z h = let (all, last) = Fits-snoc xs z h.1 in ((h.0, all), last)

-- The queue `qs` holds what `ps` holds without `d`, and `found` says whether `d` waited.
pub record Left (d : Str) (ps qs : List Str) (found : Bool) : Type 0 where
  pub valid : IsValid qs
  pub answer : found ≡ waits d ps
  pub names : (e : Str) → waits e qs ≡ (waits e ps && not (str_eq d e))

remove_at-Left :
    (d z : Str) (xs : List Str) (i : ℕ)
    → IsValid (xs ++ z ∷ [])
    → find_pending d (xs ++ z ∷ []) ≡ some i
    → waits d (xs ++ z ∷ []) ≡ true
    → Left d (xs ++ z ∷ []) (remove_at i (xs ++ z ∷ [])) true
remove_at-Left d z xs i h found present =
    let (dist, out) = Distinct-snoc xs z h.distinct in
    let (all, last) = Fits-snoc xs z h.fitting in
    let size : length xs + 1 ≤ pending_max = omega (arith, h.bounded, length-append xs (z ∷ [])) in
    let both : (e : Str) → waits e (xs ++ z ∷ []) ≡ (waits e xs || str_eq z e) =
      λ e. ground (arith, waits-append e xs (z ∷ []), waits-one e z) in
    elim (found_snoc d z xs i found) [
      | inl (before, below) ↦
          let first : ltb i (length xs) ≡ true = ground (arith, below) in
          let within : waits d xs ≡ true = elim (find_pending-waits d xs) [
            | inl (missing, _) ↦ absurd (ground (arith, missing, before))
            | inr (_, _, there) ↦ there
          ] in
          rw (remove_at-snoc xs z i last, first)
            (record {
              valid = record {
                bounded = omega (arith, size, length-set xs i z);
                distinct = Distinct-set z xs i dist out;
                fitting = All-set Fits xs i z all last;
              };
              answer = rw present refl;
              names = λ e. ground (
                arith,
                both e,
                replace-waits d e z xs i before dist out,
                within,
                out,
                str_eq_iff z e,
                str_eq_iff d e,
              );
            })
      | inr (absent, same, at) ↦
          let end : ltb i (length xs) ≡ false = ground (arith, at) in
          rw (remove_at-snoc xs z i last, end)
            (record {
              valid = record { bounded = omega (arith, size); distinct = dist; fitting = all };
              answer = rw present refl;
              names = λ e.
                  ground
                    (arith, both e, absent, same, str_eq_iff z d, str_eq_iff z e, str_eq_iff d e);
            })
    ]

-- On a valid queue, `device_manager_consume_tls_reload_pending` tells whether the device waited, takes
-- it out and no other, and leaves the queue valid.
pub consume_tls_reload_pending-Left :
    (d : Str) (ps : List Str)
    → IsValid ps
    → Left d ps (consume_tls_reload_pending d ps).0 (consume_tls_reload_pending d ps).1
unfolding consume_tls_reload_pending
consume_tls_reload_pending-Left d ps h = elim (find_pending-waits d ps) [
  | inl (missing, out) ↦
      rw (missing, consume_tls_reload_pending)
        (record {
          valid = h;
          answer = rw out refl;
          names = λ e. ground (arith, out, str_eq_iff d e);
        })
  | inr (i, found, present) ↦ elim (snoc ps) [
    | inl empty ↦ absurd (ground (arith, empty, found, find_pending-nil d))
    | inr (xs, z, shape) ↦
        rw (found, consume_tls_reload_pending)
          (subst
            (λ q.
              IsValid q
              → find_pending d q ≡ some i
              → waits d q ≡ true
              → Left d q (remove_at i q) true)
            (sym shape) (remove_at-Left d z xs i) h found present)
  ]
]
