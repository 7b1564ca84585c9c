-- ===== src/Devices/Control/Local.antt =====
-- Who may make the administrator's requests of server/proxy/server/device_manager.c.
use net_port.Base.{
  true, false, str_eq_refl, none, ◌≢◌, ◌≡◌, ◌⊎◌, inl, inr, Option, some, Str, codes, str_eq_iff,
  arith, Bool-cases,
}
use net_port.Devices.Control.{
  Control, Answers, unauthorized, Action, disconnect, reload_tls, reset_rate_limits, run_action,
  is_local_control_request, control_request,
}

-- The addresses that count as local.
abbrev pub IsTrusted : Str → Type 0
IsTrusted ip = (ip ≡ codes "127.0.0.1") ⊎ (ip ≡ codes "::1") ⊎ (ip ≡ codes "0.0.0.0")

local_no : (ip : Str) → is_local_control_request (some ip) ≡ false → ¬ IsTrusted ip
unfolding is_local_control_request
local_no ip remote (inl e) = ground (arith, remote, e, str_eq_refl (codes "127.0.0.1"))
local_no ip remote (inr (inl e)) = ground (arith, remote, e, str_eq_refl (codes "::1"))
local_no ip remote (inr (inr e)) = ground (arith, remote, e, str_eq_refl (codes "0.0.0.0"))

local_yes : (ip : Str) → is_local_control_request (some ip) ≡ true → IsTrusted ip
unfolding is_local_control_request
local_yes ip local = ground (
  arith,
  local,
  str_eq_iff ip (codes "127.0.0.1"),
  str_eq_iff ip (codes "::1"),
  str_eq_iff ip (codes "0.0.0.0"),
)

run_action-authorized :
    (ans : Answers) (action : Action) (device_id : Option Str) (st : Control)
    → (run_action ans action device_id st).1 ≢ unauthorized
unfolding run_action
run_action-authorized ans reset_rate_limits device_id st e = cc
run_action-authorized ans disconnect none st e = cc
run_action-authorized ans disconnect (some d) st e = ground (arith, e)
run_action-authorized ans reload_tls none st e = cc
run_action-authorized ans reload_tls (some d) st e = ground (arith, e)

refused :
    (ans : Answers) (ip : Str) (action : Action) (device_id : Option Str) (st : Control)
    → is_local_control_request (some ip) ≡ false
    → control_request ans (some ip) action device_id st ≡ (st, unauthorized)
unfolding control_request
refused ans ip disconnect device_id st h = ground (arith, h)
refused ans ip reload_tls device_id st h = ground (arith, h)
refused ans ip reset_rate_limits device_id st h = ground (arith, h)

served :
    (ans : Answers) (ip : Str) (action : Action) (device_id : Option Str) (st : Control)
    → is_local_control_request (some ip) ≡ true
    → control_request ans (some ip) action device_id st ≡ run_action ans action device_id st
unfolding control_request
served ans ip disconnect device_id st h = ground (arith, h)
served ans ip reload_tls device_id st h = ground (arith, h)
served ans ip reset_rate_limits device_id st h = ground (arith, h)

-- Whichever of the three requests of the administrator it is: it is refused and changes nothing exactly
-- if its caller does not have one of the three addresses that count as local; otherwise it is not
-- refused.
pub control_request_local :
    (ans : Answers) (ip : Str) (action : Action) (device_id : Option Str) (st : Control)
    → ((control_request ans (some ip) action device_id st ≡ (st, unauthorized)) × ¬ IsTrusted ip)
      ⊎ (((control_request ans (some ip) action device_id st).1 ≢ unauthorized) × IsTrusted ip)
control_request_local ans ip action device_id st =
    elim (Bool-cases (is_local_control_request (some ip))) [
      | inr remote ↦ inl (refused ans ip action device_id st remote, local_no ip remote)
      | inl local ↦ inr (
        rw (served ans ip action device_id st local)
            (run_action-authorized ans action device_id st),
        local_yes ip local,
      )
    ]
