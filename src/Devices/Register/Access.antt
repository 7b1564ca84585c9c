-- ===== src/Devices/Register/Access.antt =====
-- Who may register a device with server/proxy/server/device_manager.c.
use net_port.Base.{
  ◌≡◌, true, false, Option, some, inl, inr, Str, codes, arith, Bool-cases, Option-cases,
}
use net_port.Base.Outcome.{done}
use net_port.Security.State.{Security}
use net_port.Security.Access.{check_ip_access}
use net_port.Security.RateLimit.Valid.{Realloc, IsValid}
use net_port.Security.Gate.Laws.{validate_device_token-Gated}
use net_port.Devices.Json.{Json, string_at}
use net_port.Devices.Response.{
  Problem, missing_credentials, rate_limited, Registration, error, authenticated,
}
use net_port.Devices.Register.{
  World, Manager, with_security, gated_device, register_with, process_registration_request,
}
use net_port.Devices.Register.Laws.{Admitted, admit_device-Admitted}

-- The request named a device and a token, its caller passes the access lists, and the device is
-- admitted.
pub record Accepted (w : World) (request : Json) (ip : Option Str) (m t : Manager)
    (a : Registration) : Type 0 where
  pub device_id : Str
  pub auth_token : Str
  pub device_given : string_at (codes "device_id") request ≡ some device_id
  pub token_given : string_at (codes "auth_token") request ≡ some auth_token
  pub allowed : check_ip_access ip m.control.security ≡ true
  pub admitted : Admitted w device_id auth_token m.log a t

-- Where a device is told that it is authenticated, by a server whose rate-limit state is valid and
-- whose `realloc` grants no 2^63 bytes or more, its caller passed the access lists, the database
-- listed it under its name and the digest of its token, the database stored the session with both
-- ports, and a runtime listens on both of them.
pub process_registration-Accepted :
    (w : World) (request : Json) (ip : Option Str) (m t : Manager) (a : Registration)
    → Realloc w.realloc
    → IsValid m.control.security
    → process_registration_request w request ip m ≡ done (t, authenticated a)
    → Accepted w request ip m t a
unfolding process_registration_request register_with gated_device
process_registration-Accepted w request ip m t a grants valid e =
    elim (Option-cases (string_at (codes "device_id") request)) [
      | inl no_device ↦ absurd (ground (arith, no_device, e))
      | inr (d, device_given) ↦ elim (Option-cases (string_at (codes "auth_token") request)) [
        | inl no_token ↦ absurd (ground (arith, device_given, no_token, e))
        | inr (token, token_given) ↦
            let (s, ok, run, gated) =
              validate_device_token-Gated w.realloc w.now w.later (some d) (some token) ip
                m.control.security grants valid in
            elim (Bool-cases ok) [
              | inr shut ↦ absurd (ground (arith, device_given, token_given, run, shut, e))
              | inl open_ ↦ record {
                device_id = d;
                auth_token = token;
                device_given = device_given;
                token_given = token_given;
                allowed = ground (arith, gated.answer, open_);
                admitted =
                    admit_device-Admitted w d token (with_security m s) t a
                      (ground (arith, device_given, token_given, run, open_, e));
              }
            ]
      ]
    ]

-- A caller that the access lists refuse gets an error, and nothing of the server changes but its
-- rate-limit state: no statement goes to the database, and no runtime starts or stops. The
-- rate-limit state is valid, and `realloc` grants no 2^63 bytes or more.
pub refused_registration_harmless :
    (w : World) (request : Json) (ip : Option Str) (m : Manager)
    → Realloc w.realloc
    → IsValid m.control.security
    → check_ip_access ip m.control.security ≡ false
    → (s : Security) × (p : Problem) × (process_registration_request w request ip m
        ≡ done (with_security m s, error p))
unfolding process_registration_request register_with gated_device
refused_registration_harmless w request ip m grants valid banned =
    elim (Option-cases (string_at (codes "device_id") request)) [
      | inl no_device ↦ (m.control.security, missing_credentials, ground (arith, no_device))
      | inr (d, device_given) ↦ elim (Option-cases (string_at (codes "auth_token") request)) [
        | inl no_token ↦
            (m.control.security, missing_credentials, ground (arith, device_given, no_token))
        | inr (token, token_given) ↦
            let (s, ok, run, gated) =
              validate_device_token-Gated w.realloc w.now w.later (some d) (some token) ip
                m.control.security grants valid in
            let shut : ok ≡ false = ground (arith, gated.answer, banned) in
            (s, rate_limited, ground (arith, device_given, token_given, run, shut))
      ]
    ]
