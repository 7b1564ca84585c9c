-- ===== src/Client/Device/Laws.antt =====
-- What the client of client/proxy/client/proxy_client_device_integration.c keeps true of its tunnel.
use net_port.Base.{
  ℕ, ◌+◌, ◌<◌, ◌≡◌, refl, not, ◌||◌, Str, take, inl, inr, Bool, true, false, List, [], ◌∷◌, Option,
  none, some, codes, length, All, ◌++◌, str_eq, arith, Bool-cases, Option-cases,
}
use net_port.Proxy.Dynamic.State.{named}
use net_port.Devices.Json.{Json, string_at, integer_at}
use net_port.Client.Device.{
  Device, Options, SslContext, Settings, u16, ca_max, refresh_client_ssl_context, apply_tunnel_tls,
  tunnel_connect_port, apply_tunnel_settings, apply_output_target, device_apply_reregistration,
  device_apply_tls_settings_update, read_authenticated, read_registration,
  device_register_until_allowed,
}

-- The tunnel uses TLS exactly if the server says that its port does.
abbrev pub Matches : Device → Settings → Type 0
Matches d s = s.enable_ssl ≡ d.tunnel_tls

named-take : (ca_file : Str) → named ca_file ≡ true → named (take ca_max ca_file) ≡ true
unfolding named
named-take [] given = given
named-take (c ∷ cs) given = refl

apply_tunnel_settings-Matches :
    (o : Options) (d : Device) (s : Settings)
    → named o.ca_file ≡ true
    → Matches d (apply_tunnel_settings o d s)
unfolding apply_tunnel_settings apply_tunnel_tls
apply_tunnel_settings-Matches o d s given = elim (Bool-cases d.tunnel_tls) [
  | inl wanted ↦ ground (arith, given, wanted)
  | inr plain ↦ ground (arith, plain)
]

apply_tunnel_settings-named :
    (o : Options) (d : Device) (s : Settings)
    → named o.ca_file ≡ true
    → (not d.tunnel_tls || named (apply_tunnel_settings o d s).ca_file) ≡ true
unfolding apply_tunnel_settings apply_tunnel_tls
apply_tunnel_settings-named o d s given = elim (Bool-cases d.tunnel_tls) [
  | inl wanted ↦ ground (arith, given, wanted, named-take o.ca_file given)
  | inr plain ↦ ground (arith, plain)
]

-- Where a context is there or can be made, `refresh_client_ssl_context` leaves TLS on.
refreshed-Matches :
    (o : Options) (c : SslContext) (d : Device) (s : Settings)
    → named o.ca_file ≡ true
    → (c.is_set || c.can_be_made) ≡ true
    → Matches d (refresh_client_ssl_context c (apply_tunnel_settings o d s))
unfolding refresh_client_ssl_context
refreshed-Matches o c d s given able = ground (
  arith,
  able,
  apply_tunnel_settings-Matches o d s given,
  apply_tunnel_settings-named o d s given,
)

-- With a CA file and a TLS context that is there or can be made, the settings of a new registration use
-- TLS on the tunnel exactly if the server says so, whether or not they can be used.
pub apply_reregistration-Matches :
    (o : Options) (c : SslContext) (d : Device) (s : Settings)
    → named o.ca_file ≡ true
    → (c.is_set || c.can_be_made) ≡ true
    → Matches (device_apply_reregistration o c d s).0 (device_apply_reregistration o c d s).1
unfolding device_apply_reregistration apply_output_target refresh_client_ssl_context
apply_reregistration-Matches o c d s given able = ground (
  arith,
  able,
  apply_tunnel_settings-Matches o d s given,
  apply_tunnel_settings-named o d s given,
)

-- What a heartbeat's TLS flags leave.
pub record Synced (input tunnel : Bool) (d : Device) (s : Settings) : Type 0 where
  pub input_tls : d.input_tls ≡ input
  pub tunnel_tls : d.tunnel_tls ≡ tunnel
  pub matches : Matches d s

-- With a CA file and a TLS context, a client whose tunnel uses TLS exactly if the server says so keeps to that when a
-- heartbeat brings new flags, and has these flags.
pub apply_tls_settings-Synced :
    (o : Options) (c : SslContext) (input_tls tunnel_tls force_reload : Bool) (d : Device)
    (s : Settings)
    → named o.ca_file ≡ true
    → (c.is_set || c.can_be_made) ≡ true
    → Matches d s
    → Synced input_tls tunnel_tls
        (device_apply_tls_settings_update o c input_tls tunnel_tls force_reload d s).0
        (device_apply_tls_settings_update o c input_tls tunnel_tls force_reload d s).1
unfolding device_apply_tls_settings_update
apply_tls_settings-Synced o c input_tls tunnel_tls force_reload d s given able before =
    let d' : Device = record d { input_tls = input_tls; tunnel_tls = tunnel_tls } in
    let after = refreshed-Matches o c d' s given able in
    record {
      input_tls = ground arith;
      tunnel_tls = ground arith;
      matches = ground (arith, after, before);
    }

-- A mapped port: where the range of host ports starts at `port_host_base` and that of the server at
-- `port_range_start`, the tunnel connects to the host port with the same place in its range, if it
-- stays below 2^16.
pub tunnel_connect_port_mapped :
    (o : Options) (d : Device) (place : ℕ)
    → o.tunnel_port_override ≡ 0
    → 0 < o.port_host_base
    → o.port_range_start < u16
    → d.tunnel_port ≡ o.port_range_start + place
    → o.port_host_base + place < u16
    → tunnel_connect_port o d ≡ o.port_host_base + place
unfolding tunnel_connect_port
tunnel_connect_port_mapped o d place no_override mapped start at fits =
    ground (arith, no_override, mapped, at)

-- An attempt that the server does not allow: no answer, or one that is refused.
abbrev pub Refused : ℕ → Device → Option Json → Type 0
Refused now d none = Unit
Refused now d (some response) = (read_registration now response d).1 ≡ false

refused_unchanged :
    (now : ℕ) (response : Json) (d : Device)
    → (read_registration now response d).1 ≡ false
    → (read_registration now response d).0 ≡ d
unfolding read_registration read_authenticated
refused_unchanged now response d e = elim (Option-cases (string_at (codes "status") response)) [
  | inl silent ↦ ground (arith, silent)
  | inr (status, said) ↦ elim (Bool-cases (str_eq status (codes "authenticated"))) [
    | inr other ↦ ground (arith, said, other)
    | inl welcome ↦ elim (Option-cases (integer_at (codes "assigned_port") response)) [
      | inl no_port ↦ ground (arith, said, welcome, no_port)
      | inr (port, ported) ↦ elim (Option-cases (string_at (codes "session_token") response)) [
        | inl no_token ↦ ground (arith, said, welcome, ported, no_token)
        | inr (token, given) ↦ absurd (ground (arith, said, welcome, ported, given, e))
      ]
    ]
  ]
]

-- The registration ends with the first answer that allows it, after one attempt more than there were
-- refused ones; what the client then has is read from that answer alone.
pub register_until_allowed-first :
    (now : ℕ) (d : Device) (attempts : List (Option Json)) (response : Json)
    (more : List (Option Json))
    → All (Refused now d) attempts
    → (read_registration now response d).1 ≡ true
    → device_register_until_allowed now (attempts ++ some response ∷ more) d
      ≡ ((read_registration now response d).0, length attempts + 1, true)
unfolding device_register_until_allowed
register_until_allowed-first now d [] response more refused allowed = ground (arith, allowed)
register_until_allowed-first now d (none ∷ attempts) response more refused allowed =
    ground (arith, register_until_allowed-first now d attempts response more refused.1 allowed)
register_until_allowed-first now d (some other ∷ attempts) response more refused allowed = ground (
  arith,
  refused.0,
  refused_unchanged now other d refused.0,
  register_until_allowed-first now d attempts response more refused.1 allowed,
)
