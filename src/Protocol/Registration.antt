-- ===== src/Protocol/Registration.antt =====
-- A registration's answer from `process_registration_request` of server/proxy/server/device_manager.c to
-- `device_register_with_server` of client/proxy/client/proxy_client_device_integration.c.
use net_port.Base.{
  ℕ, ◌^◌, ◌≤◌, ◌<◌, ◌≡◌, refl, true, [], ◌∷◌, inl, inr, Str, codes, str_eq, length,
  take_of_length-le, ◌==◌, arith, Bool-cases,
}
use net_port.Proxy.Dynamic.State.{named}
use net_port.Devices.Json.{end_of, find_member, json_object_get, as_string, as_integer}
use net_port.Devices.Response.{
  Registration, authenticated, address_member, port_member, members, to_json,
}
use net_port.Client.Device.{
  Device, address_max, token_max, text_or_empty, cut_port, read_fields, read_authenticated,
  read_registration,
}

-- The client has the server's settings.
pub record Agrees (a : Registration) (d : Device) : Type 0 where
  pub assigned_port : d.assigned_port ≡ a.assigned_port
  pub tunnel_port : d.tunnel_port ≡ a.tunnel_port
  pub input_tls : d.input_tls ≡ a.input_tls
  pub tunnel_tls : d.tunnel_tls ≡ a.tunnel_tls
  pub session_token : d.session_token ≡ a.session_token
  pub heartbeat_interval : d.heartbeat_interval ≡ a.heartbeat_interval
  pub internal_address : d.internal_address ≡ a.internal_address
  pub internal_port : d.internal_port ≡ a.internal_port
  pub config_token : d.config_token ≡ a.session_token

-- The values fit the client's fields.
pub record Fits (a : Registration) : Type 0 where
  pub assigned_port : a.assigned_port < 2 ^ 16
  pub tunnel_port : a.tunnel_port < 2 ^ 16
  pub heartbeat_interval : a.heartbeat_interval < 2 ^ 32
  pub internal_port : a.internal_port < 2 ^ 16
  pub session_token : length a.session_token ≤ token_max
  pub internal_address : length a.internal_address ≤ address_max

address_read :
    (address : Str) (port : ℕ)
    → text_or_empty (
        as_string (
          find_member
            (codes "internal_address")
            (address_member address (port_member port end_of))))
      ≡ address
unfolding find_member address_member port_member str_eq named
address_read [] port = elim (Bool-cases (port == 0)) [
  | inl none_given ↦ rw none_given refl
  | inr given ↦ rw given refl
]
address_read (c ∷ cs) port = refl

port_read :
    (address : Str) (port : ℕ)
    → port < 2 ^ 16
    → cut_port 0 (
        as_integer
          (find_member (codes "internal_port") (address_member address (port_member port end_of))))
      ≡ port
unfolding find_member address_member port_member str_eq named
port_read [] port small = elim (Bool-cases (port == 0)) [
  | inl none_given ↦ rw none_given (ground (arith, none_given))
  | inr given ↦ rw given (omega (arith, small))
]
port_read (c ∷ cs) port small = elim (Bool-cases (port == 0)) [
  | inl none_given ↦ rw none_given (ground (arith, none_given))
  | inr given ↦ rw given (omega (arith, small))
]

-- A client that reads the server's answer to its registration has the ports, the TLS flags, the token,
-- the interval and the target of the answer, where they fit its fields.
pub read_registration-Agrees :
    (now : ℕ) (a : Registration) (d : Device)
    → Fits a
    → Agrees a (read_registration now (to_json (authenticated a)) d).0
      × ((read_registration now (to_json (authenticated a)) d).1 ≡ true)
unfolding read_registration read_authenticated read_fields members json_object_get find_member
    address_member port_member str_eq named
read_registration-Agrees now a d fits = (
  record {
    assigned_port = omega (arith, fits.assigned_port);
    tunnel_port = omega (arith, fits.tunnel_port);
    input_tls = refl;
    tunnel_tls = refl;
    session_token = take_of_length-le token_max a.session_token fits.session_token;
    heartbeat_interval = omega (arith, fits.heartbeat_interval);
    internal_address =
        rw (address_read a.internal_address a.internal_port)
          (take_of_length-le address_max a.internal_address fits.internal_address);
    internal_port = port_read a.internal_address a.internal_port fits.internal_port;
    config_token = take_of_length-le token_max a.session_token fits.session_token;
  },
  refl,
)
