-- ===== src/Devices/Register/Laws.antt =====
-- What a registration that server/proxy/server/device_manager.c answers with `authenticated` rests on.
use net_port.Base.{
  ℕ, ◌≡◌, sym, List, ◌∷◌, some, inl, inr, Str, codes, arith, Option-cases, print_decimal,
}
use mathlib.Core.Path.{subst}
use net_port.Proxy.Dynamic.Start.{ensure_dynamic_server_for_device}
use net_port.Proxy.Dynamic.Healthy.{Serving, ensure_dynamic_server-Serving}
use net_port.Devices.Sql.{
  connect, authenticate, cleanup_device_sessions, insert_session, assign_port, Result, refused,
  command_ok, tuples, Log, run, ask, first_row,
}
use net_port.Devices.Sql.Laws.{first_row-tuples, ask_answers}
use net_port.Devices.Session.{DeviceInfo, device_authenticate}
use net_port.Devices.Token.{generate_session_token}
use net_port.Devices.Response.{Registration, authenticated}
use net_port.Devices.Register.{
  World, Manager, token_size, read_ports, unless_failed, store_session, register_device_session,
  request_of, registration, start_proxy, admit_device,
}

-- The database knows a device by a name and the digest of a token.
pub record Known (w : World) (device_id auth_token : Str) (log : Log) : Type 0 where
  pub digest : Str
  pub row : List Str
  pub rows : List (List Str)
  pub hashed : w.sha256 auth_token ≡ some digest
  pub listed : w.db.answer (connect ∷ log) (authenticate device_id digest) ≡ tuples (row ∷ rows)

-- The database took a session with a token, and gave it two ports.
pub record Stored (w : World) (device_id token : Str) (ports : ℕ × ℕ) : Type 0 where
  pub log : Log
  pub row : List Str
  pub rows : List (List Str)
  pub inserted :
      w.db.answer log
        (insert_session device_id token (codes "0.0.0.0") (print_decimal w.session_timeout))
      ≡ tuples (row ∷ rows)
  pub same_ports : ports ≡ read_ports row

device_authenticate-Known :
    (w : World) (device_id auth_token : Str) (log : Log) (d : DeviceInfo)
    → (device_authenticate w.db w.sha256 device_id auth_token log).1 ≡ some d
    → Known w device_id auth_token log
unfolding device_authenticate ask run
device_authenticate-Known w device_id auth_token log d e =
    elim (Option-cases (w.sha256 auth_token)) [
      | inl no_digest ↦ absurd (ground (arith, no_digest, e))
      | inr (digest, hashed) ↦
          let result = (ask w.db (authenticate device_id digest) log).1 in
          elim (Option-cases (first_row result)) [
            | inl nothing ↦ absurd (ground (arith, hashed, nothing, e))
            | inr (row, first) ↦
                let (rows, answered) = first_row-tuples result first in
                record {
                  digest = digest;
                  row = row;
                  rows = rows;
                  hashed = hashed;
                  listed = ask_answers w.db (authenticate device_id digest) log answered;
                }
          ]
    ]

unless_failed-same :
    (updated : Result) (ports : ℕ × ℕ) {kept : ℕ × ℕ}
    → unless_failed updated ports ≡ some kept
    → kept ≡ ports
unfolding unless_failed
unless_failed-same refused ports e = absurd (cc)
unless_failed-same (command_ok n) ports e = ground (arith, e)
unless_failed-same (tuples rows) ports e = absurd (cc)

store_session-Stored :
    (w : World) (device_id token : Str) (log : Log) (ports : ℕ × ℕ)
    → (store_session w device_id token log).1 ≡ some ports
    → Stored w device_id token ports
unfolding store_session run
store_session-Stored w device_id token log ports e =
    let statement =
      insert_session device_id token (codes "0.0.0.0") (print_decimal w.session_timeout) in
    let inserted = w.db.answer log statement in
    elim (Option-cases (first_row (some inserted))) [
      | inl nothing ↦ absurd (ground (arith, nothing, e))
      | inr (row, first) ↦
          let (rows, answered) = first_row-tuples (some inserted) first in
          record {
            log = log;
            row = row;
            rows = rows;
            inserted = cc;
            same_ports =
                unless_failed-same
                  (w.db.answer (statement ∷ log)
                    (assign_port (print_decimal (read_ports row).0) device_id))
                  (read_ports row) (ground (arith, first, e));
          }
    ]

register_device_session-Stored :
    (w : World) (device_id token : Str) (ip tp : ℕ) (log : Log)
    → (register_device_session w device_id log).1 ≡ some (token, ip, tp)
    → Stored w device_id token (ip, tp)
unfolding register_device_session
register_device_session-Stored w device_id token ip tp log e =
    elim (Option-cases (generate_session_token w.rand_r w.token_time w.seed token_size)) [
      | inl no_token ↦ absurd (ground (arith, no_token, e))
      | inr (made, given) ↦
          let cleaned = ask w.db (cleanup_device_sessions device_id) log in
          elim (Option-cases cleaned.1) [
            | inl closed ↦ absurd (ground (arith, given, closed, e))
            | inr (result, opened) ↦
                elim (Option-cases (store_session w device_id made cleaned.0).1) [
                  | inl failed ↦ absurd (ground (arith, given, opened, failed, e))
                  | inr (kept, stored) ↦
                      let same_token : made ≡ token = ground (arith, given, opened, stored, e) in
                      let same : kept ≡ (ip, tp) = ground (arith, given, opened, stored, e) in
                      rw (sym same_token, sym same)
                        (store_session-Stored w device_id made cleaned.0 kept stored)
                ]
          ]
    ]

-- The server of a device whose registration ends well.
start_proxy-Serving :
    (w : World) (device_id : Str) (d : DeviceInfo) (s : Str × ℕ × ℕ) (m t : Manager)
    (a : Registration)
    → start_proxy w device_id d s m ≡ (t, authenticated a)
    → Serving w.env.accepts s.1 s.2 t.control.registry.machine.heap × (a ≡ registration w d s)
unfolding start_proxy request_of
start_proxy-Serving w device_id d (token, ip, tp) m t a e =
    let q = request_of device_id ip tp d in
    elim (Option-cases (ensure_dynamic_server_for_device w.env q m.control.registry).1) [
      | inl refused_by ↦ absurd (ground (arith, refused_by, e))
      | inr (i, served) ↦
          let r = (ensure_dynamic_server_for_device w.env q m.control.registry).0 in
          let same : r ≡ t.control.registry = ground (arith, served, e) in
          let f = ensure_dynamic_server-Serving w.env q m.control.registry i served in
          (
            subst (λ x. Serving w.env.accepts ip tp x.machine.heap) same f,
            ground (arith, served, e),
          )
    ]

-- Why a device was told that it is registered: the database knows it by its name and the digest of
-- its token, the session with the two ports is stored, and both ports are served.
pub record Admitted (w : World) (device_id auth_token : Str) (log : Log) (a : Registration)
    (t : Manager) : Type 0 where
  pub known : Known w device_id auth_token log
  pub stored : Stored w device_id a.session_token (a.assigned_port, a.tunnel_port)
  pub serving : Serving w.env.accepts a.assigned_port a.tunnel_port t.control.registry.machine.heap

pub admit_device-Admitted :
    (w : World) (device_id auth_token : Str) (m t : Manager) (a : Registration)
    → admit_device w device_id auth_token m ≡ (t, authenticated a)
    → Admitted w device_id auth_token m.log a t
unfolding admit_device registration
admit_device-Admitted w device_id auth_token m t a e =
    let found = device_authenticate w.db w.sha256 device_id auth_token m.log in
    elim (Option-cases found.1) [
      | inl unknown ↦ absurd (ground (arith, unknown, e))
      | inr (d, known) ↦ elim (Option-cases (register_device_session w device_id found.0).1) [
        | inl failed ↦ absurd (ground (arith, known, failed, e))
        | inr ((token, ip, tp), stored) ↦
            let m' : Manager = record m { log = (register_device_session w device_id found.0).0 } in
            let (serving, same) =
              start_proxy-Serving w device_id d (token, ip, tp) m' t a
                (ground (arith, known, stored, e)) in
            rw same record {
              known = device_authenticate-Known w device_id auth_token m.log d known;
              stored = register_device_session-Stored w device_id token ip tp found.0 stored;
              serving = serving;
            }
      ]
    ]
