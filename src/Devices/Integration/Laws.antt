-- ===== src/Devices/Integration/Laws.antt =====
-- server/proxy/server/proxy_server_device_integration.c: a device manager that is shut down and set up again.
use net_port.Base.{
  ℕ, ◌≡◌, refl, sym, ap, ◌∙◌, Bool, true, false, List, Option, [], some, Str, if◌then◌else◌,
}
use mathlib.Core.Path.{subst}
use mathlib.Core.Logic.{◌⊎◌}
use net_port.Base.Outcome.{done, fault}
use net_port.Security.RateLimit.{table_full, check_rate_limit}
use net_port.Devices.Json.{Json}
use net_port.Devices.Server.{ControlServer, Conn, Context, listening, control_server_thread}
use net_port.Devices.Server.Laws.{descriptors, served}
use net_port.Devices.Server.Restart.{
  restarted-opened, opened, stopped, device_manager_init-again, device_manager_stop-stopped,
  device_manager_start-listening, restarted_answers_nobody,
}
use net_port.Devices.Integration.{
  Integration, device_config, init_device_manager_from_config, start_manager,
  servers_init_with_device_management, device_management_shutdown,
}

init_device_manager_from_config-again :
    (c : Context) (calloc_ok : Bool) (cert_file key_file : Option Str) (d : ControlServer)
    → d.initialized ≡ true
    → init_device_manager_from_config c calloc_ok cert_file key_file
        (record { enabled = false; device = d })
      ≡ (record { enabled = true; device = d }, true)
unfolding init_device_manager_from_config
init_device_manager_from_config-again c calloc_ok cert_file key_file d initialized =
    let i : Integration = record { enabled = false; device = d } in
    let finish : ControlServer × Bool → Integration × Bool = λ r.
      if r.1
      then (record { enabled = true; device = r.0 }, true)
      else (record i { device = r.0 }, false) in
    ap finish
      (device_manager_init-again c calloc_ok (device_config cert_file key_file) d initialized)

start_manager-listening :
    (fd : ℕ) (d : ControlServer)
    → d.initialized ≡ true
    → d.running ≡ false
    → start_manager (listening fd) true (record { enabled = true; device = d })
      ≡ record { enabled = true; device = opened fd d }
unfolding start_manager
start_manager-listening fd d initialized idle =
    let i : Integration = record { enabled = true; device = d } in
    let finish : ControlServer × Bool → Integration =
      λ r. if r.1 then record i { device = r.0 } else record { enabled = false; device = r.0 } in
    ap finish (device_manager_start-listening fd d initialized idle)

-- Shut down, and set up and started again.
abbrev pub set_up_again : Context → Bool → Option Str → Option Str → ℕ → Integration → Integration
set_up_again c calloc_ok cert_file key_file fd i =
    servers_init_with_device_management c calloc_ok cert_file key_file (listening fd) true
      (device_management_shutdown i)

set_up_again-opened :
    (c : Context) (calloc_ok : Bool) (cert_file key_file : Option Str) (fd : ℕ) (d : ControlServer)
    → d.initialized ≡ true
    → d.running ≡ true
    → set_up_again c calloc_ok cert_file key_file fd (record { enabled = true; device = d })
      ≡ record { enabled = true; device = opened fd (stopped d) }
unfolding servers_init_with_device_management device_management_shutdown
set_up_again-opened c calloc_ok cert_file key_file fd d initialized running =
    let again : ControlServer → Integration = λ x.
      servers_init_with_device_management c calloc_ok cert_file key_file (listening fd) true
        (record { enabled = false; device = x }) in
    let finish : Integration × Bool → Integration =
      λ r. if r.1 then start_manager (listening fd) true r.0 else r.0 in
    ap again (device_manager_stop-stopped d running)
    ∙ ap finish (
        init_device_manager_from_config-again c calloc_ok cert_file key_file (stopped d)
          initialized)
    ∙ start_manager-listening fd (stopped d) initialized refl

-- Let the device manager be enabled and running with TLS. After `device_management_shutdown` and a
-- `servers_init_with_device_management` whose start succeeds it is enabled and runs again, and answers
-- nobody: it closes every connection without reading from it, and no connection changes its state. And
-- its rate limits are off: a check of any key passes because there is no room for it, or writes outside
-- of the table.
pub set_up_again_answers_nobody :
    (c : Context) (calloc_ok : Bool) (cert_file key_file : Option Str) (fd : ℕ) (d : ControlServer)
    (json_loads : Str → Option Json) (cs : List (Option Conn)) (realloc : ℕ → Bool) (now : ℕ)
    (key : Str)
    → d.initialized ≡ true
    → d.running ≡ true
    → d.enable_ssl ≡ true
    → let i =
        set_up_again c calloc_ok cert_file key_file fd (record { enabled = true; device = d }) in
      (i.enabled ≡ true)
      × (i.device.running ≡ true)
      × (control_server_thread json_loads cs i.device
          ≡ done (served (descriptors cs) [] i.device.manager i.device))
      × ((check_rate_limit realloc now (some key) i.device.manager.control.security ≡ fault)
          ⊎ (check_rate_limit realloc now (some key) i.device.manager.control.security
              ≡ done (i.device.manager.control.security, table_full)))
set_up_again_answers_nobody c calloc_ok cert_file key_file fd d json_loads cs realloc now key
      initialized running tls =
    let same = set_up_again-opened c calloc_ok cert_file key_file fd d initialized running in
    let config = device_config cert_file key_file in
    let device =
      ap (λ i. i.device) same
      ∙ sym (restarted-opened c calloc_ok config fd d initialized running) in
    let bare =
      restarted_answers_nobody c calloc_ok config fd d json_loads cs realloc now key initialized
        running tls in
    let silent : ControlServer → Type 0 = λ t.
      (t.running ≡ true)
      × (control_server_thread json_loads cs t ≡ done (served (descriptors cs) [] t.manager t))
      × ((check_rate_limit realloc now (some key) t.manager.control.security ≡ fault)
          ⊎ (check_rate_limit realloc now (some key) t.manager.control.security
              ≡ done (t.manager.control.security, table_full))) in
    let found = subst silent (sym device) bare in
    (ap (λ i. i.enabled) same, found.0, found.1, found.2)
