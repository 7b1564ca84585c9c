-- ===== src/Devices/Integration.antt =====
-- server/proxy/server/proxy_server_device_integration.c: the device manager beside the other servers.
use net_port.Base.{
  ℕ, ◌≡◌, refl, sym, ap, ◌∙◌, Bool, true, false, not, ◌&&◌, List, Option, [], none, some, Str, take,
  if◌then◌else◌, if-true, if-false,
}
use net_port.Proxy.Dynamic.State.{named}
use net_port.Proxy.Dynamic.Open.{path_max}
use net_port.Devices.Server.{
  ControlServer, Context, Port, listening, device_manager_init, device_manager_start,
  device_manager_stop,
}
pub mod Laws

-- `g_device_manager_enabled`, and the device manager.
pub record Integration : Type 0 where
  pub enabled : Bool
  pub device : ControlServer

-- A path of the command line. NULL is none.
unfoldable pub config_path : Option Str → Str
config_path none = []
config_path (some p) = take path_max p

-- `g_device_config`: TLS is on where both paths are given.
unfoldable pub device_config : Option Str → Option Str → Bool × Str × Str
device_config cert_file key_file = (
  named (config_path cert_file) && named (config_path key_file),
  config_path cert_file,
  config_path key_file,
)

-- `init_device_manager_from_config`: whether the code is 0.
unfoldable pub init_device_manager_from_config :
    Context → Bool → Option Str → Option Str → Integration → Integration × Bool
init_device_manager_from_config c calloc_ok cert_file key_file i =
    let r = device_manager_init c calloc_ok (device_config cert_file key_file) i.device in
    if r.1
    then (record { enabled = true; device = r.0 }, true)
    else (record i { device = r.0 }, false)

-- The start of the device manager.
unfoldable pub start_manager : Port → Bool → Integration → Integration
start_manager port thread_ok i =
    let r = device_manager_start port thread_ok i.device in
    if r.1 then record i { device = r.0 } else record { enabled = false; device = r.0 }

-- `servers_init_with_device_management`, behind `servers_init`.
unfoldable pub servers_init_with_device_management :
    Context → Bool → Option Str → Option Str → Port → Bool → Integration → Integration
servers_init_with_device_management c calloc_ok cert_file key_file port thread_ok i =
    let ready = init_device_manager_from_config c calloc_ok cert_file key_file i in
    if i.enabled
    then start_manager port thread_ok i
    else if ready.1
    then start_manager port thread_ok ready.0
    else ready.0

-- `device_management_shutdown`.
unfoldable pub device_management_shutdown : Integration → Integration
device_management_shutdown i =
    if i.enabled then record { enabled = false; device = device_manager_stop i.device } else i
