-- ===== src/Proxy/Dynamic/Descriptors.antt =====
-- Which descriptors server/proxy/server/proxy_server.c closes when it stops a runtime.
use net_port.Base.{ℕ, zero, suc, ◌≡◌, refl, false, List, [], ◌∷◌, ◌++◌, some, Str, get_elem?, arith}
use net_port.Proxy.Dynamic.State.{Server, Runtime, Machine}
use net_port.Proxy.Dynamic.Stop.{
  descriptor, refuses, socket_descriptors, runtime_descriptors, stop_dynamic_server_runtime,
}
use net_port.Proxy.Dynamic.Open.{Env, fresh_sockets, start_server_listening_threads}

-- Descriptor 0 twice for each of `n` sockets.
abbrev pub zeros : ℕ → List ℕ
zeros zero = []
zeros (suc n) = 0 ∷ 0 ∷ zeros n

fresh-descriptors : (n : ℕ) → socket_descriptors (fresh_sockets n) ≡ zeros n
unfolding socket_descriptors fresh_sockets
fresh-descriptors zero = refl
fresh-descriptors (suc n) = rw (fresh-descriptors n) refl

started-sockets :
    (env : Env) (s : Server) (rt : Runtime)
    → start_server_listening_threads env s ≡ some rt
    → rt.local_sockets ≡ fresh_sockets env.count_socket_thread
unfolding start_server_listening_threads
started-sockets env s rt e = ground (arith, e)

-- Stopping a runtime as it was started, to which nobody has connected, closes descriptor 0 twice for
-- each of its sockets, besides its two listening sockets; the device is not another one's.
pub stop_closes_zero :
    (env : Env) (s : Server) (rt : Runtime) (p : ℕ) (device_id : Str) (m : Machine)
    → start_server_listening_threads env s ≡ some rt
    → get_elem? m.heap p ≡ some rt
    → refuses device_id rt ≡ false
    → (stop_dynamic_server_runtime env.ends (some p) device_id m).closed
      ≡ m.closed
        ++ (zeros env.count_socket_thread
            ++ descriptor rt.server.input
            ++ descriptor rt.server.output)
unfolding stop_dynamic_server_runtime runtime_descriptors
stop_closes_zero env s rt p device_id m started at own =
    rw
      (
        at,
        stop_dynamic_server_runtime,
        own,
        started-sockets env s rt started,
        fresh-descriptors env.count_socket_thread,
      )
      refl
