-- ===== src/Devices/Server/Laws.antt =====
-- What the control server of server/proxy/server/device_manager.c does with the connections it accepts.
use net_port.Base.{
  ℕ, ◌≡◌, refl, sym, ap, ◌∙◌, Bool, true, false, List, [], ◌∷◌, ◌++◌, Option, none, some, Str, take,
}
use net_port.Base.Outcome.{Outcome, done, fault, ◌>>=◌}
use mathlib.Core.List.{append-nil, append_assoc}
use net_port.Proxy.Dynamic.Stop.{descriptor}
use net_port.Devices.Json.{Json}
use net_port.Devices.Register.{Manager}
use net_port.Devices.Messages.{process_json_message}
use net_port.Devices.Server.{
  ControlServer, Conn, Tls, no_object, rejected, accepted, request_max, until_nul,
  control_conn_close, serve_request, shake, handle_device_connection, control_server_thread,
}

-- What a connection asks: its request, if the handshake that it needs succeeds and it can be read.
unfoldable pub request_of : Bool → Option ℕ → Tls → Option Str → Option Str
request_of false ctx tls read = read
request_of true none tls read = none
request_of true (some ctx) no_object read = none
request_of true (some ctx) (rejected ssl) read = none
request_of true (some ctx) (accepted ssl) read = read

-- The TLS object of a connection.
unfoldable pub object_of : Bool → Option ℕ → Tls → List ℕ
object_of false ctx tls = []
object_of true none tls = []
object_of true (some ctx) no_object = []
object_of true (some ctx) (rejected ssl) = ssl ∷ []
object_of true (some ctx) (accepted ssl) = ssl ∷ []

-- A request is one call of `process_json_message`.
unfoldable pub answer : (Str → Option Json) → Option Str → Conn → Manager → Outcome Manager
answer json_loads none c m = done m
answer json_loads (some bytes) c m =
    process_json_message c.world c.answers json_loads (until_nul (take request_max bytes))
      (some c.client_ip) m
    >>= λ r. done r.0

-- The requests of all connections, one after the other.
unfoldable pub answer_all :
    (Str → Option Json) → Bool → Option ℕ → List (Option Conn) → Manager → Outcome Manager
answer_all json_loads ssl ctx [] m = done m
answer_all json_loads ssl ctx (none ∷ cs) m = answer_all json_loads ssl ctx cs m
answer_all json_loads ssl ctx (some c ∷ cs) m =
    answer json_loads (request_of ssl ctx c.tls c.read) c m >>= λ m'.
    answer_all json_loads ssl ctx cs m'

unfoldable pub descriptors : List (Option Conn) → List ℕ
descriptors [] = []
descriptors (none ∷ cs) = descriptors cs
descriptors (some c ∷ cs) = c.fd ∷ descriptors cs

unfoldable pub objects : Bool → Option ℕ → List (Option Conn) → List ℕ
objects ssl ctx [] = []
objects ssl ctx (none ∷ cs) = objects ssl ctx cs
objects ssl ctx (some c ∷ cs) = object_of ssl ctx c.tls ++ objects ssl ctx cs

-- A server that has served some connections.
abbrev pub served : List ℕ → List ℕ → Manager → ControlServer → ControlServer
served fds ssls m s = record s { manager = m; closed = s.closed ++ fds; freed = s.freed ++ ssls }

bind_assoc :
    {A B C : Type 0} (o : Outcome A) (f : A → Outcome B) (g : B → Outcome C)
    → ((o >>= f) >>= g) ≡ (o >>= λ a. f a >>= g)
bind_assoc (done a) f g = refl
bind_assoc fault f g = refl

bind_cong :
    {A B : Type 0} (o : Outcome A) (f g : A → Outcome B)
    → ((a : A) → f a ≡ g a)
    → (o >>= f) ≡ (o >>= g)
bind_cong (done a) f g same = same a
bind_cong fault f g same = refl

serve_request_lem :
    (json_loads : Str → Option Json) (c : Conn) (ssl : Option ℕ) (read : Option Str)
    (s : ControlServer) (k : ControlServer → Outcome ControlServer)
    → (serve_request json_loads c ssl read s >>= λ r. k r.0)
      ≡ (answer json_loads read c s.manager >>= λ m. k (served (c.fd ∷ []) (descriptor ssl) m s))
unfolding serve_request answer control_conn_close
serve_request_lem json_loads c ssl none s k = refl
serve_request_lem json_loads c ssl (some bytes) s k =
    let run =
      process_json_message c.world c.answers json_loads (until_nul (take request_max bytes))
        (some c.client_ip) s.manager in
    bind_assoc run
      (λ r. done (control_conn_close c.fd ssl (record s { manager = r.0 }), some r.1, r.2))
      (λ r. k r.0)
    ∙ sym (bind_assoc run (λ r. done r.0) (λ m. k (served (c.fd ∷ []) (descriptor ssl) m s)))

shake_lem :
    (json_loads : Str → Option Json) (ssl : Bool) (ctx : Option ℕ) (tls : Tls) (c : Conn)
    (s : ControlServer) (k : ControlServer → Outcome ControlServer)
    → (shake json_loads ssl ctx tls c s >>= λ r. k r.0) ≡ (
        answer json_loads (request_of ssl ctx tls c.read) c s.manager >>= λ m.
        k (served (c.fd ∷ []) (object_of ssl ctx tls) m s))
unfolding shake request_of object_of control_conn_close answer
shake_lem json_loads false ctx tls c s k = serve_request_lem json_loads c none c.read s k
shake_lem json_loads true none tls c s k = refl
shake_lem json_loads true (some ctx) no_object c s k = refl
shake_lem json_loads true (some ctx) (rejected ssl) c s k = refl
shake_lem json_loads true (some ctx) (accepted ssl) c s k =
    serve_request_lem json_loads c (some ssl) c.read s k

served-served :
    (fds gds ssls tsls : List ℕ) (m n : Manager) (s : ControlServer)
    → served gds tsls n (served fds ssls m s) ≡ served (fds ++ gds) (ssls ++ tsls) n s
served-served fds gds ssls tsls m n s = λ i. record s {
  manager = n;
  closed = append_assoc s.closed fds gds i;
  freed = append_assoc s.freed ssls tsls i;
}

-- The control server does exactly this: it answers the requests of the connections that it accepts one
-- after the other, each that comes through its handshake and can be read, with the state that the one
-- before has left, and ends in a fault if one of them does; it closes the descriptor of every connection,
-- and frees its TLS object, once each and nothing else.
pub control_server_thread-answer_all :
    (json_loads : Str → Option Json) (cs : List (Option Conn)) (s : ControlServer)
    → control_server_thread json_loads cs s ≡ (
        answer_all json_loads s.enable_ssl s.ssl_ctx cs s.manager >>= λ m.
        done (served (descriptors cs) (objects s.enable_ssl s.ssl_ctx cs) m s))
unfolding control_server_thread answer_all descriptors objects handle_device_connection
control_server_thread-answer_all json_loads [] s = λ i.
    done (record s { closed = sym (append-nil s.closed) i; freed = sym (append-nil s.freed) i })
control_server_thread-answer_all json_loads (none ∷ cs) s =
    control_server_thread-answer_all json_loads cs s
control_server_thread-answer_all json_loads (some c ∷ cs) s =
    let ssl = s.enable_ssl in
    let ctx = s.ssl_ctx in
    let first = answer json_loads (request_of ssl ctx c.tls c.read) c s.manager in
    let own = object_of ssl ctx c.tls in
    let rest : Manager → Outcome ControlServer = λ m. answer_all json_loads ssl ctx cs m >>= λ n.
    done (served (c.fd ∷ descriptors cs) (own ++ objects ssl ctx cs) n s) in
    shake_lem json_loads ssl ctx c.tls c s (control_server_thread json_loads cs)
    ∙ bind_cong first (λ m. control_server_thread json_loads cs (served (c.fd ∷ []) own m s)) rest
        (λ m.
          control_server_thread-answer_all json_loads cs (served (c.fd ∷ []) own m s)
          ∙ bind_cong (answer_all json_loads ssl ctx cs m)
              (λ n.
                done (served (descriptors cs) (objects ssl ctx cs) n (served (c.fd ∷ []) own m s)))
              (λ n. done (served (c.fd ∷ descriptors cs) (own ++ objects ssl ctx cs) n s))
              (λ n.
                ap done
                  (served-served (c.fd ∷ []) (descriptors cs) own (objects ssl ctx cs) m n s)))
    ∙ sym (
        bind_assoc first (answer_all json_loads ssl ctx cs)
          (λ n. done (served (c.fd ∷ descriptors cs) (own ++ objects ssl ctx cs) n s)))
