-- ===== src/Switcher/Rows.antt =====
-- `get_user_server_ports` of server/db/db_func.c: the servers that the database names for a user.
use net_port.Base.{
  ℕ, zero, suc, ◌+◌, ◌%◌, ◌<◌, ◌≡◌, refl, sym, ap, ◌∙◌, Bool, true, false, not, List, [], ◌∷◌,
  Option, none, some, Str, codes, str_eq, atoi, print_decimal, atoi-print_decimal, length, take,
  map, All, ltb, ◌==◌, if◌then◌else◌, arith,
}
use net_port.Proxy.Dynamic.State.{Server, zero_server}
use net_port.Switcher.{Statistics, SwitcherServer, StatisticDb}
use net_port.Switcher.Totals.{load_server_statistics}
pub mod Laws

abbrev pub u16 : ℕ
u16 = 65536

-- The answer to the query: it is not PGRES_TUPLES_OK, or it has rows of named values, with the number
-- of the fields.
pub data Answer : Type 0 where
  refused : Answer
  rows : ℕ → List (List (Str × Str)) → Answer

-- What `memset` and the two assignments after it leave.
abbrev pub new_server : SwitcherServer
new_server = record {
  id = 0;
  server = record zero_server { enable = true };
  statistics = record {
    bytes_received = 0;
    bytes_sent = 0;
    connections_count = 0;
    last_update = 0;
  };
}

-- The body of the loop over the fields; `strtol` is cut to `uint16_t`.
unfoldable pub read_field : Str → Str → SwitcherServer → SwitcherServer
read_field name value s =
    if str_eq name (codes "id")
    then record s { id = atoi u16 value }
    else if str_eq name (codes "input_port")
    then record s { server = record s.server { input_port = atoi u16 value } }
    else if str_eq name (codes "output_port")
    then record s { server = record s.server { output_port = atoi u16 value } }
    else if str_eq name (codes "enable")
    then record s { server = record s.server { enable = not (str_eq value (codes "f")) } }
    else if str_eq name (codes "enable_ssl")
    then record s { server = record s.server { enable_output_ssl = str_eq value (codes "t") } }
    else if str_eq name (codes "enable_input_ssl")
    then record s { server = record s.server { enable_input_ssl = str_eq value (codes "t") } }
    else s

unfoldable pub read_fields : List (Str × Str) → SwitcherServer → SwitcherServer
read_fields [] s = s
read_fields ((name, value) ∷ fields) s = read_fields fields (read_field name value s)

-- The loop over the rows; each server is loaded with its statistics.
unfoldable pub read_rows :
    (db : StatisticDb) → ℕ → List (List (Str × Str)) → db.Store → db.Store × List SwitcherServer
read_rows db now [] d = (d, [])
read_rows db now (r ∷ rs) d =
    let loaded = load_server_statistics db now d (read_fields r new_server) in
    let rest = read_rows db now rs loaded.0 in (rest.0, loaded.1 ∷ rest.1)

-- `servers` and `servers_count`. A NULL array is none.
pub record Listed : Type 0 where
  pub servers : Option (List SwitcherServer)
  pub servers_count : ℕ

-- `get_user_server_ports`: whether the code is 0. The number of rows is cut to `uint16_t`.
unfoldable pub get_user_server_ports :
    (db : StatisticDb) → ℕ → Bool → Answer → db.Store → Listed → db.Store × Listed × Bool
get_user_server_ports db now malloc_ok refused d l = (d, l, false)
get_user_server_ports db now malloc_ok (rows fields rs) d l =
    let qntuples = length rs % u16 in
    let read = read_rows db now (take qntuples rs) d in
    if fields % u16 == 0
    then (d, l, false)
    else if qntuples == 0
    then (d, record { servers = none; servers_count = 0 }, true)
    else if malloc_ok
    then (read.0, record { servers = some read.1; servers_count = qntuples }, true)
    else (d, record { servers = none; servers_count = qntuples }, false)
