-- ===== src/Switcher/Rows/Laws.antt =====
-- The rows of the table `servers` are read back as they were written.
use net_port.Base.{
  ℕ, suc, ◌%◌, ◌<◌, ◌≡◌, refl, ap, ◌∙◌, Bool, true, false, not, List, [], ◌∷◌, some, Str, codes,
  str_eq, atoi, print_decimal, atoi-print_decimal, length, take, take_of_length-le, map, All, ◌==◌,
  arith,
}
use net_port.Switcher.{SwitcherServer, StatisticDb}
use net_port.Switcher.Totals.{load_server_statistics}
use net_port.Switcher.Rows.{
  rows, Listed, u16, new_server, read_field, read_fields, read_rows, get_user_server_ports,
}

-- What the table says of a server.
pub record Config : Type 0 where
  pub id : ℕ
  pub input_port : ℕ
  pub output_port : ℕ
  pub enable : Bool
  pub enable_ssl : Bool
  pub enable_input_ssl : Bool

pub record IsSmall (c : Config) : Type 0 where
  pub id : c.id < u16
  pub input_port : c.input_port < u16
  pub output_port : c.output_port < u16

-- PostgreSQL writes a boolean as one letter.
unfoldable pub print_bool : Bool → Str
print_bool true = codes "t"
print_bool false = codes "f"

-- The row in the order of the query.
unfoldable pub print_row : Config → List (Str × Str)
print_row c =
    (codes "id", print_decimal c.id)
    ∷ (codes "input_port", print_decimal c.input_port)
    ∷ (codes "output_port", print_decimal c.output_port)
    ∷ (codes "enable", print_bool c.enable)
    ∷ (codes "enable_ssl", print_bool c.enable_ssl)
    ∷ (codes "enable_input_ssl", print_bool c.enable_input_ssl)
    ∷ []

unfoldable pub config : SwitcherServer → Config
config s = record {
  id = s.id;
  input_port = s.server.input_port;
  output_port = s.server.output_port;
  enable = s.server.enable;
  enable_ssl = s.server.enable_output_ssl;
  enable_input_ssl = s.server.enable_input_ssl;
}

read_bool : (b : Bool) → str_eq (print_bool b) (codes "t") ≡ b
unfolding print_bool str_eq
read_bool true = refl
read_bool false = refl

read_enable : (b : Bool) → not (str_eq (print_bool b) (codes "f")) ≡ b
unfolding print_bool str_eq
read_enable true = refl
read_enable false = refl

read_u16 : (n : ℕ) → n < u16 → atoi u16 (print_decimal n) ≡ n
read_u16 n h = atoi-print_decimal u16 n (omega arith) ∙ omega arith

read_fields-print_row : (c : Config) → IsSmall c → config (read_fields (print_row c) new_server) ≡ c
unfolding config read_fields read_field print_row str_eq
read_fields-print_row c small = λ i. record {
  id = read_u16 c.id small.id i;
  input_port = read_u16 c.input_port small.input_port i;
  output_port = read_u16 c.output_port small.output_port i;
  enable = read_enable c.enable i;
  enable_ssl = read_bool c.enable_ssl i;
  enable_input_ssl = read_bool c.enable_input_ssl i;
}

load_server_statistics-config :
    (db : StatisticDb) (now : ℕ) (d : db.Store) (s : SwitcherServer)
    → config (load_server_statistics db now d s).1 ≡ config s
unfolding load_server_statistics config
load_server_statistics-config db now d s = refl

read_rows-print_row :
    (db : StatisticDb) (now : ℕ) (cs : List Config) (d : db.Store)
    → All IsSmall cs
    → map config (read_rows db now (map print_row cs) d).1 ≡ cs
unfolding read_rows
read_rows-print_row db now [] d small = refl
read_rows-print_row db now (c ∷ cs) d small =
    let loaded = load_server_statistics db now d (read_fields (print_row c) new_server) in
    let first : config loaded.1 ≡ c =
      load_server_statistics-config db now d (read_fields (print_row c) new_server)
      ∙ read_fields-print_row c small.0 in
    λ i. first i ∷ read_rows-print_row db now cs loaded.0 small.1 i

length-rows : (cs : List Config) → length (map print_row cs) ≡ length cs
length-rows [] = refl
length-rows (c ∷ cs) = ap suc (length-rows cs)

all_rows_read :
    (cs : List Config)
    → length cs < u16
    → take (length (map print_row cs) % u16) (map print_row cs) ≡ map print_row cs
all_rows_read cs few =
    take_of_length-le (length (map print_row cs) % u16) (map print_row cs)
      (omega (arith, length-rows cs))

-- Let the query answer with the rows of some servers, whose numbers have 16 bits, at least one and fewer
-- than 65536 of them, and let the memory suffice. `get_user_server_ports` then succeeds, counts them
-- all, and stores servers that have exactly what the rows say, in their order.
pub get_user_server_ports-print_row :
    (db : StatisticDb) (now : ℕ) (d : db.Store) (l : Listed) (cs : List Config)
    → All IsSmall cs
    → 0 < length cs
    → length cs < u16
    → (r : List SwitcherServer) × ((get_user_server_ports db now true
          (rows 6 (map print_row cs))
          d
          l).1
        ≡ record { servers = some r; servers_count = length cs })
      × ((get_user_server_ports db now true (rows 6 (map print_row cs)) d l).2 ≡ true)
      × (map config r ≡ cs)
unfolding get_user_server_ports
get_user_server_ports-print_row db now d l cs small some_ few =
    let count : length (map print_row cs) % u16 ≡ length cs = omega (arith, length-rows cs) in
    let found : (length (map print_row cs) % u16 == 0) ≡ false = ground (arith, count) in
    (
      (read_rows db now (take (length (map print_row cs) % u16) (map print_row cs)) d).1,
      rw (found, count) refl,
      rw found refl,
      ap (λ rs. map config (read_rows db now rs d).1) (all_rows_read cs few)
          ∙ read_rows-print_row db now cs d small,
    )
