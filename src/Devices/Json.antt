-- ===== src/Devices/Json.antt =====
-- JSON values as jansson gives them to server/proxy/server/device_manager.c and to
-- client/proxy/client/proxy_client_device_integration.c.
use net_port.Base.{ℕ, Bool, false, Option, none, some, Str, str_eq, if◌then◌else◌}

mutual
  -- A `json_t`. An integer is written as the bits of its `json_int_t`, a number below 2^64. A key has
  -- one value.
  pub data Json : Type 0 where
    null : Json
    boolean : Bool → Json
    integer : ℕ → Json
    real : Str → Json
    string : Str → Json
    array : Json
    object : Members → Json

  pub data Members : Type 0 where
    end_of : Members
    member : Str → Json → Members → Members

unfoldable pub find_member : Str → Members → Option Json
find_member key end_of = none
find_member key (member k v ms) =
    let rest = find_member key ms in if str_eq k key then some v else rest

-- `json_object_get`.
unfoldable pub json_object_get : Str → Json → Option Json
json_object_get key (object ms) = find_member key ms
json_object_get key _ = none

-- `json_string_value` of what `json_is_string` accepts.
abbrev pub as_string : Option Json → Option Str
as_string (some (string s)) = some s
as_string _ = none

-- `json_integer_value` of what `json_is_integer` accepts.
abbrev pub as_integer : Option Json → Option ℕ
as_integer (some (integer n)) = some n
as_integer _ = none

-- `json_is_object`.
abbrev pub as_object : Option Json → Option Json
as_object (some (object ms)) = some (object ms)
as_object _ = none

-- `json_is_true`.
abbrev pub json_is_true : Option Json → Bool
json_is_true (some (boolean b)) = b
json_is_true _ = false

abbrev pub string_at : Str → Json → Option Str
string_at key v = as_string (json_object_get key v)

abbrev pub integer_at : Str → Json → Option ℕ
integer_at key v = as_integer (json_object_get key v)
