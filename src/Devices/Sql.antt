-- ===== src/Devices/Sql.antt =====
-- The statements that server/proxy/server/device_manager.c sends to PostgreSQL, and its answers.
use net_port.Base.{
  ℕ, Bool, true, false, List, [], ◌∷◌, Option, none, some, Str, get_elem?, if◌then◌else◌,
}
pub mod Laws

-- One constructor for each text that `PQexecParams` or `PQexec` is given, applied to its parameters in
-- their order. `connect` is `get_db_connection`.
pub data Statement : Type 0 where
  connect : Statement
  select_device : Str → Statement
  authenticate : Str → Str → Statement
  cleanup_device_sessions : Str → Statement
  insert_session : Str → Str → Str → Str → Statement
  assign_port : Str → Str → Statement
  touch_session : Str → Str → Statement
  touch_device : Str → Statement
  select_session : Str → Statement
  add_session_traffic : Str → Str → Str → Str → Statement
  add_device_traffic : Str → Str → Str → Statement
  insert_sample : Str → Str → Str → Str → Statement
  delete_old_samples : Statement
  merge_hour : Str → Str → Str → Str → Statement
  free_port : Str → Statement
  terminate_session : Str → Statement
  free_port_pair : Str → Statement
  cleanup_expired_sessions : Statement

-- `PQresultStatus`: an error, PGRES_COMMAND_OK with the number of rows touched, or PGRES_TUPLES_OK
-- with the rows.
pub data Result : Type 0 where
  refused : Result
  command_ok : ℕ → Result
  tuples : List (List Str) → Result

-- The server and everyone else who uses it: what it answers may depend on all the statements so far,
-- the last one first.
pub record Database : Type 0 where
  pub connects : List Statement → Bool
  pub answer : List Statement → Statement → Result

abbrev pub Log : Type 0
Log = List Statement

-- `PQexecParams` on an open connection.
unfoldable pub run : Database → Statement → Log → Log × Result
run db s log = (s ∷ log, db.answer log s)

-- `get_db_connection` and the first statement on it: `none` where there is no connection.
unfoldable pub ask : Database → Statement → Log → Log × Option Result
ask db s log =
    let opened = connect ∷ log in
    let (log', result) = run db s opened in
    if db.connects log then (log', some result) else (opened, none)

-- `PQresultStatus(res) == PGRES_TUPLES_OK` and `PQntuples(res) > 0`: the first row.
unfoldable pub first_row : Option Result → Option (List Str)
first_row (some (tuples (row ∷ rows))) = some row
first_row _ = none

-- `PQgetvalue(res, 0, i)`. A NULL value is an empty text.
unfoldable pub column : ℕ → List Str → Str
column i row = elim (get_elem? row i) [ none ↦ [] | some v ↦ v ]
