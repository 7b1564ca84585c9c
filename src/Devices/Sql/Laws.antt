-- ===== src/Devices/Sql/Laws.antt =====
-- What an answer of the database to server/proxy/server/device_manager.c says.
use net_port.Base.{◌≡◌, List, [], ◌∷◌, Option, none, some, inl, inr, Str, arith, Bool-cases}
use net_port.Devices.Sql.{
  Statement, connect, Result, refused, command_ok, tuples, Database, Log, run, ask, first_row,
}

pub first_row-tuples :
    (result : Option Result) {row : List Str}
    → first_row result ≡ some row
    → (rows : List (List Str)) × (result ≡ some (tuples (row ∷ rows)))
unfolding first_row
first_row-tuples none e = absurd (cc)
first_row-tuples (some refused) e = absurd (cc)
first_row-tuples (some (command_ok n)) e = absurd (cc)
first_row-tuples (some (tuples [])) e = absurd (cc)
first_row-tuples (some (tuples (r ∷ rows))) e = (rows, cc)

-- An answer to the first statement on a connection.
pub ask_answers :
    (db : Database) (s : Statement) (log : Log) {result : Result}
    → (ask db s log).1 ≡ some result
    → db.answer (connect ∷ log) s ≡ result
unfolding ask run
ask_answers db s log e = elim (Bool-cases (db.connects log)) [
  | inl opened ↦ ground (arith, opened, e)
  | inr closed ↦ absurd (ground (arith, closed, e))
]
