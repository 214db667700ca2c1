-- ===== src/Binlogmsg/Tables/Laws.antt =====
-- binlogmsg/sqls.go: which tables listMsgTables lists, and when its lock is held.
use nproto.Prelude.{Text, if◌then◌else◌, ◌≡◌, refl, List, [], ◌∷◌, map}
use nproto.Go.{ok, Printer}
use nproto.Sql.{Queryer, queried, Log, Cell, Rows, MySql, returned, of_result, ◌>>=◌, query, lift}
use nproto.Binlogmsg.Tables.{
  TableFilter, rename_answer, list_statement, scan_table, add_table, collect_tables,
  list_msg_tables,
}

-- The tables that the filter accepts, in their order.
abbrev pub accepted : TableFilter → List (Text × Text) → List (Text × Text)
accepted filter [] = []
accepted filter ((schema, table) ∷ ts) =
    let rest = accepted filter ts in if filter schema table then (schema, table) ∷ rest else rest

module _ (fmt : Printer) (db : MySql) (filter : TableFilter) where
  collect_tables_lem :
      (cells : List (List Cell)) (ts : List (Text × Text))
      → map (scan_table db) cells ≡ map ok ts
      → collect_tables fmt db filter cells ≡ ok (accepted filter ts)
  unfolding collect_tables add_table
  collect_tables_lem [] [] h = refl
  collect_tables_lem [] (t ∷ ts) h = absurd (cc)
  collect_tables_lem (c ∷ cs) [] h = absurd (cc)
  collect_tables_lem (c ∷ cs) ((schema, table) ∷ ts) h =
      let first : scan_table db c ≡ ok (schema, table) = cc in
      let later : map (scan_table db) cs ≡ map ok ts = cc in
      rw (first, collect_tables) (rw (collect_tables_lem cs ts later) refl)

  -- listMsgTables returns the tables of the rows that the filter accepts, in the order of the rows, if
  -- each row's Scan succeeds, and this whatever Rows.Err answers: where the connection broke
  -- while the rows were read, it returns the tables read so far without an error.
  pub list_msg_tables_lem :
      (q : Queryer) (log : Log) (rows : Rows) (ts : List (Text × Text))
      → db.rows_answer log q list_statement ≡ ok rows
      → map (scan_table db) rows.cells ≡ map ok ts
      → list_msg_tables fmt db q filter log
        ≡ (returned (accepted filter ts), queried q list_statement ∷ log)
  unfolding list_msg_tables query rename_answer lift of_result ◌>>=◌
  list_msg_tables_lem q log rows ts answered scanned =
      let asked : query db q list_statement log ≡ (returned rows, queried q list_statement ∷ log) =
        rw (answered, query) refl in
      rw asked (rw (collect_tables_lem rows.cells ts scanned) refl)
