-- ===== src/Binlogmsg/Tables.antt =====
-- binlogmsg/sqls.go, binlogmsg/pj.go, and NewMsgPublisher of binlogmsg/binlogmsg.go on a database:
-- the statements on msg tables.
pub mod Laws
use nproto.Prelude.{Text, codes, Bool, false, nat_beq, if◌then◌else◌, List, [], ◌∷◌, ◌++◌, ℕ}
use nproto.Prelude.Int.{ℤ, pos, negsuc}
use nproto.Go.{Value, Error, plain_error, Result, ok, err, Printer}
use nproto.Md.{Context}
use nproto.Enc.{Encoder, Codecs, is_message, default_json_encoder, default_pb_encoder}
use nproto.Rpc.{error_text}
use nproto.Msg.{MsgSpec, msg_value, MsgWire}
use nproto.Sql.{
  Queryer, Arg, number_arg, text_arg, Statement, Cell, number_cell, text_cell, null_cell, Rows,
  MySql, Answer, returned, failed, panicked, Db, ◌>>=◌, return_, fail, lift, exec, query, query_row,
  Log,
}
use nproto.Binlogmsg.{Storing, crashed, rejected, inserted, store_msg}

-- errors.WithMessage on an error
unfoldable pub with_message : Printer → Text → Error → Error
unfolding error_text
with_message fmt message e = plain_error (message ++ (codes ": " ++ error_text fmt e))

unfoldable pub rename_answer {ℓ} : {A : Type ℓ} → (Error → Error) → Answer A × Log → Answer A × Log
rename_answer f (returned a, log) = (returned a, log)
rename_answer f (failed e, log) = (failed (f e), log)
rename_answer f (panicked, log) = (panicked, log)

abbrev pub rename_error {ℓ} : {A : Type ℓ} → (Error → Error) → Db A → Db A
rename_error f m log = rename_answer f (m log)

-- r.Int64 == 1
abbrev pub is_one : ℤ → Bool
is_one (pos n) = nat_beq n 1
is_one (negsuc n) = false

-- MsgTableFilter
abbrev pub TableFilter : Type 0
TableFilter = Text → Text → Bool

-- %s.%s
abbrev pub qualified : Text → Text → Text
qualified schema table = schema ++ b'.' ∷ table

abbrev pub list_statement : Statement
list_statement = record {
  sql =
      codes
        "\n\t\tSELECT\n\t\t\ttable_schema, table_name\n\t\tFROM information_schema.tables\n\t\tWHERE\n\t\t\ttable_type = 'BASE TABLE' AND\n\t\t\ttable_schema NOT IN ('information_schema', 'mysql', 'performance_schema', 'sys')\n\t";
  args = [];
}

abbrev pub insert_statement : Text → Text → Text → Text → Statement
insert_statement schema table subject data_ = record {
  sql =
      codes "\n\t\tINSERT INTO "
      ++ (qualified schema table ++ codes " (subject, data) VALUES (?, ?)\n\t");
  args = text_arg subject ∷ text_arg data_ ∷ [];
}

unfoldable pub add_table :
    TableFilter → Text × Text → Result (List (Text × Text)) → Result (List (Text × Text))
add_table filter t (err e) = err e
add_table filter (schema, table) (ok ts) =
    ok (if filter schema table then (schema, table) ∷ ts else ts)

module _ (db : MySql) where
  -- rows.Scan(&schema, &table)
  unfoldable pub scan_table : List Cell → Result (Text × Text)
  scan_table (a ∷ b ∷ []) = elim (db.to_text a) [
    | err e ↦ err e
    | ok schema ↦ elim (db.to_text b) [ err e ↦ err e | ok table ↦ ok (schema, table) ]
  ]
  scan_table _ = err db.count_error

  -- Scan into a sql.NullInt64 whose Int64 is 0 for NULL.
  unfoldable pub scan_null_int : List Cell → Result ℤ
  scan_null_int (null_cell ∷ []) = ok (pos 0)
  scan_null_int (c ∷ []) = db.to_number c
  scan_null_int _ = err db.count_error

module _ (fmt : Printer) (db : MySql) where
  -- CreateMsgTable
  unfoldable pub create_msg_table : Queryer → Text → Text → Db (Unit {0})
  unfolding exec rename_answer with_message
  create_msg_table q schema table = do
    id ←
        rename_error
          (with_message fmt
            (codes "Create msg table " ++ (qualified schema table ++ codes " error")))
          (exec db q (record {
            sql =
                codes "\n\tCREATE TABLE IF NOT EXISTS "
                ++ (qualified schema table
                    ++ codes
                        " (\n\t\tid BIGINT UNSIGNED AUTO_INCREMENT,\n\t\tts TIMESTAMP DEFAULT NOW(),\n\t\tsubject VARCHAR(128) NOT NULL,\n\t\tdata BLOB,\n\t\tPRIMARY KEY (id))\n\t");
            args = [];
          }))
    return_ tt

  -- The loop over the rows: it stops at the first Scan that fails, and does not ask rows.Err.
  unfoldable pub collect_tables : TableFilter → List (List Cell) → Result (List (Text × Text))
  unfolding scan_table add_table with_message
  collect_tables filter [] = ok []
  collect_tables filter (row ∷ rows) = elim (scan_table db row) [
    | err e ↦ err (with_message fmt (codes "List msg tables scan error") e)
    | ok t ↦ add_table filter t (collect_tables filter rows)
  ]

  -- listMsgTables
  unfoldable pub list_msg_tables : Queryer → TableFilter → Db (List (Text × Text))
  unfolding query rename_answer with_message lift collect_tables
  list_msg_tables q filter = do
    rows ←
        rename_error (with_message fmt (codes "List msg tables error")) (query db q list_statement)
    lift (collect_tables filter rows.cells)

  -- getLock
  unfoldable pub get_lock : Queryer → Text → Db Bool
  unfolding query_row rename_answer with_message scan_null_int
  get_lock q name = do
    r ← rename_error (with_message fmt (codes "Get lock error")) (
        query_row db q (record { sql = codes "SELECT GET_LOCK(?, 0)"; args = text_arg name ∷ [] })
          (scan_null_int db))
    return_ (is_one r)

  -- releaseLock
  unfoldable pub release_lock : Queryer → Text → Db (Unit {0})
  unfolding query_row rename_answer with_message scan_null_int
  release_lock q name = do
    r ← rename_error (with_message fmt (codes "Release lock error")) (
        query_row db q (record { sql = codes "SELECT RELEASE_LOCK(?)"; args = text_arg name ∷ [] })
          (scan_null_int db))
    return_ tt

  -- addMsg
  unfoldable pub add_msg : Queryer → Text → Text → Text → Text → Db (Unit {0})
  unfolding exec rename_answer with_message
  add_msg q schema table subject data_ = do
    id ←
        rename_error (with_message fmt (codes "Insert message error"))
          (exec db q (insert_statement schema table subject data_))
    return_ tt

  -- delMsg
  unfoldable pub del_msg : Queryer → Text → Text → ℕ → Db (Unit {0})
  unfolding exec rename_answer with_message
  del_msg q schema table id = do
    r ← rename_error (with_message fmt (codes "Delete message error")) (
        exec db q (record {
          sql = codes "\n\t\tDELETE FROM " ++ (qualified schema table ++ codes " WHERE id=?\n\t");
          args = number_arg (pos id) ∷ [];
        }))
    return_ tt

  -- What NewMsgPublisher's function does once it has its data.
  unfoldable pub store : Queryer → Text → Text → Storing → Db (Unit {0})
  unfolding add_msg
  store q schema table crashed = λ log. (panicked, log)
  store q schema table (rejected e) = fail e
  store q schema table (inserted subject data_) = add_msg q schema table subject data_

  module _ (wire : MsgWire) where
    -- NewMsgPublisher
    unfoldable pub new_msg_publisher :
        Encoder → Queryer → Text → Text → Context → MsgSpec → Value → Db (Unit {0})
    unfolding store store_msg
    new_msg_publisher encoder q schema table ctx spec msg =
        store q schema table (store_msg fmt wire encoder ctx spec msg)

    -- NewPbJsonPublisher
    unfoldable pub new_pb_json_publisher :
        Codecs → Queryer → Text → Text → Context → MsgSpec → Value → Db (Unit {0})
    unfolding new_msg_publisher msg_value
    new_pb_json_publisher lib q schema table ctx spec msg =
        if is_message (msg_value spec)
        then new_msg_publisher (default_pb_encoder fmt lib) q schema table ctx spec msg
        else new_msg_publisher (default_json_encoder fmt lib) q schema table ctx spec msg
