-- ===== src/Sql.antt =====
-- database/sql as binlogmsg/sqls.go and examples/sendmail/server/main.go use it: statements on a
-- database or in a transaction, with MySQL's answers as a parameter, and what a history of calls
-- makes durable.
pub mod Laws
use nproto.Prelude.{Text, codes, Option, none, some, List, [], ◌∷◌, ◌++◌}
use nproto.Prelude.Int.{ℤ}
use nproto.Go.{Error, Result, ok, err}

-- sqlh.Queryer: a *sql.DB, on which a statement is its own transaction, or the open *sql.Tx.
pub data Queryer : Type 0 where
  on_db : Queryer
  on_tx : Queryer

-- What a placeholder is bound to.
pub data Arg : Type 0 where
  number_arg : ℤ → Arg
  text_arg : Text → Arg

pub record Statement : Type 0 where
  pub sql : Text
  pub args : List Arg

-- The calls that were made: those that succeeded by name, the others as `refused`.
pub data Event : Type 0 where
  begun : Event
  executed : Queryer → Statement → Event
  queried : Queryer → Statement → Event
  committed : Event
  rolled_back : Event
  refused : Event

-- The latest call first.
abbrev pub Log : Type 0
Log = List Event

-- A column's value as MySQL sends it.
pub data Cell : Type 0 where
  number_cell : ℤ → Cell
  text_cell : Text → Cell
  null_cell : Cell

-- The rows of a query, with Rows.Err at the end.
pub record Rows : Type 0 where
  pub cells : List (List Cell)
  pub rows_err : Option Error

-- MySQL's answers, by all the calls before: BeginTx, ExecContext with the LastInsertId of its
-- result, QueryContext, and Commit. Scan converts a cell to a destination, and fails with
-- `count_error` where their numbers differ.
pub record MySql : Type 0 where
  pub begin_answer : Log → Option Error
  pub exec_answer : Log → Queryer → Statement → Result (Result ℤ)
  pub rows_answer : Log → Queryer → Statement → Result Rows
  pub commit_answer : Log → Option Error
  pub to_number : Cell → Result ℤ
  pub to_text : Cell → Result Text
  pub count_error : Error
  pub err_no_rows : Error

-- What a function that uses the database comes to.
pub data Answer {ℓ} (A : Type ℓ) : Type ℓ where
  returned : A → Answer A
  failed : Error → Answer A
  panicked : Answer A

abbrev pub Db {ℓ} : Type ℓ → Type ℓ
Db A = Log → Answer A × Log

unfoldable pub of_result {ℓ} : {A : Type ℓ} → Result A → Answer A
of_result (ok a) = returned a
of_result (err e) = failed e

unfoldable pub of_error : Option Error → Answer (Unit {0})
of_error none = returned tt
of_error (some e) = failed e

module _ {ℓ κ} {A : Type ℓ} {B : Type κ} where
  abbrev pub continue : Answer A → (A → Log → Answer B × Log) → Log → Answer B × Log
  continue (returned a) f log = f a log
  continue (failed e) f log = (failed e, log)
  continue panicked f log = (panicked, log)

  infixl 10 ◌>>=◌
  unfoldable pub ◌>>=◌ : Db A → (A → Db B) → Db B
  ◌>>=◌ m f log = let (r, log') = m log in continue r f log'

module _ {ℓ} {A : Type ℓ} where
  abbrev pub return_ : A → Db A
  return_ a log = (returned a, log)

  abbrev pub fail : Error → Db A
  fail e log = (failed e, log)

  unfoldable pub lift : Result A → Db A
  unfolding of_result
  lift r log = (of_result r, log)

module _ (db : MySql) where
  -- db.BeginTx
  unfoldable pub begin_tx : Db (Unit {0})
  unfolding of_error
  begin_tx log = elim (db.begin_answer log) [
    | none ↦ (returned tt, begun ∷ log)
    | some e ↦ (failed e, refused ∷ log)
  ]

  -- tx.Commit
  unfoldable pub commit : Db (Unit {0})
  commit log = elim (db.commit_answer log) [
    | none ↦ (returned tt, committed ∷ log)
    | some e ↦ (failed e, refused ∷ log)
  ]

  -- q.ExecContext, with what LastInsertId of its result answers.
  unfoldable pub exec : Queryer → Statement → Db (Result ℤ)
  exec q stmt log = elim (db.exec_answer log q stmt) [
    | ok id ↦ (returned id, executed q stmt ∷ log)
    | err e ↦ (failed e, refused ∷ log)
  ]

  -- q.QueryContext
  unfoldable pub query : Queryer → Statement → Db Rows
  query q stmt log = elim (db.rows_answer log q stmt) [
    | ok rows ↦ (returned rows, queried q stmt ∷ log)
    | err e ↦ (failed e, refused ∷ log)
  ]

  -- The row that Row.Scan reads, or its error.
  pub first_row : Rows → Result (List Cell)
  first_row rows = elim rows.cells [
    | row ∷ more ↦ ok row
    | [] ↦ elim rows.rows_err [ some e ↦ err e | none ↦ err db.err_no_rows ]
  ]

  -- q.QueryRowContext with its Scan.
  unfoldable pub query_row {ℓ} : {A : Type ℓ} → Queryer → Statement → (List Cell → Result A) → Db A
  unfolding query lift first_row ◌>>=◌
  query_row q stmt scan = do rows ← query q stmt; row ← lift (first_row rows); lift (scan row)

-- A body between BeginTx and the deferred tx.Rollback(), which does nothing once the transaction is
-- committed.
unfoldable pub roll_back {ℓ} : {A : Type ℓ} → Answer A × Log → Answer A × Log
roll_back (r, log) = (r, rolled_back ∷ log)

unfoldable pub in_tx {ℓ} : {A : Type ℓ} → MySql → Db A → Db A
unfolding begin_tx ◌>>=◌ roll_back
in_tx db body = begin_tx db >>= λ _ log. roll_back (body log)

-- The specification of transactions: a commit makes what was executed since BeginTx durable, a
-- rollback drops it, and a statement on the database itself is durable at once.
pub record Effects : Type 0 where
  pub durable : List Statement
  pub pending : List Statement

unfoldable pub happen : Event → Effects → Effects
happen begun s = record s { pending = [] }
happen (executed on_db stmt) s = record s { durable = s.durable ++ stmt ∷ [] }
happen (executed on_tx stmt) s = record s { pending = s.pending ++ stmt ∷ [] }
happen (queried q stmt) s = s
happen committed s = record { durable = s.durable ++ s.pending; pending = [] }
happen rolled_back s = record s { pending = [] }
happen refused s = s

unfoldable pub effects : Log → Effects
unfolding happen
effects [] = record { durable = []; pending = [] }
effects (e ∷ log) = happen e (effects log)
