-- ===== src/Sendmail/Service.antt =====
-- examples/sendmail/server/main.go: the methods of sendMailSvc and their statements, in the order of
-- the calls.
use nproto.Prelude.{Text, codes, Option, none, some, List, [], ◌∷◌, ℕ}
use nproto.Prelude.Int.{ℤ}
use nproto.Go.{Value, message, val, Error, Result, ok, err, Printer}
use nproto.Md.{Context}
use nproto.Rpc.{error_text}
use nproto.Msg.{MsgSpec}
use nproto.Sql.{
  Queryer, on_db, on_tx, number_arg, Statement, Cell, MySql, panicked, Db, ◌>>=◌, return_, lift,
  exec, query, query_row, commit, in_tx,
}
use nproto.Sendmail.{
  Email, EmailEntry, insert_email, update_success, update_failed, select_sql, scan_email_entry,
  queue_spec,
}

-- The statement of selectEmailEntries.
abbrev pub select_all : Statement
select_all = record { sql = select_sql (codes "1=1"); args = [] }

-- gomail's Message as handleEmailEntry fills it.
pub record Mail : Type 0 where
  pub from : Text
  pub to : Text × Text
  pub mail_subject : Text
  pub body : Text × Text

unfoldable pub mail_of : Text → Email → Mail
mail_of user email = record {
  from = user;
  to = (email.to_addr, email.to_name);
  mail_subject = email.subject;
  body = (email.content_type, email.content);
}

module _ (db : MySql) where
  -- selectEmailEntry
  unfoldable pub select_email_entry : Queryer → ℤ → Db EmailEntry
  unfolding query_row scan_email_entry
  select_email_entry q id =
      query_row db q (record { sql = select_sql (codes "id=?"); args = number_arg id ∷ [] })
        (scan_email_entry db)

  -- insertEmailEntry
  unfoldable pub insert_email_entry : Queryer → Email → Db EmailEntry
  unfolding exec lift select_email_entry ◌>>=◌
  insert_email_entry q email = do
    result ← exec db q (insert_email email)
    id ← lift result
    select_email_entry q id

  -- The loop of selectEmailEntries, and Rows.Err after it.
  unfoldable pub add_entry : Result EmailEntry → Result (List EmailEntry) → Result (List EmailEntry)
  add_entry (err e) rest = err e
  add_entry (ok entry) (err e) = err e
  add_entry (ok entry) (ok entries) = ok (entry ∷ entries)

  unfoldable pub collect_entries : List (List Cell) → Option Error → Result (List EmailEntry)
  unfolding add_entry scan_email_entry
  collect_entries [] none = ok []
  collect_entries [] (some e) = err e
  collect_entries (row ∷ rows) rows_err =
      add_entry (scan_email_entry db row) (collect_entries rows rows_err)

  -- selectEmailEntries
  unfoldable pub select_email_entries : Queryer → Db (List EmailEntry)
  unfolding query lift collect_entries ◌>>=◌
  select_email_entries q = do
    rows ← query db q select_all
    lift (collect_entries rows.cells rows.rows_err)

  -- List
  unfoldable pub list : Db (List EmailEntry)
  unfolding select_email_entries
  list = select_email_entries on_db

  -- Send: `new_publisher` is svc.newPublisher, and `number_of` numbers the messages' contents.
  module _ (new_publisher : Queryer → Context → MsgSpec → Value → Db (Unit {0}))
      (number_of : EmailEntry → ℕ) where
    unfoldable pub send_body : Context → Email → Db EmailEntry
    unfolding insert_email_entry commit ◌>>=◌
    send_body ctx email = do
      entry ← insert_email_entry on_tx email
      done ← new_publisher on_tx ctx queue_spec (val (message 2) (number_of entry))
      end ← commit db
      return_ entry

    unfoldable pub send : Context → Email → Db EmailEntry
    unfolding in_tx send_body
    send ctx email = in_tx db (send_body ctx email)

module _ (fmt : Printer) (db : MySql) where
  -- updateEmailEntry
  unfoldable pub update_email_entry : Queryer → ℤ → Option Error → Db (Result ℤ)
  unfolding exec error_text
  update_email_entry q id none = exec db q (update_success id)
  update_email_entry q id (some e) = exec db q (update_failed (error_text fmt e) id)

  -- The transaction of handleEmailEntry, after DialAndSend.
  unfoldable pub record_result : ℤ → Option Error → Db (Unit {0})
  unfolding in_tx update_email_entry commit ◌>>=◌
  record_result id send_err = in_tx db do result ← update_email_entry on_tx id send_err; commit db

  -- handleEmailEntry; `dial_and_send` is the SMTP server's answer to a mail.
  unfoldable pub handle_email_entry : (Mail → Option Error) → Text → EmailEntry → Db (Unit {0})
  unfolding record_result mail_of
  handle_email_entry dial_and_send user entry = elim entry.email [
    | none ↦ λ log. (panicked, log)
    | some email ↦ record_result entry.id (dial_and_send (mail_of user email))
  ]
