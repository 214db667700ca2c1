-- ===== src/Sendmail/Handler.antt =====
-- examples/sendmail/server/main.go: what handleEmailEntry stores, and what List answers.
use nproto.Prelude.{Text, ◌≡◌, Option, none, some, List, [], ◌∷◌, ◌++◌}
use nproto.Prelude.Int.{ℤ}
use nproto.Go.{Error, Printer}
use nproto.Rpc.{error_text}
use nproto.Sql.{on_tx, Statement, Log, MySql, commit, effects}
use nproto.Sql.Laws.{Ends, Pends, bind-Ends, exec-Ends, commit-Ends, in_tx-Ends}
use nproto.Sendmail.{Email, EmailEntry, update_success, update_failed}
use nproto.Sendmail.Service.{Mail, mail_of, update_email_entry, record_result, handle_email_entry}

-- The statement for an entry, by the answer of DialAndSend.
abbrev pub update_for : Printer → ℤ → Option Error → Statement
update_for fmt id none = update_success id
update_for fmt id (some e) = update_failed (error_text fmt e) id

module _ (fmt : Printer) (db : MySql) where
  update_email_entry-Ends :
      (before : List Statement) (id : ℤ) (send_err : Option Error) (log : Log)
      → Pends before [] (effects log)
      → Ends before
          (λ _. Pends before (update_for fmt id send_err ∷ []))
          (update_email_entry fmt db on_tx id send_err log)
  unfolding update_email_entry
  update_email_entry-Ends before id none log h = exec-Ends before db [] log h (update_success id)
  update_email_entry-Ends before id (some e) log h =
      exec-Ends before db [] log h (update_failed (error_text fmt e) id)

  record_result-Ends :
      (id : ℤ) (send_err : Option Error) (log : Log)
      → Ends
          (effects log).durable
          (λ _ s. s.durable ≡ (effects log).durable ++ update_for fmt id send_err ∷ [])
          (record_result fmt db id send_err log)
  unfolding record_result
  record_result-Ends id send_err log =
      let before = (effects log).durable in
      let stmt = update_for fmt id send_err in
      in_tx-Ends db (λ _ after. after ≡ before ++ stmt ∷ []) _ log
        (λ log' h.
          bind-Ends before (λ _. Pends before (stmt ∷ [])) (λ _ s. s.durable ≡ before ++ stmt ∷ [])
            (update_email_entry fmt db on_tx id send_err) (λ result. commit db) log'
            (update_email_entry-Ends before id send_err log' h)
            (λ result log1 h1. commit-Ends before db (stmt ∷ []) log1 h1))

  -- handleEmailEntry on an entry with an email, whatever MySQL answers: where it returns without an
  -- error, exactly the update of the entry has become durable, to SUCCESS if the mail made of
  -- the sender and the email was sent, and to FAILED with the error's text if not; where it returns
  -- an error, nothing has.
  pub handle_email_entry-Ends :
      (dial_and_send : Mail → Option Error) (user : Text) (entry : EmailEntry) (email : Email)
      (log : Log)
      → entry.email ≡ some email
      → Ends
          (effects log).durable
          (λ _ s.
            s.durable
            ≡ (effects log).durable
              ++ update_for fmt entry.id (dial_and_send (mail_of user email)) ∷ [])
          (handle_email_entry fmt db dial_and_send user entry log)
  unfolding handle_email_entry
  handle_email_entry-Ends dial_and_send user entry email log h =
      rw (h, handle_email_entry)
        (record_result-Ends entry.id (dial_and_send (mail_of user email)) log)
