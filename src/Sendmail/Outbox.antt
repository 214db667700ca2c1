-- ===== src/Sendmail/Outbox.antt =====
-- examples/sendmail/server/main.go over binlogmsg: Send stores an email and its message together.
use nproto.Prelude.{Text, ◌≡◌, refl, ◌⊎◌, inl, inr, List, [], ◌∷◌, ◌++◌, ℕ}
use nproto.Go.{Value, message, val, Error, Printer}
use nproto.Md.{Context}
use nproto.Enc.{Codecs, default_pb_encoder}
use nproto.Msg.{MsgSpec, MsgWire, msg_value}
use nproto.Sql.{
  Queryer, on_tx, Statement, Log, MySql, Answer, returned, failed, panicked, Db, return_, lift,
  exec, commit, Effects, effects,
}
use nproto.Sql.Laws.{
  Ends, Ends-weaken, Pends, bind-Ends, lift-Ends, exec-Ends, query_row-Ends, commit-Ends,
  in_tx-Ends,
}
use nproto.Binlogmsg.{Storing, crashed, rejected, inserted, store_msg}
use nproto.Binlogmsg.Tables.{
  rename_answer, rename_error, insert_statement, add_msg, store, new_msg_publisher,
  new_pb_json_publisher,
}
use nproto.Sendmail.{
  Email, EmailEntry, insert_email, scan_email_entry, queue_spec, db_name, msg_table,
}
use nproto.Sendmail.Service.{select_email_entry, insert_email_entry, send_body, send}

rename_answer-Ends :
    {A : Type 0} (before : List Statement) (P : A → Effects → Type 0) (f : Error → Error)
    (r : Answer A × Log)
    → Ends before P r
    → Ends before P (rename_answer f r)
unfolding rename_answer
rename_answer-Ends before P f (returned a, log) h = h
rename_answer-Ends before P f (failed e, log) h = h
rename_answer-Ends before P f (panicked, log) h = h

Storing-cases :
    (s : Storing)
    → (s ≡ crashed)
      ⊎ ((e : Error) × (s ≡ rejected e))
      ⊎ ((subject : Text) × (data_ : Text) × (s ≡ inserted subject data_))
Storing-cases crashed = inl refl
Storing-cases (rejected e) = inr (inl (e, refl))
Storing-cases (inserted subject data_) = inr (inr (subject, data_, refl))

module _ (db : MySql) (before stmts : List Statement) (log : Log)
    (h : Pends before stmts (effects log)) where
  insert_email_entry-Ends :
      (email : Email)
      → Ends before
          (λ _. Pends before (stmts ++ insert_email email ∷ []))
          (insert_email_entry db on_tx email log)
  unfolding insert_email_entry select_email_entry
  insert_email_entry-Ends email =
      let more = stmts ++ insert_email email ∷ [] in
      bind-Ends before (λ _. Pends before more) (λ _. Pends before more)
        (exec db on_tx (insert_email email)) _ log
        (exec-Ends before db stmts log h (insert_email email))
        (λ result log1 h1.
          bind-Ends before (λ _. Pends before more) (λ _. Pends before more) (lift result) _ log1
            (lift-Ends before (λ _. Pends before more) result log1 (λ a e. h1) h1.0)
            (λ id log2 h2. query_row-Ends before db more log2 _ (scan_email_entry db) h2))

  add_msg-Ends :
      (fmt : Printer) (schema table subject data_ : Text)
      → Ends before
          (λ _. Pends before (stmts ++ insert_statement schema table subject data_ ∷ []))
          (add_msg fmt db on_tx schema table subject data_ log)
  unfolding add_msg
  add_msg-Ends fmt schema table subject data_ =
      let stmt = insert_statement schema table subject data_ in
      bind-Ends before (λ _. Pends before (stmts ++ stmt ∷ []))
        (λ _. Pends before (stmts ++ stmt ∷ [])) (rename_error _ (exec db on_tx stmt)) _ log
        (rename_answer-Ends before (λ _. Pends before (stmts ++ stmt ∷ [])) _
          (exec db on_tx stmt log) (exec-Ends before db stmts log h stmt))
        (λ id log1 h1. h1)

module _ (fmt : Printer) (wire : MsgWire) (lib : Codecs) (number_of : EmailEntry → ℕ)
    (ctx : Context) where
  -- What NewPbJsonPublisher makes of an entry.
  abbrev pub stored : EmailEntry → Storing
  stored entry =
      store_msg fmt wire (default_pb_encoder fmt lib) ctx queue_spec
        (val (message 2) (number_of entry))

  -- The entry's message is pending.
  abbrev WithMsg : List Statement → List Statement → EmailEntry → Effects → Type 0
  WithMsg before stmts entry s =
      (subject : Text) × (data_ : Text) × (stored entry ≡ inserted subject data_)
      × Pends before (stmts ++ insert_statement db_name msg_table subject data_ ∷ []) s

  -- What Send stores: the email and the message about its entry.
  abbrev pub BothStored : List Statement → Email → EmailEntry → List Statement → Type 0
  BothStored before email entry after =
      (subject : Text) × (data_ : Text) × (stored entry ≡ inserted subject data_)
      × (after
          ≡ before ++ insert_email email ∷ insert_statement db_name msg_table subject data_ ∷ [])

-- The publisher that main makes for a transaction, without its tracing.
abbrev pub publisher :
    Printer → MySql → MsgWire → Codecs → Queryer → Context → MsgSpec → Value → Db (Unit {0})
publisher fmt db wire lib q = new_pb_json_publisher fmt db wire lib q db_name msg_table

module _ (fmt : Printer) (db : MySql) (wire : MsgWire) (lib : Codecs) (number_of : EmailEntry → ℕ)
    (ctx : Context) where
  publisher-Ends :
      (before stmts : List Statement) (log : Log) (entry : EmailEntry)
      → Pends before stmts (effects log)
      → Ends before
          (λ _. WithMsg fmt wire lib number_of ctx before stmts entry)
          (publisher fmt db wire lib on_tx ctx queue_spec (val (message 2) (number_of entry)) log)
  unfolding new_pb_json_publisher new_msg_publisher store msg_value
  publisher-Ends before stmts log entry h =
      elim (Storing-cases (stored fmt wire lib number_of ctx entry)) [
        | inl e ↦ rw e h.0
        | inr (inl (f, e)) ↦ rw e h.0
        | inr (inr (subject, data_, e)) ↦ rw e (
            Ends-weaken before
              (λ _. Pends before (stmts ++ insert_statement db_name msg_table subject data_ ∷ []))
              (λ _. WithMsg fmt wire lib number_of ctx before stmts entry) _
              (add_msg-Ends db before stmts log h fmt db_name msg_table subject data_)
              (λ a s p. (subject, data_, e, p)))
      ]

  send_body-Ends :
      (before : List Statement) (email : Email) (log : Log)
      → Pends before [] (effects log)
      → Ends before
          (λ entry s. BothStored fmt wire lib number_of ctx before email entry s.durable)
          (send_body db (publisher fmt db wire lib) number_of ctx email log)
  unfolding send_body
  send_body-Ends before email log h =
      let Final : EmailEntry → Effects → Type 0 =
        λ entry s. BothStored fmt wire lib number_of ctx before email entry s.durable in
      bind-Ends before (λ _. Pends before (insert_email email ∷ [])) Final
        (insert_email_entry db on_tx email) _ log (insert_email_entry-Ends db before [] log h email)
        (λ entry log1 h1.
          bind-Ends before
            (λ _. WithMsg fmt wire lib number_of ctx before (insert_email email ∷ []) entry) Final
            (publisher fmt db wire lib on_tx ctx queue_spec (val (message 2) (number_of entry))) _
            log1 (publisher-Ends before (insert_email email ∷ []) log1 entry h1)
            (λ done log2 (subject, data_, e, h2).
              bind-Ends before
                (λ _ s.
                  s.durable
                  ≡ before
                    ++ insert_email email ∷ insert_statement db_name msg_table subject data_ ∷ [])
                Final (commit db) (λ end. return_ entry) log2 (commit-Ends before db _ log2 h2)
                (λ end log3 h3. (subject, data_, e, h3))))

  -- Send with NewPbJsonPublisher on its transaction, whatever MySQL answers: where it returns an
  -- entry, exactly two statements have become durable, the insertion of the email and then the
  -- insertion into the msg table of the data that encodes this entry; where it returns an error or
  -- panics, nothing has.
  pub send-Ends :
      (email : Email) (log : Log)
      → Ends
          (effects log).durable
          (λ entry s.
            BothStored fmt wire lib number_of ctx (effects log).durable email entry s.durable)
          (send db (publisher fmt db wire lib) number_of ctx email log)
  unfolding send
  send-Ends email log =
      in_tx-Ends db (BothStored fmt wire lib number_of ctx (effects log).durable email)
        (send_body db (publisher fmt db wire lib) number_of ctx email) log
        (λ log' h. send_body-Ends (effects log).durable email log' h)
