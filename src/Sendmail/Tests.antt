-- ===== src/Sendmail/Tests.antt =====
-- examples/sendmail/server: the theorems at concrete inputs.
use nproto.Prelude.{Text, codes, ◌≡◌, ◌↔◌, refl, Option, none, some, List, [], ◌∷◌, map, ℕ}
use nproto.Prelude.Int.{ℤ, pos}
use nproto.Go.{Error, plain_error, Result, ok, err}
use nproto.Msg.{MsgWire}
use nproto.Md.{new_pb_meta_data}
use nproto.Enc.{pb_format}
use nproto.Sql.{Cell, number_cell, text_cell, Rows, MySql, returned, query, effects}
use nproto.Sql.Laws.{Ends}
use nproto.Sendmail.{Email, EmailEntry, scan_email_entry}
use nproto.Sendmail.Service.{Mail, mail_of, list, send, handle_email_entry}
use nproto.Sendmail.Outbox.{publisher, BothStored, send-Ends}
use nproto.Sendmail.Handler.{update_for, handle_email_entry-Ends}
use nproto.Sendmail.Entries.{list_iff}
use nproto.Samples.{printer, background, codecs}

abbrev email : Email
email = record {
  to_addr = codes "a@b";
  to_name = codes "A";
  subject = codes "hi";
  content_type = codes "text/plain";
  content = codes "x";
}

abbrev as_text : Cell → Result Text
as_text (text_cell t) = ok t
as_text _ = err (plain_error [])

abbrev as_number : Cell → Result ℤ
as_number (number_cell n) = ok n
as_number _ = err (plain_error [])

abbrev email_row : List Cell
email_row =
    number_cell (pos 1)
    ∷ number_cell (pos 0)
    ∷ text_cell (codes "t1")
    ∷ text_cell (codes "t2")
    ∷ text_cell []
    ∷ text_cell (codes "a@b")
    ∷ text_cell (codes "A")
    ∷ text_cell (codes "hi")
    ∷ text_cell (codes "text/plain")
    ∷ text_cell (codes "x")
    ∷ []

abbrev entry : EmailEntry
entry = record {
  id = pos 1;
  status = pos 0;
  created_at = codes "t1";
  ended_at = codes "t2";
  failed_reason = [];
  email = some email;
}

abbrev one_row : Rows
one_row = record { cells = email_row ∷ []; rows_err = none }

-- A database that answers everything with success.
abbrev db : MySql
db = record {
  begin_answer = λ log. none;
  exec_answer = λ log q stmt. ok (ok (pos 1));
  rows_answer = λ log q stmt. ok one_row;
  commit_answer = λ log. none;
  to_number = as_number;
  to_text = as_text;
  count_error = plain_error [];
  err_no_rows = plain_error [];
}

abbrev wire : MsgWire
wire = record {
  marshal_message = λ m. ok (9 ∷ []);
  unmarshal_message = λ b.
      ok (record { meta_data = new_pb_meta_data none; msg_format = pb_format; msg_bytes = 7 ∷ [] });
}

abbrev number : EmailEntry → ℕ
number e = 7

send-Ends_example :
    Ends []
      (λ e s. BothStored printer wire codecs number background [] email e s.durable)
      (send db (publisher printer db wire codecs) number background email [])
unfolding effects
send-Ends_example = send-Ends printer db wire codecs number background email []

abbrev smtp_fails : Mail → Option Error
smtp_fails mail = some (plain_error (codes "refused"))

handle_email_entry-Ends_example :
    Ends []
      (λ _ s. s.durable ≡ update_for printer (pos 1) (smtp_fails (mail_of (codes "me") email)) ∷ [])
      (handle_email_entry printer db smtp_fails (codes "me") entry [])
unfolding effects
handle_email_entry-Ends_example =
    handle_email_entry-Ends printer db smtp_fails (codes "me") entry email [] refl

list_iff_example :
    ((list db []).0 ≡ returned (entry ∷ []))
    ↔ ((one_row.rows_err ≡ none) × (map (scan_email_entry db) one_row.cells ≡ map ok (entry ∷ [])))
unfolding query
list_iff_example = list_iff db [] one_row (entry ∷ []) refl
