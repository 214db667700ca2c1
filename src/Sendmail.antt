-- ===== src/Sendmail.antt =====
-- examples/sendmail/server/main.go: the service of the example. An email is stored and a message about it is
-- published in one transaction; the message's handler sends the email and stores how that went.
pub mod Service
pub mod Generated
pub mod Outbox
pub mod Handler
pub mod Entries
mod Tests
use nproto.Prelude.{
  Text, codes, ◌==◌, ◌&&◌, Bool, Option, none, some, List, [], ◌∷◌, ◌++◌, ℕ, text_eq,
}
use nproto.Prelude.Int.{ℤ, pos}
use nproto.Go.{message, val, Error, Result, ok, err, ◌>>=◌, Printer}
use nproto.Md.{Context}
use nproto.Enc.{Codecs}
use nproto.Rpc.{error_text}
use nproto.Msg.{MsgSpec, stub_msg, MsgWire}
use nproto.Sql
use nproto.Sql.{
  Queryer, on_db, on_tx, Arg, number_arg, text_arg, Statement, Cell, Rows, MySql, Db, return_, fail,
  lift, exec, query, query_row, commit, in_tx, of_error,
}
use nproto.Binlogmsg.Tables.{qualified, new_pb_json_publisher, TableFilter}

-- sendmail.Email and sendmail.EmailEntry of pb.pb.go; the status is SENDING, SUCCESS or FAILED, and
-- `none` is a nil *Email.
pub record Email : Type 0 where
  pub to_addr : Text
  pub to_name : Text
  pub subject : Text
  pub content_type : Text
  pub content : Text

pub record EmailEntry : Type 0 where
  pub id : ℤ
  pub status : ℤ
  pub created_at : Text
  pub ended_at : Text
  pub failed_reason : Text
  pub email : Option Email

abbrev pub sending : ℤ
sending = pos 0

abbrev pub success : ℤ
success = pos 1

abbrev pub failed_status : ℤ
failed_status = pos 2

-- mysqlDBName, mysqlMsgTableName, mysqlEmailEntryTableName
abbrev pub db_name : Text
db_name = codes "sendmail"

abbrev pub msg_table : Text
msg_table = codes "_msg"

abbrev pub entry_table : Text
entry_table = codes "email_entry"

-- The filter that main gives to NewMsgPipe.
abbrev pub main_filter : TableFilter
main_filter schema table = (schema == db_name) && (table == msg_table)

-- QueueSpec of specs.go; the number of the message EmailEntry is 2.
abbrev pub queue_spec : MsgSpec
queue_spec = stub_msg (codes "sendmail.queue") 2

-- The statement of insertEmailEntry.
abbrev pub insert_email : Email → Statement
insert_email email = record {
  sql =
      codes "INSERT INTO "
      ++ (qualified db_name entry_table
          ++ codes
              " (status, to_addr, to_name, subject, content_type, content) VALUES (?, ?, ?, ?, ?, ?)");
  args =
      number_arg sending
      ∷ text_arg email.to_addr
      ∷ text_arg email.to_name
      ∷ text_arg email.subject
      ∷ text_arg email.content_type
      ∷ text_arg email.content
      ∷ [];
}

-- The statements of updateEmailEntry.
abbrev pub update_success : ℤ → Statement
update_success id = record {
  sql =
      codes "UPDATE "
      ++ (qualified db_name entry_table ++ codes " SET status=?, ended_at=NOW() WHERE id=?");
  args = number_arg success ∷ number_arg id ∷ [];
}

abbrev pub update_failed : Text → ℤ → Statement
update_failed reason id = record {
  sql =
      codes "UPDATE "
      ++ (qualified db_name entry_table
          ++ codes " SET status=?, ended_at=NOW(), failed_reason=? WHERE id=?");
  args = number_arg failed_status ∷ text_arg reason ∷ number_arg id ∷ [];
}

-- selectEmailEntrySql
abbrev pub select_sql : Text → Text
select_sql condition =
    codes
      "\n\tSELECT\n\t\tid,\n\t\tstatus,\n\t\tcreated_at,\n\t\tended_at,\n\t\tfailed_reason,\n\t\tto_addr,\n\t\tto_name,\n\t\tsubject,\n\t\tcontent_type,\n\t\tcontent\n\tFROM "
    ++ (qualified db_name entry_table
        ++ (codes " WHERE " ++ (condition ++ codes " ORDER BY id DESC")))

module _ (db : MySql) where
  -- scanEmailEntry: Scan stores column after column, and stops at the first that fails.
  unfoldable pub scan_email_entry : List Cell → Result EmailEntry
  scan_email_entry (a ∷ b ∷ c ∷ d ∷ e ∷ f ∷ g ∷ h ∷ i ∷ j ∷ []) = do
    id ← db.to_number a
    status ← db.to_number b
    created_at ← db.to_text c
    ended_at ← db.to_text d
    failed_reason ← db.to_text e
    to_addr ← db.to_text f
    to_name ← db.to_text g
    subject ← db.to_text h
    content_type ← db.to_text i
    content ← db.to_text j
    ok (record {
      id = id;
      status = status;
      created_at = created_at;
      ended_at = ended_at;
      failed_reason = failed_reason;
      email = some (record {
        to_addr = to_addr;
        to_name = to_name;
        subject = subject;
        content_type = content_type;
        content = content;
      });
    })
  scan_email_entry _ = err db.count_error

  -- createDatabase
  unfoldable pub create_database : Queryer → Db (Result ℤ)
  unfolding exec
  create_database q = exec db q (record {
    sql = codes "\n\tCREATE DATABASE IF NOT EXISTS " ++ (db_name ++ codes "\n\t");
    args = [];
  })

  -- createEmailEntryTable
  unfoldable pub create_email_entry_table : Queryer → Db (Result ℤ)
  unfolding exec
  create_email_entry_table q = exec db q (record {
    sql =
        codes "\n\tCREATE TABLE IF NOT EXISTS "
        ++ (qualified db_name entry_table
            ++ codes
                " (\n\t\tid BIGINT NOT NULL AUTO_INCREMENT,\n\t\tstatus TINYINT UNSIGNED NOT NULL DEFAULT 0,\n\t\tcreated_at DATETIME NOT NULL DEFAULT NOW(),\n\t\tended_at DATETIME NOT NULL DEFAULT '2000-01-01 00:00:00',\n\t\tfailed_reason VARCHAR(256) NOT NULL DEFAULT '',\n\t\tto_addr VARCHAR(256) NOT NULL DEFAULT '',\n\t\tto_name VARCHAR(256) NOT NULL DEFAULT '',\n\t\tsubject VARCHAR(256) NOT NULL DEFAULT '',\n\t\tcontent_type VARCHAR(64) NOT NULL DEFAULT '',\n\t\tcontent TEXT DEFAULT (''),\n\t\tPRIMARY KEY (id))\n\t");
    args = [];
  })
