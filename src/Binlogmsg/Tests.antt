-- ===== src/Binlogmsg/Tests.antt =====
-- binlogmsg: the theorems at concrete inputs.
use nproto.Prelude.{codes, ◌≡◌, refl, [], ◌∷◌, true, false, none, some, ℕ, ◌+◌, ◌≤◌, arith, length}
use nproto.Go.{ok}
use nproto.Binlogmsg.{no_err, an_err, MsgEntry}
use nproto.Binlogmsg.Pipe.{
  row_of, Run, new_run, flush, call_back, receive, post_process_entry, Reach, start, next, flushes,
  calls_back, receives, processes,
}
use nproto.Binlogmsg.Pipe.Invariant.{held, inflight_bound, deleted_after_ack}
use nproto.Binlogmsg.Pipe.Rows.{count_row, rows}
use nproto.Binlogmsg.Pipe.Drain.{Advances, drains}
use nproto.Prelude.{Text, ◌==◌, text_eq, List, Option, list_beq}
use nproto.Prelude.Int.{pos}
use nproto.Go.{Error, plain_error, Result, err}
use nproto.Sql.{MySql, Cell, text_cell, on_db, returned, queried}
use nproto.Binlogmsg.Tables.{TableFilter, list_statement, scan_table, list_msg_tables}
use nproto.Binlogmsg.Tables.Laws.{list_msg_tables_lem}
use nproto.Binlogmsg.Dump.{
  MsgRow, row_insertion, trx_beginning, trx_ending, Source, run, flush_panics,
}
use nproto.Msg.{MsgWire}
use nproto.Names.{matches_subject}
use nproto.Binlogmsg.Settled.{delivered, dealt_with, run_settles}
use nproto.Samples.{printer}

abbrev row : ℕ → MsgEntry
row n = record {
  id = n;
  subject = codes "news";
  data_ = 1 ∷ [];
  schema = codes "db";
  table = codes "msgs";
  publish_err = none;
}

abbrev acked_row : MsgEntry
acked_row = record (row 5) { publish_err = some no_err }

abbrev r1 : Run
r1 = flush (row 5) (new_run 2)

abbrev r2 : Run
r2 = flush (row 6) r1

abbrev r3 : Run
r3 = call_back (row 6 ∷ []) (row 5) [] none r2

abbrev r4 : Run
r4 = receive acked_row [] r3

abbrev r5 : Run
r5 = post_process_entry acked_row true r4

-- Two rows are flushed; the first one is acknowledged and deleted.
r3-Reach : Reach 2 r3
unfolding new_run flush call_back
r3-Reach =
    next
      (next (next (start refl) (flushes (row 5) (omega arith) refl))
        (flushes (row 6) (omega arith) refl))
      (calls_back (row 6 ∷ []) (row 5) [] none refl refl)

r4-Reach : Reach 2 r4
unfolding new_run flush call_back receive
r4-Reach = next r3-Reach (receives acked_row [] refl refl refl)

r5-Reach : Reach 2 r5
unfolding new_run flush call_back receive post_process_entry
r5-Reach = next r4-Reach (processes acked_row true refl refl)

inflight_bound_example :
    (length r4.in_flight + length r4.entries + held r4.processing ≤ 2) × (r4.crashed ≡ false)
inflight_bound_example = inflight_bound 2 r4 r4-Reach

deleted_after_ack_example :
    count_row (row_of (row 5)) r5.deleted ≤ count_row (row_of (row 5)) r5.acked
deleted_after_ack_example = deleted_after_ack 2 r5 (row_of (row 5)) r5-Reach

drains_example : Advances r3
unfolding new_run flush call_back
drains_example = drains 2 r3 r3-Reach (omega arith)

abbrev accept_msgs : TableFilter
accept_msgs schema table = table == codes "msgs"

abbrev stored_row : MsgRow
stored_row = record { row_id = 5; row_subject = codes "news"; row_data = 1 ∷ [] }

-- One msg table with a row, and a row that is inserted after the full dump.
abbrev source : Source
source = record {
  open_err = none;
  listed = ok ((codes "db", codes "msgs") ∷ []);
  query_table = λ schema table. ok (record { rows = stored_row ∷ []; end_err = none });
  dump_result = ok (codes "gtid");
  events = λ set.
      trx_beginning (codes "t1")
      ∷ row_insertion (codes "db") (codes "msgs") (record stored_row { row_id = 6 })
      ∷ row_insertion (codes "db") (codes "other") stored_row
      ∷ trx_ending (codes "t2")
      ∷ [];
  incr_err = some (plain_error (codes "lost"));
}

abbrev wire : MsgWire
wire = record {
  marshal_message = λ m. err (plain_error []);
  unmarshal_message = λ b. ok (record { meta_data = []; msg_format = codes "json"; msg_bytes = b });
}

abbrev always : List MsgEntry → Option Error
always flushed = none

run_flushes : (run wire always accept_msgs source []).1.flushed ≡ row 5 ∷ row 6 ∷ []
unfolding run list_beq flush_panics matches_subject
run_flushes = refl

abbrev refused : Error
refused = plain_error (codes "refused")

abbrev refused_row : MsgEntry
refused_row = record (row 6) { publish_err = some (an_err refused) }

abbrev r6 : Run
r6 = call_back [] (row 6) [] (some refused) r5

abbrev r7 : Run
r7 = receive refused_row [] r6

abbrev r8 : Run
r8 = post_process_entry refused_row true r7

-- The second row is refused by the downstream, and stays in its table.
r8-Reach : Reach 2 r8
unfolding new_run flush call_back receive post_process_entry
r8-Reach =
    next
      (next (next r5-Reach (calls_back [] (row 6) [] (some refused) refl refl))
        (receives refused_row [] refl refl refl))
      (processes refused_row true refl refl)

run_settles_example :
    (dealt_with (row_of (row 6)) r8-Reach
      ≤ count_row (row_of (row 6)) (rows (delivered accept_msgs source)))
    × ((run wire always accept_msgs source []).0 ≡ none
        → dealt_with (row_of (row 6)) r8-Reach
          ≡ count_row (row_of (row 6)) (rows (delivered accept_msgs source)))
unfolding run list_beq flush_panics matches_subject new_run flush call_back receive
    post_process_entry r3-Reach r4-Reach r5-Reach r8-Reach
run_settles_example =
    run_settles wire always accept_msgs source r8-Reach (row_of (row 6)) refl refl refl

abbrev as_text : Cell → Result Text
as_text (text_cell t) = ok t
as_text _ = err (plain_error [])

-- A database that lists two tables and then loses the connection.
abbrev broken : MySql
broken = record {
  begin_answer = λ log. none;
  exec_answer = λ log q stmt. ok (ok (pos 1));
  rows_answer = λ log q stmt. ok (record {
    cells =
        (text_cell (codes "db") ∷ text_cell (codes "msgs") ∷ [])
        ∷ (text_cell (codes "db") ∷ text_cell (codes "other") ∷ [])
        ∷ [];
    rows_err = some (plain_error (codes "lost"));
  });
  commit_answer = λ log. none;
  to_number = λ c. ok (pos 0);
  to_text = as_text;
  count_error = plain_error [];
  err_no_rows = plain_error [];
}

list_msg_tables_lem_example :
    list_msg_tables printer broken on_db accept_msgs []
    ≡ (returned ((codes "db", codes "msgs") ∷ []), queried on_db list_statement ∷ [])
unfolding list_beq scan_table
list_msg_tables_lem_example =
    list_msg_tables_lem printer broken accept_msgs on_db []
      (record {
        cells =
            (text_cell (codes "db") ∷ text_cell (codes "msgs") ∷ [])
            ∷ (text_cell (codes "db") ∷ text_cell (codes "other") ∷ [])
            ∷ [];
        rows_err = some (plain_error (codes "lost"));
      })
      ((codes "db", codes "msgs") ∷ (codes "db", codes "other") ∷ []) refl refl
