-- ===== src/Binlogmsg/Dump.antt =====
-- binlogmsg/binlogmsg.go: the order of MsgPipe.run, a full dump of the msg tables and then the
-- incremental dump, and the loop of Run.
pub mod Order
use nproto.Prelude.{
  Text, Bool, true, false, if◌then◌else◌, Option, none, some, List, [], ◌∷◌, ◌++◌, ℕ,
}
use nproto.Go.{Error, Result, ok, err}
use nproto.Msg.{MsgWire, new_raw_data_msg_spec}
use nproto.Binlogmsg.{MsgEntry}
use nproto.Binlogmsg.Tables.{TableFilter}

-- The columns of a row that the pipe reads.
pub record MsgRow : Type 0 where
  pub row_id : ℕ
  pub row_subject : Text
  pub row_data : Text

-- newMsgEntry
unfoldable pub new_msg_entry : Text → Text → MsgRow → MsgEntry
new_msg_entry schema table row = record {
  id = row.row_id;
  subject = row.row_subject;
  data_ = row.row_data;
  schema = schema;
  table = table;
  publish_err = none;
}

-- The events of incrdump that the callback looks at, with the set of transactions after one of
-- them, and the others.
pub data DumpEvent : Type 0 where
  row_insertion : Text → Text → MsgRow → DumpEvent
  trx_beginning : Text → DumpEvent
  trx_ending : Text → DumpEvent
  other_event : DumpEvent

-- The rows that the iterator of a FullTableQuery gives, and the error at their end.
pub record TableDump : Type 0 where
  pub rows : List MsgRow
  pub end_err : Option Error

-- The variables that the callbacks of run change: the entries flushed, curTrxContext with its
-- set of transactions, and curTrxEnded.
pub record Progress : Type 0 where
  pub flushed : List MsgEntry
  pub cur_trx : Option Text
  pub trx_ended : Bool

-- What one call of run finds: opening the database, the msg tables or an error, the query of
-- each table, the error with which FullDump itself ends, and for its set of transactions
-- the events of the incremental dump and the error at their end.
pub record Source : Type 0 where
  pub open_err : Option Error
  pub listed : Result (List (Text × Text))
  pub query_table : Text → Text → Result TableDump
  pub dump_result : Result Text
  pub events : Text → List DumpEvent
  pub incr_err : Option Error

-- How the dumps stop: with an error, or in a panic of flushMsgEntry, which nothing recovers.
pub data Stop : Type 0 where
  stopped : Error → Stop
  crashes : Stop

-- The end of an iterator or a dump.
abbrev pub stop_of : Option Error → Option Stop
stop_of none = none
stop_of (some e) = some (stopped e)

-- The panics of flushMsgEntry, before it hands the entry on: on a subject that is not valid, and on
-- data that does not unmarshal.
unfoldable pub flush_panics : MsgWire → MsgEntry → Bool
unfolding new_raw_data_msg_spec
flush_panics wire entry = elim (new_raw_data_msg_spec entry.subject) [
  | err e ↦ true
  | ok spec ↦ elim (wire.unmarshal_message entry.data_) [ err e ↦ true | ok m ↦ false ]
]

module _ (wire : MsgWire) (flush_answer : List MsgEntry → Option Error) where
  -- flush: it fails when the context has ended before there is a quota for the entry, and panics if
  -- flushMsgEntry does.
  unfoldable pub flush_entry : MsgEntry → Progress → Option Stop × Progress
  unfolding flush_panics
  flush_entry entry p = elim (flush_answer p.flushed) [
    | some e ↦ (some (stopped e), p)
    | none ↦
        if flush_panics wire entry
        then (some crashes, p)
        else (none, record p { flushed = p.flushed ++ entry ∷ [] })
  ]

  -- The loop over the rows of a table.
  unfoldable pub dump_rows :
      Text → Text → List MsgRow → Option Error → Progress → Option Stop × Progress
  unfolding flush_entry new_msg_entry
  dump_rows schema table [] end_err p = (stop_of end_err, p)
  dump_rows schema table (row ∷ rows) end_err p =
      let (e, p1) = flush_entry (new_msg_entry schema table row) p in
      elim e [ some f ↦ (some f, p1) | none ↦ dump_rows schema table rows end_err p1 ]

  unfoldable pub dump_table : Text → Text → Result TableDump → Progress → Option Stop × Progress
  unfolding dump_rows
  dump_table schema table (err e) p = (some (stopped e), p)
  dump_table schema table (ok dump) p = dump_rows schema table dump.rows dump.end_err p

  -- The loop over the tables.
  unfoldable pub dump_tables :
      (Text → Text → Result TableDump) → List (Text × Text) → Progress → Option Stop × Progress
  unfolding dump_table
  dump_tables query_table [] p = (none, p)
  dump_tables query_table ((schema, table) ∷ ts) p =
      let (e, p1) = dump_table schema table (query_table schema table) p in
      elim e [ some f ↦ (some f, p1) | none ↦ dump_tables query_table ts p1 ]

  -- The callback of FullDump.
  unfoldable pub full_dump :
      Source → Result (List (Text × Text)) → Progress → Option Stop × Progress
  unfolding dump_tables
  full_dump src (err e) p = (some (stopped e), p)
  full_dump src (ok tables) p = dump_tables src.query_table tables p

  module _ (filter : TableFilter) where
    -- The callback of IncrDump.
    unfoldable pub incr_event : DumpEvent → Progress → Option Stop × Progress
    unfolding flush_entry new_msg_entry
    incr_event (row_insertion schema table row) p =
        if filter schema table then flush_entry (new_msg_entry schema table row) p else (none, p)
    incr_event (trx_beginning set) p = (none, record p { cur_trx = some set; trx_ended = false })
    incr_event (trx_ending set) p = (none, record p { cur_trx = some set; trx_ended = true })
    incr_event other_event p = (none, p)

    -- IncrDump calls it for each event until it returns an error.
    unfoldable pub incr_dump : List DumpEvent → Option Error → Progress → Option Stop × Progress
    unfolding incr_event
    incr_dump [] end_err p = (stop_of end_err, p)
    incr_dump (ev ∷ evs) end_err p =
        let (e, p1) = incr_event ev p in
        elim e [ some f ↦ (some f, p1) | none ↦ incr_dump evs end_err p1 ]

    -- After the full dump's callback has succeeded: FullDump's own result.
    unfoldable pub after_full_dump : Source → Result Text → Progress → Option Stop × Progress
    unfolding incr_dump
    after_full_dump src (err e) p = (some (stopped e), p)
    after_full_dump src (ok set) p = incr_dump (src.events set) src.incr_err p

    -- run, from the opened database on.
    unfoldable pub dump_all : Source → Progress → Option Stop × Progress
    unfolding full_dump after_full_dump
    dump_all src p =
        let (e, p1) = full_dump src src.listed p in
        elim e [ some f ↦ (some f, p1) | none ↦ after_full_dump src src.dump_result p1 ]

    -- run
    unfoldable pub run : Source → List MsgEntry → Option Stop × Progress
    unfolding dump_all
    run src flushed =
        let p : Progress = record { flushed = flushed; cur_trx = none; trx_ended = true } in
        elim src.open_err [ some e ↦ (some (stopped e), p) | none ↦ dump_all src p ]

    -- Run: rounds of run until the context is done at the select after one; its error is returned,
    -- unless a panic ends the program before. `none` is a loop that goes on after these rounds.
    unfoldable pub run_loop :
        List (Source × Option Error) → List MsgEntry → Option Stop × List MsgEntry
    unfolding run
    run_loop [] flushed = (none, flushed)
    run_loop ((src, done) ∷ rounds) flushed =
        let (e, p) = run src flushed in
        let rest = run_loop rounds p.flushed in
        elim e [
          | some crashes ↦ (some crashes, p.flushed)
          | _ ↦ elim done [ some f ↦ (some (stopped f), p.flushed) | none ↦ rest ]
        ]
