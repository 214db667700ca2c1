-- ===== src/Binlogmsg/Dump/Order.antt =====
-- binlogmsg/binlogmsg.go: which rows one call of MsgPipe.run flushes, and in which order.
use nproto.Prelude.{
  Text, true, if◌then◌else◌, ◌≡◌, refl, sym, ap, ◌∙◌, ◌⊎◌, inl, inr, Bool-cases, Option-cases,
  Option, none, some, List, [], ◌∷◌, ◌++◌, map, append-nil, append_assoc,
}
use nproto.Go.{Error, Result, ok, err}
use nproto.Msg.{MsgWire}
use nproto.Binlogmsg.{MsgEntry}
use nproto.Binlogmsg.Tables.{TableFilter}
use nproto.Binlogmsg.Dump.{
  MsgRow, new_msg_entry, DumpEvent, row_insertion, trx_beginning, trx_ending, other_event,
  TableDump, Progress, Source, flush_entry, dump_rows, dump_table, dump_tables, full_dump, Stop,
  stopped, crashes, stop_of, flush_panics, incr_event, incr_dump, after_full_dump, dump_all, run,
}

-- The specification: the entries of a table's dump, of the dumps of the tables, of the inserted
-- rows of the tables that the filter accepts, and of both dumps.
abbrev pub table_entries : Text → Text → Result TableDump → List MsgEntry
table_entries schema table (err e) = []
table_entries schema table (ok dump) = map (new_msg_entry schema table) dump.rows

abbrev pub tables_entries : (Text → Text → Result TableDump) → List (Text × Text) → List MsgEntry
tables_entries query [] = []
tables_entries query ((schema, table) ∷ ts) =
    table_entries schema table (query schema table) ++ tables_entries query ts

abbrev pub event_entries : TableFilter → DumpEvent → List MsgEntry
event_entries filter (row_insertion schema table row) =
    if filter schema table then new_msg_entry schema table row ∷ [] else []
event_entries filter (trx_beginning set) = []
event_entries filter (trx_ending set) = []
event_entries filter other_event = []

abbrev pub events_entries : TableFilter → List DumpEvent → List MsgEntry
events_entries filter [] = []
events_entries filter (ev ∷ evs) = event_entries filter ev ++ events_entries filter evs

abbrev pub listed_entries : Source → Result (List (Text × Text)) → List MsgEntry
listed_entries src (err e) = []
listed_entries src (ok tables) = tables_entries src.query_table tables

abbrev pub later_entries : TableFilter → Source → Result Text → List MsgEntry
later_entries filter src (err e) = []
later_entries filter src (ok set) = events_entries filter (src.events set)

-- Without an error all of the entries have been flushed after those before, else a first part.
abbrev pub Flushes : List MsgEntry → List MsgEntry → Option Stop × Progress → Type 0
Flushes before entries r =
    ((r.0 ≡ none) × (r.1.flushed ≡ before ++ entries))
    ⊎ ((e : Stop) × (r.0 ≡ some e)
        × (sent : List MsgEntry) × (rest : List MsgEntry) × (entries ≡ sent ++ rest)
        × (r.1.flushed ≡ before ++ sent))

abbrev go_on : (Progress → Option Stop × Progress) → Option Stop × Progress → Option Stop × Progress
go_on next r = elim (r.0) [ some f ↦ (some f, r.1) | none ↦ next r.1 ]

go_on-Flushes :
    (before xs ys : List MsgEntry) (r : Option Stop × Progress)
    (next : Progress → Option Stop × Progress)
    → Flushes before xs r
    → ((p : Progress) → Flushes p.flushed ys (next p))
    → Flushes before (xs ++ ys) (go_on next r)
go_on-Flushes before xs ys (some f, p) next (inl (no_err, all_sent)) go = absurd (cc)
go_on-Flushes before xs ys (some f, p) next (inr (e, is_err, sent, rest, split, kept)) go =
    inr (f, refl, sent, rest ++ ys, ap (λ l. l ++ ys) split ∙ append_assoc sent rest ys, kept)
go_on-Flushes before xs ys (none, p) next (inr (e, is_err, sent, rest, split, kept)) go =
    absurd (cc)
go_on-Flushes before xs ys (none, p) next (inl (no_err, all_sent)) go = elim (go p) [
  | inl (ended, sent) ↦ inl (ended, sent ∙ ap (λ l. l ++ ys) all_sent ∙ append_assoc before xs ys)
  | inr (e, is_err, sent, rest, split, kept) ↦ inr (
    e,
    is_err,
    xs ++ sent,
    rest,
    ap (λ l. xs ++ l) split ∙ sym (append_assoc xs sent rest),
    kept ∙ ap (λ l. l ++ sent) all_sent ∙ append_assoc before xs sent,
  )
]

module _ (wire : MsgWire) (flush_answer : List MsgEntry → Option Error) where
  flush_entry-Flushes :
      (entry : MsgEntry) (p : Progress)
      → Flushes p.flushed (entry ∷ []) (flush_entry wire flush_answer entry p)
  unfolding flush_entry
  flush_entry-Flushes entry p = elim (Option-cases (flush_answer p.flushed)) [
    | inl e ↦ elim (Bool-cases (flush_panics wire entry)) [
      | inl c ↦
          rw (e, c, flush_entry)
            (inr (crashes, refl, [], entry ∷ [], refl, sym (append-nil p.flushed)))
      | inr c ↦ rw (e, c, flush_entry) (inl (refl, refl))
    ]
    | inr (f, e) ↦
        rw (e, flush_entry)
          (inr (stopped f, refl, [], entry ∷ [], refl, sym (append-nil p.flushed)))
  ]

  ended-Flushes :
      (end_err : Option Error) (p : Progress) → Flushes p.flushed [] (stop_of end_err, p)
  ended-Flushes none p = inl (refl, sym (append-nil p.flushed))
  ended-Flushes (some e) p = inr (stopped e, refl, [], [], refl, sym (append-nil p.flushed))

  dump_rows-Flushes :
      (schema table : Text) (rows : List MsgRow) (end_err : Option Error) (p : Progress)
      → Flushes p.flushed
          (map (new_msg_entry schema table) rows)
          (dump_rows wire flush_answer schema table rows end_err p)
  unfolding dump_rows
  dump_rows-Flushes schema table [] end_err p = ended-Flushes end_err p
  dump_rows-Flushes schema table (row ∷ rows) end_err p =
      go_on-Flushes p.flushed (new_msg_entry schema table row ∷ [])
        (map (new_msg_entry schema table) rows)
        (flush_entry wire flush_answer (new_msg_entry schema table row) p)
        (dump_rows wire flush_answer schema table rows end_err)
        (flush_entry-Flushes (new_msg_entry schema table row) p)
        (dump_rows-Flushes schema table rows end_err)

  dump_table-Flushes :
      (schema table : Text) (dump : Result TableDump) (p : Progress)
      → Flushes p.flushed
          (table_entries schema table dump)
          (dump_table wire flush_answer schema table dump p)
  unfolding dump_table
  dump_table-Flushes schema table (err e) p = ended-Flushes (some e) p
  dump_table-Flushes schema table (ok dump) p =
      dump_rows-Flushes schema table dump.rows dump.end_err p

  dump_tables-Flushes :
      (query : Text → Text → Result TableDump) (ts : List (Text × Text)) (p : Progress)
      → Flushes p.flushed (tables_entries query ts) (dump_tables wire flush_answer query ts p)
  unfolding dump_tables
  dump_tables-Flushes query [] p = ended-Flushes none p
  dump_tables-Flushes query ((schema, table) ∷ ts) p =
      go_on-Flushes p.flushed (table_entries schema table (query schema table))
        (tables_entries query ts) (dump_table wire flush_answer schema table (query schema table) p)
        (dump_tables wire flush_answer query ts)
        (dump_table-Flushes schema table (query schema table) p) (dump_tables-Flushes query ts)

  full_dump-Flushes :
      (src : Source) (listed : Result (List (Text × Text))) (p : Progress)
      → Flushes p.flushed (listed_entries src listed) (full_dump wire flush_answer src listed p)
  unfolding full_dump
  full_dump-Flushes src (err e) p = ended-Flushes (some e) p
  full_dump-Flushes src (ok ts) p = dump_tables-Flushes src.query_table ts p

  module _ (filter : TableFilter) where
    incr_event-Flushes :
        (ev : DumpEvent) (p : Progress)
        → Flushes p.flushed (event_entries filter ev) (incr_event wire flush_answer filter ev p)
    unfolding incr_event
    incr_event-Flushes (row_insertion schema table row) p =
        elim (Bool-cases (filter schema table)) [
          | inl c ↦ rw (c, incr_event) (flush_entry-Flushes (new_msg_entry schema table row) p)
          | inr c ↦ rw (c, incr_event) (ended-Flushes none p)
        ]
    incr_event-Flushes (trx_beginning set) p = inl (refl, sym (append-nil p.flushed))
    incr_event-Flushes (trx_ending set) p = inl (refl, sym (append-nil p.flushed))
    incr_event-Flushes other_event p = ended-Flushes none p

    incr_dump-Flushes :
        (evs : List DumpEvent) (end_err : Option Error) (p : Progress)
        → Flushes p.flushed
            (events_entries filter evs)
            (incr_dump wire flush_answer filter evs end_err p)
    unfolding incr_dump
    incr_dump-Flushes [] end_err p = ended-Flushes end_err p
    incr_dump-Flushes (ev ∷ evs) end_err p =
        go_on-Flushes p.flushed (event_entries filter ev) (events_entries filter evs)
          (incr_event wire flush_answer filter ev p)
          (incr_dump wire flush_answer filter evs end_err) (incr_event-Flushes ev p)
          (incr_dump-Flushes evs end_err)

    after_full_dump-Flushes :
        (src : Source) (set : Result Text) (p : Progress)
        → Flushes p.flushed
            (later_entries filter src set)
            (after_full_dump wire flush_answer filter src set p)
    unfolding after_full_dump
    after_full_dump-Flushes src (err e) p = ended-Flushes (some e) p
    after_full_dump-Flushes src (ok set) p = incr_dump-Flushes (src.events set) src.incr_err p

    pub run-Flushes :
        (src : Source) (flushed : List MsgEntry)
        → src.open_err ≡ none
        → Flushes flushed
            (listed_entries src src.listed ++ later_entries filter src src.dump_result)
            (run wire flush_answer filter src flushed)
    unfolding run dump_all
    run-Flushes src flushed h =
        let p : Progress = record { flushed = flushed; cur_trx = none; trx_ended = true } in
        rw (h, run)
          (go_on-Flushes flushed (listed_entries src src.listed)
            (later_entries filter src src.dump_result)
            (full_dump wire flush_answer src src.listed p)
            (after_full_dump wire flush_answer filter src src.dump_result)
            (full_dump-Flushes src src.listed p) (after_full_dump-Flushes src src.dump_result))
