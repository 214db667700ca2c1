-- ===== src/Binlogmsg/Settled.antt =====
-- binlogmsg/binlogmsg.go: the dumps of MsgPipe.run together with its flow control, once the run has
-- ended.
use nproto.Prelude.{
  pair_eq, Option, none, some, List, [], ◌∷◌, ◌++◌, ℕ, ◌+◌, ◌≤◌, ◌≡◌, inl, inr, ap, ◌∙◌, arith,
  length,
}
use nproto.Go.{Error}
use nproto.Msg.{MsgWire}
use nproto.Binlogmsg.{MsgEntry}
use nproto.Binlogmsg.Tables.{TableFilter}
use nproto.Binlogmsg.Pipe.{Row, Run, Reach}
use nproto.Binlogmsg.Pipe.Invariant.{held, Reach-Inv}
use nproto.Binlogmsg.Pipe.Rows.{count_row, rows, count-rows_append, count-nil}
use nproto.Binlogmsg.Pipe.Account.{log, held_rows, log-Balance}
use nproto.Binlogmsg.Dump.{Stop, Source, Progress, run}
use nproto.Binlogmsg.Dump.Order.{listed_entries, later_entries, Flushes, run-Flushes}

-- What the databases deliver to one run: the rows of the msg tables, then the rows inserted since.
abbrev pub delivered : TableFilter → Source → List MsgEntry
delivered filter src = listed_entries src src.listed ++ later_entries filter src src.dump_result

no_rows : (i : Row) (entries : List MsgEntry) → length entries ≡ 0 → count_row i (rows entries) ≡ 0
no_rows i [] h = count-nil i
no_rows i (entry ∷ entries) h = absurd (omega (arith, h))

no_held : (i : Row) (p : Option MsgEntry) → held p ≡ 0 → count_row i (held_rows p) ≡ 0
no_held i none h = count-nil i
no_held i (some entry) h = absurd (omega (arith, h))

-- The rows that a run has dealt with: deleted, published but not deleted, or not published.
abbrev pub dealt_with : {n : ℕ} {s : Run} → Row → Reach n s → ℕ
dealt_with {s = s} i r =
    count_row i s.deleted + count_row i (log r).undeleted + count_row i (log r).failed

-- With no token taken, every row flushed has been dealt with.
at_rest :
    {n : ℕ} {s : Run} (r : Reach n s) (i : Row)
    → s.tokens ≡ 0
    → dealt_with i r ≡ count_row i (rows (log r).flushed)
at_rest {s = s} r i rest =
    let flow = (Reach-Inv r).0.flow in
    let in_flight = no_rows i s.in_flight (omega (arith, flow, rest)) in
    let entries = no_rows i s.entries (omega (arith, flow, rest)) in
    let processing = no_held i s.processing (omega (arith, flow, rest)) in
    omega (arith, log-Balance r i, in_flight, entries, processing)

flushed_counts :
    (i : Row) (entries flushed : List MsgEntry) (p : Option Stop × Progress)
    → Flushes [] entries p
    → flushed ≡ p.1.flushed
    → (count_row i (rows flushed) ≤ count_row i (rows entries))
      × (p.0 ≡ none → count_row i (rows flushed) ≡ count_row i (rows entries))
flushed_counts i entries flushed p (inl (ended, all)) q =
    let same : count_row i (rows flushed) ≡ count_row i (rows entries) =
      ap (λ l. count_row i (rows l)) (q ∙ all) in
    (omega (arith, same), λ e. same)
flushed_counts i entries flushed p (inr (e, failed, sent, rest, split, part)) q =
    let same : count_row i (rows flushed) ≡ count_row i (rows sent) =
      ap (λ l. count_row i (rows l)) (q ∙ part) in
    let whole : count_row i (rows entries) ≡ count_row i (rows (sent ++ rest)) =
      ap (λ l. count_row i (rows l)) split in
    (omega (arith, same, whole, count-rows_append i sent rest), λ h. absurd (cc))

-- Take a run whose database opens, and any interleaving of its flushes, of the callbacks of the
-- downstream and of the post process goroutine, in which the entries that the dumps flush are flushed in
-- their order and which has come to rest. No row has been deleted, kept because its deletion failed,
-- or kept because publishing it failed, more often in all than the databases delivered
-- it, and if the dumps ended without an error or a panic, exactly as often: no row is lost on the way.
pub run_settles :
    (wire : MsgWire) (flush_answer : List MsgEntry → Option Error) (filter : TableFilter)
    (src : Source) {n : ℕ} {s : Run} (r : Reach n s) (i : Row)
    → src.open_err ≡ none
    → (log r).flushed ≡ (run wire flush_answer filter src []).1.flushed
    → s.tokens ≡ 0
    → (dealt_with i r ≤ count_row i (rows (delivered filter src)))
      × ((run wire flush_answer filter src []).0 ≡ none
          → dealt_with i r ≡ count_row i (rows (delivered filter src)))
run_settles wire flush_answer filter src r i opens flushed rest =
    let settled = at_rest r i rest in
    let (bound, full) =
      flushed_counts i (delivered filter src) (log r).flushed (run wire flush_answer filter src [])
        (run-Flushes wire flush_answer filter src [] opens) flushed in
    (omega (arith, settled, bound), λ e. settled ∙ full e)
