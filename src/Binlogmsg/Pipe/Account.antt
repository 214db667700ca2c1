-- ===== src/Binlogmsg/Pipe/Account.antt =====
-- binlogmsg/binlogmsg.go: what becomes of the rows that a run of the pipe flushes.
use nproto.Prelude.{
  pair_eq, Bool, true, false, ltb, Option, none, some, List, [], ◌∷◌, ◌++◌, ℕ, ◌+◌, ◌≡◌, ap, arith,
  length, inl, inr, Bool-cases,
}
use nproto.Go.{Error}
use nproto.Binlogmsg.{MsgEntry, set_publish_err, get_publish_err}
use nproto.Binlogmsg.Pipe.{
  Row, row_of, Run, new_run, flush, call_back, receive, post_process, post_process_entry, Step,
  flushes, calls_back, receives, processes, context_ends, Reach, start, next,
}
use nproto.Binlogmsg.Pipe.Invariant.{Reach-Inv}
use nproto.Binlogmsg.Pipe.Rows.{
  rows, count-rows_append, count-one, count-nil, count_row, row_of-set_publish_err,
}

-- What has happened in a run: the entries flushed, in order, the rows that the goroutine found not
-- to be published, and those that it failed to delete.
pub record Log : Type 0 where
  pub flushed : List MsgEntry
  pub failed : List Row
  pub undeleted : List Row

abbrev note_processed : Option (Option Error) → Bool → Row → Log → Log
note_processed none del_ok row h = h
note_processed (some none) true row h = h
note_processed (some none) false row h = record h { undeleted = row ∷ h.undeleted }
note_processed (some (some e)) del_ok row h = record h { failed = row ∷ h.failed }

abbrev note : {s t : Run} → Step s t → Log → Log
note (flushes entry room e) h = record h { flushed = h.flushed ++ entry ∷ [] }
note (calls_back before entry after r p e) h = h
note (receives entry rest p q e) h = h
note (processes entry del_ok p e) h = note_processed (get_publish_err entry) del_ok (row_of entry) h
note (context_ends e) h = h

abbrev pub log : {n : ℕ} {s : Run} → Reach n s → Log
log (start e) = record { flushed = []; failed = []; undeleted = [] }
log (next r st) = note st (log r)

abbrev pub held_rows : Option MsgEntry → List Row
held_rows none = []
held_rows (some entry) = row_of entry ∷ []

-- Each row flushed is in one place as often as it was flushed.
abbrev Balance : Run → Log → Type 0
Balance s h =
    (i : Row)
    → count_row i (rows h.flushed)
      ≡ count_row i (rows s.in_flight)
        + count_row i (rows s.entries)
        + count_row i (held_rows s.processing)
        + count_row i s.deleted
        + count_row i h.undeleted
        + count_row i h.failed

flush-Balance :
    (entry : MsgEntry) (s : Run) (h : Log)
    → Balance s h
    → Balance (flush entry s) (record h { flushed = h.flushed ++ entry ∷ [] })
unfolding flush
flush-Balance entry s h b i = omega (
  arith,
  b i,
  count-rows_append i h.flushed (entry ∷ []),
  count-one i (row_of entry) (rows s.in_flight),
)

call_back-Balance :
    (before : List MsgEntry) (entry : MsgEntry) (after : List MsgEntry) (e : Option Error) (s : Run)
    (h : Log)
    → s.in_flight ≡ before ++ entry ∷ after
    → (call_back before entry after e s).crashed ≡ false
    → Balance s h
    → Balance (call_back before entry after e s) h
unfolding call_back
call_back-Balance before entry after e s h p alive b i =
    let there : count_row i (rows s.in_flight) ≡ count_row i (rows (before ++ entry ∷ after)) =
      ap (λ l. count_row i (rows l)) p in
    let same : count_row i (rows (set_publish_err e entry ∷ [])) ≡ count_row i (row_of entry ∷ []) =
      ap (λ r. count_row i (r ∷ [])) (row_of-set_publish_err e entry) in
    let whole = count-rows_append i before (entry ∷ after) in
    let others = count-rows_append i before after in
    let arrived = count-rows_append i s.entries (set_publish_err e entry ∷ []) in
    let one = count-one i (row_of entry) (rows after) in
    elim (Bool-cases (ltb (length s.entries) s.max_inflight)) [
      | inl c ↦ rw c (omega (arith, b i, there, same, whole, others, arrived, one))
      | inr c ↦ absurd (let crash = rw c at alive in cc)
    ]

receive-Balance :
    (entry : MsgEntry) (rest : List MsgEntry) (s : Run) (h : Log)
    → s.processing ≡ none
    → s.entries ≡ entry ∷ rest
    → Balance s h
    → Balance (receive entry rest s) h
unfolding receive
receive-Balance entry rest s h p q b i =
    let known = rw (p, q) at (b i) in
    omega (arith, known, count-one i (row_of entry) (rows rest), count-nil i)

post_process-Balance :
    (entry : MsgEntry) (result : Option (Option Error)) (del_ok : Bool) (s : Run) (h : Log)
    → s.processing ≡ some entry
    → Balance s h
    → Balance
        (post_process result del_ok (row_of entry) s)
        (note_processed result del_ok (row_of entry) h)
unfolding post_process
post_process-Balance entry none del_ok s h p b i = b i
post_process-Balance entry (some none) true s h p b i =
    let known = rw p at (b i) in
    omega (arith, known, count-one i (row_of entry) s.deleted, count-nil i)
post_process-Balance entry (some none) false s h p b i =
    let known = rw p at (b i) in
    omega (arith, known, count-one i (row_of entry) h.undeleted, count-nil i)
post_process-Balance entry (some (some e)) del_ok s h p b i =
    let known = rw p at (b i) in
    omega (arith, known, count-one i (row_of entry) h.failed, count-nil i)

Step-Balance :
    {s t : Run} (st : Step s t) (h : Log) → t.crashed ≡ false → Balance s h → Balance t (note st h)
unfolding post_process_entry
Step-Balance {s} (flushes entry room e) h alive b = rw e (flush-Balance entry s h b)
Step-Balance {s} (calls_back before entry after r p e) h alive b =
    rw e (call_back-Balance before entry after r s h p (rw e at alive) b)
Step-Balance {s} (receives entry rest p q e) h alive b = rw e (receive-Balance entry rest s h p q b)
Step-Balance {s} (processes entry del_ok p e) h alive b =
    rw e (post_process-Balance entry (get_publish_err entry) del_ok s h p b)
Step-Balance {s} (context_ends e) h alive b = rw e b

pub log-Balance : {n : ℕ} {s : Run} (r : Reach n s) → Balance s (log r)
unfolding new_run
log-Balance (start e) = rw e (λ i. (let nil = count-nil i in omega (arith, nil)))
log-Balance (next {s} {t} r st) =
    Step-Balance st (log r) (Reach-Inv (next r st)).0.alive (log-Balance r)
