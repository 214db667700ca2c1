-- ===== src/Binlogmsg/Pipe.antt =====
-- binlogmsg/binlogmsg.go: the flow control of MsgPipe.run, between the dumps that flush rows, the
-- downstream that calls back, and the post process goroutine that deletes rows.
pub mod Rows
pub mod Invariant
pub mod Drain
pub mod Account
use nproto.Prelude.{
  Text, Bool, true, false, if◌then◌else◌, ltb, Option, none, some, List, [], ◌∷◌, ◌++◌, ℕ, ◌+◌, ◌-◌,
  ◌<◌, ◌≡◌, length,
}
use nproto.Go.{Error}
use nproto.Binlogmsg.{MsgEntry, set_publish_err, get_publish_err}

-- What delMsg identifies a row by: its schema and table, and its id.
abbrev pub Row : Type 0
Row = (Text × Text) × ℕ

unfoldable pub row_of : MsgEntry → Row
row_of entry = ((entry.schema, entry.table), entry.id)

-- One run. `tokens` is the length of ctrlCh, `in_flight` the entries whose callback has not been
-- called, `entries` what is in entryCh, `processing` the entry that the goroutine has received.
-- `acked` and `deleted` record the rows that the downstream has called back for without an error, and
-- those that have been deleted.
pub record Run : Type 0 where
  pub max_inflight : ℕ
  pub tokens : ℕ
  pub in_flight : List MsgEntry
  pub entries : List MsgEntry
  pub processing : Option MsgEntry
  pub cancelled : Bool
  pub crashed : Bool
  pub acked : List Row
  pub deleted : List Row

unfoldable pub new_run : ℕ → Run
new_run max_inflight = record {
  max_inflight = max_inflight;
  tokens = 0;
  in_flight = [];
  entries = [];
  processing = none;
  cancelled = false;
  crashed = false;
  acked = [];
  deleted = [];
}

-- flush, once ctrlCh has taken a token.
unfoldable pub flush : MsgEntry → Run → Run
flush entry s = record s { tokens = s.tokens + 1; in_flight = entry ∷ s.in_flight }

pub ack : Option Error → Row → List Row → List Row
ack none row acked = row ∷ acked
ack (some e) row acked = acked

-- The callback of an entry that stands between two parts of those in flight: it panics if entryCh
-- is full.
unfoldable pub call_back : List MsgEntry → MsgEntry → List MsgEntry → Option Error → Run → Run
unfolding ack set_publish_err row_of
call_back before entry after e s =
    if ltb (length s.entries) s.max_inflight
    then record s {
      in_flight = before ++ after;
      entries = s.entries ++ set_publish_err e entry ∷ [];
      acked = ack e (row_of entry) s.acked;
    }
    else record s { crashed = true }

-- The goroutine receives an entry.
unfoldable pub receive : MsgEntry → List MsgEntry → Run → Run
receive entry rest s = record s { entries = rest; processing = some entry }

-- The rest of the goroutine's round, by the entry's result; delMsg may fail, and its error is dropped.
pub post_process : Option (Option Error) → Bool → Row → Run → Run
post_process none del_ok row s = record s { crashed = true }
post_process (some none) true row s = record s {
  deleted = row ∷ s.deleted;
  tokens = s.tokens - 1;
  processing = none;
}
post_process (some none) false row s = record s { tokens = s.tokens - 1; processing = none }
post_process (some (some e)) del_ok row s = record s {
  cancelled = true;
  tokens = s.tokens - 1;
  processing = none;
}

unfoldable pub post_process_entry : MsgEntry → Bool → Run → Run
unfolding post_process get_publish_err row_of
post_process_entry entry del_ok s = post_process (get_publish_err entry) del_ok (row_of entry) s

-- The interleavings of the dumps, the downstream's callbacks and the goroutine. A flush waits for a
-- token or for the context to end. The downstream calls back once for each entry.
pub data Step (s t : Run) : Type 0 where
  flushes : (entry : MsgEntry) → s.tokens < s.max_inflight → t ≡ flush entry s → Step s t
  calls_back :
      (before : List MsgEntry) (entry : MsgEntry) (after : List MsgEntry) (e : Option Error)
      → s.in_flight ≡ before ++ entry ∷ after
      → t ≡ call_back before entry after e s
      → Step s t
  receives :
      (entry : MsgEntry) (rest : List MsgEntry)
      → s.processing ≡ none
      → s.entries ≡ entry ∷ rest
      → t ≡ receive entry rest s
      → Step s t
  processes :
      (entry : MsgEntry) (del_ok : Bool)
      → s.processing ≡ some entry
      → t ≡ post_process_entry entry del_ok s
      → Step s t
  context_ends : t ≡ record s { cancelled = true } → Step s t

pub data Reach (max_inflight : ℕ) : Run → Type 0 where
  start : {s : Run} → s ≡ new_run max_inflight → Reach max_inflight s
  next : {s t : Run} → Reach max_inflight s → Step s t → Reach max_inflight t
