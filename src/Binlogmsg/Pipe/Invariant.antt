-- ===== src/Binlogmsg/Pipe/Invariant.antt =====
-- binlogmsg/binlogmsg.go: what holds in every interleaving of a run of the pipe.
use nproto.Prelude.{
  pair_eq, Bool, true, false, if_cases, ltb, Option, none, some, List, [], ◌∷◌, ◌++◌, ℕ, ◌+◌, ◌<◌,
  ◌≤◌, ◌≡◌, ◌≢◌, refl, sym, ap, ◌∙◌, arith, length, length-append, All, All-append,
}
use nproto.Go.{Error}
use nproto.Binlogmsg.{MsgEntry, set_publish_err, get_publish_err}
use nproto.Binlogmsg.Pipe.{
  Row, row_of, Run, new_run, flush, call_back, receive, post_process, post_process_entry, Step,
  flushes, calls_back, receives, processes, context_ends, Reach, start, next,
}
use nproto.Binlogmsg.Pipe.Rows.{
  get_publish_err-set_publish_err, count_row, is_ok, ok_at, oks, oks-append, ack_counts,
}

abbrev pub held : Option MsgEntry → ℕ
held none = 0
held (some entry) = 1

abbrev pub held_ok : Row → Option MsgEntry → ℕ
held_ok i none = 0
held_ok i (some entry) = ok_at i entry

abbrev pub HasResult : MsgEntry → Type 0
HasResult entry = get_publish_err entry ≢ none

abbrev pub HeldHasResult : Option MsgEntry → Type 0
HeldHasResult none = Unit
HeldHasResult (some entry) = HasResult entry

pub record Inv (s : Run) : Type 0 where
  pub flow : length s.in_flight + length s.entries + held s.processing ≡ s.tokens
  pub bound : s.tokens ≤ s.max_inflight
  pub alive : s.crashed ≡ false
  pub entries_set : All HasResult s.entries
  pub held_set : HeldHasResult s.processing
  pub sound :
      (i : Row)
      → count_row i s.deleted + oks i s.entries + held_ok i s.processing ≤ count_row i s.acked

new_run-Inv : (n : ℕ) → Inv (new_run n)
unfolding new_run oks count_row
new_run-Inv n = record {
  flow = refl;
  bound = omega arith;
  alive = refl;
  entries_set = tt;
  held_set = tt;
  sound = λ i. omega arith;
}

flush-Inv : (entry : MsgEntry) (s : Run) → s.tokens < s.max_inflight → Inv s → Inv (flush entry s)
unfolding flush
flush-Inv entry s room v = record {
  flow = omega (arith, v.flow);
  bound = omega (arith, room);
  alive = v.alive;
  entries_set = v.entries_set;
  held_set = v.held_set;
  sound = v.sound;
}

set-HasResult : (e : Option Error) (entry : MsgEntry) → HasResult (set_publish_err e entry)
set-HasResult e entry h =
    let k : some e ≡ none = sym (get_publish_err-set_publish_err e entry) ∙ h in cc

call_back-Inv :
    (before : List MsgEntry) (entry : MsgEntry) (after : List MsgEntry) (e : Option Error) (s : Run)
    → s.in_flight ≡ before ++ entry ∷ after
    → Inv s
    → Inv (call_back before entry after e s)
unfolding call_back oks
call_back-Inv before entry after e s h v =
    let size : length s.in_flight ≡ length (before ++ entry ∷ after) = ap length h in
    let whole = length-append before (entry ∷ after) in
    let rest = length-append before after in
    let entry' : MsgEntry = set_publish_err e entry in
    if_cases Inv (ltb (length s.entries) s.max_inflight) _ _
      (λ q. record {
        flow = omega (arith, v.flow, size, whole, rest, length-append s.entries (entry' ∷ []));
        bound = v.bound;
        alive = v.alive;
        entries_set =
            All-append HasResult s.entries (entry' ∷ []) v.entries_set (set-HasResult e entry, tt);
        held_set = v.held_set;
        sound = λ i.
            omega (
              arith,
              v.sound i,
              oks-append i s.entries (entry' ∷ []),
              ack_counts e entry s.acked i,
            );
      })
      (λ q. absurd (ground (arith, q, v.flow, v.bound, size, whole)))

receive-Inv :
    (entry : MsgEntry) (rest : List MsgEntry) (s : Run)
    → s.processing ≡ none
    → s.entries ≡ entry ∷ rest
    → Inv s
    → Inv (receive entry rest s)
unfolding receive oks
receive-Inv entry rest s p h v =
    let set : All HasResult (entry ∷ rest) = rw h at v.entries_set in
    record {
      flow = (let k = rw (p, h) at v.flow in omega (arith, k));
      bound = v.bound;
      alive = v.alive;
      entries_set = set.1;
      held_set = set.0;
      sound = λ i. (let k = rw (p, h) at (v.sound i) in omega (arith, k));
    }

post_process-Inv :
    (entry : MsgEntry) (result : Option (Option Error)) (del_ok : Bool) (s : Run)
    → get_publish_err entry ≡ result
    → s.processing ≡ some entry
    → Inv s
    → Inv (post_process result del_ok (row_of entry) s)
unfolding post_process count_row is_ok
post_process-Inv entry none del_ok s g p v =
    let set : HasResult entry = rw p at v.held_set in absurd (set g)
post_process-Inv entry (some none) true s g p v = record {
  flow = (let k = rw p at v.flow in omega (arith, k));
  bound = omega (arith, v.bound);
  alive = v.alive;
  entries_set = v.entries_set;
  held_set = tt;
  sound = λ i. (let k = rw (p, g) at (v.sound i) in ground (arith, k));
}
post_process-Inv entry (some none) false s g p v = record {
  flow = (let k = rw p at v.flow in omega (arith, k));
  bound = omega (arith, v.bound);
  alive = v.alive;
  entries_set = v.entries_set;
  held_set = tt;
  sound = λ i. (let k = rw p at (v.sound i) in omega (arith, k));
}
post_process-Inv entry (some (some e)) del_ok s g p v = record {
  flow = (let k = rw p at v.flow in omega (arith, k));
  bound = omega (arith, v.bound);
  alive = v.alive;
  entries_set = v.entries_set;
  held_set = tt;
  sound = λ i. (let k = rw p at (v.sound i) in omega (arith, k));
}

Step-Inv : (s t : Run) → Step s t → Inv s → Inv t
unfolding post_process_entry
Step-Inv s t (flushes entry room e) v = rw e (flush-Inv entry s room v)
Step-Inv s t (calls_back before entry after r h e) v =
    rw e (call_back-Inv before entry after r s h v)
Step-Inv s t (receives entry rest p h e) v = rw e (receive-Inv entry rest s p h v)
Step-Inv s t (processes entry del_ok p e) v =
    rw e (post_process-Inv entry (get_publish_err entry) del_ok s refl p v)
Step-Inv s t (context_ends e) v = rw e (record {
  flow = v.flow;
  bound = v.bound;
  alive = v.alive;
  entries_set = v.entries_set;
  held_set = v.held_set;
  sound = v.sound;
})

post_process-max_inflight :
    (result : Option (Option Error)) (del_ok : Bool) (row : Row) (s : Run)
    → (post_process result del_ok row s).max_inflight ≡ s.max_inflight
unfolding post_process
post_process-max_inflight none del_ok row s = refl
post_process-max_inflight (some none) true row s = refl
post_process-max_inflight (some none) false row s = refl
post_process-max_inflight (some (some e)) del_ok row s = refl

Step-max_inflight : (s t : Run) → Step s t → t.max_inflight ≡ s.max_inflight
unfolding flush call_back receive post_process_entry post_process
Step-max_inflight s t (flushes entry room e) = ap (λ r. r.max_inflight) e
Step-max_inflight s t (calls_back before entry after r h e) = rw e (
    if_cases (λ (u : Run). u.max_inflight ≡ s.max_inflight) (ltb (length s.entries) s.max_inflight)
      _ _ (λ q. refl) (λ q. refl))
Step-max_inflight s t (receives entry rest p h e) = ap (λ r. r.max_inflight) e
Step-max_inflight s t (processes entry del_ok p e) =
    rw e (post_process-max_inflight (get_publish_err entry) del_ok (row_of entry) s)
Step-max_inflight s t (context_ends e) = ap (λ r. r.max_inflight) e

pub Reach-Inv : {n : ℕ} {s : Run} → Reach n s → Inv s × (s.max_inflight ≡ n)
unfolding new_run
Reach-Inv {n} (start e) = rw e (new_run-Inv n, refl)
Reach-Inv (next {s} {t} r st) =
    let (v, q) = Reach-Inv r in (Step-Inv s t st v, Step-max_inflight s t st ∙ q)

-- In every interleaving of a run of the pipe, the entries from flush up to the end of their post
-- processing, the one that the goroutine is at included, are no more than maxInflight, and neither
-- the send to entryCh in the callback nor the type assertion of GetPublishErr in the post
-- process goroutine ever panics.
pub inflight_bound :
    (n : ℕ) (s : Run)
    → Reach n s
    → (length s.in_flight + length s.entries + held s.processing ≤ n) × (s.crashed ≡ false)
inflight_bound n s r = let (v, q) = Reach-Inv r in (omega (arith, v.flow, v.bound, q), v.alive)

-- A row is deleted only after the downstream has called back for it without an error, and no more
-- often than that, in every interleaving of a run of the pipe.
pub deleted_after_ack :
    (n : ℕ) (s : Run) (row : Row) → Reach n s → count_row row s.deleted ≤ count_row row s.acked
deleted_after_ack n s row r = omega (arith, (Reach-Inv r).0.sound row)
