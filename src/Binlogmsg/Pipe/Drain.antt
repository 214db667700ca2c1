-- ===== src/Binlogmsg/Pipe/Drain.antt =====
-- binlogmsg/binlogmsg.go: a run of the pipe does not get stuck on the entries that it has taken.
use nproto.Prelude.{
  true, if_cases, ltb, Option, none, some, List, [], ◌∷◌, ℕ, ◌+◌, ◌*◌, ◌<◌, ◌≡◌, ◌≢◌, refl, ap,
  arith, length, length-append,
}
use nproto.Go.{Error}
use nproto.Binlogmsg.{MsgEntry, set_publish_err, get_publish_err}
use nproto.Binlogmsg.Pipe.{
  Row, row_of, Run, call_back, receive, post_process, post_process_entry, Step, calls_back,
  receives, processes, Reach,
}
use nproto.Binlogmsg.Pipe.Invariant.{Inv, held, HasResult, Reach-Inv}

-- What is left to do for the entries that have been flushed.
abbrev pub work : Run → ℕ
work s = 3 * length s.in_flight + 2 * length s.entries + held s.processing

-- A step that leaves less work. Flushes and the end of the context are no such steps.
abbrev pub Advances : Run → Type 0
Advances s = (t : Run) × Step s t × (work t < work s)

work-post_process :
    (result : Option (Option Error)) (row : Row) (s : Run)
    → result ≢ none
    → held s.processing ≡ 1
    → work (post_process result true row s) < work s
unfolding post_process
work-post_process none row s set h = absurd (set refl)
work-post_process (some none) row s set h = omega (arith, h)
work-post_process (some (some e)) row s set h = omega (arith, h)

work-call_back :
    (entry : MsgEntry) (rest : List MsgEntry) (s : Run)
    → s.in_flight ≡ entry ∷ rest
    → length s.entries < s.max_inflight
    → work (call_back [] entry rest none s) < work s
unfolding call_back
work-call_back entry rest s h room =
    let size : length s.in_flight ≡ length (entry ∷ rest) = ap length h in
    if_cases (λ (t : Run). work t < work s) (ltb (length s.entries) s.max_inflight) _ _
      (λ q. omega (arith, size, length-append s.entries (set_publish_err none entry ∷ [])))
      (λ q. absurd (ground (arith, q, room)))

advance :
    (processing : Option MsgEntry) (entries in_flight : List MsgEntry) (s : Run)
    → s.processing ≡ processing
    → s.entries ≡ entries
    → s.in_flight ≡ in_flight
    → 0 < s.tokens
    → Inv s
    → Advances s
unfolding post_process_entry receive
advance (some entry) entries in_flight s p e f busy v =
    let set : HasResult entry = rw p at v.held_set in
    (
      post_process_entry entry true s,
      processes entry true p refl,
      work-post_process (get_publish_err entry) (row_of entry) s set (ap held p),
    )
advance none (entry ∷ rest) in_flight s p e f busy v =
    let size : length s.entries ≡ length (entry ∷ rest) = ap length e in
    let idle : held s.processing ≡ 0 = ap held p in
    (receive entry rest s, receives entry rest p e refl, omega (arith, size, idle))
advance none [] (entry ∷ rest) s p e f busy v =
    let size : length s.entries ≡ 0 = ap length e in
    (
      call_back [] entry rest none s,
      calls_back [] entry rest none f refl,
      work-call_back entry rest s f (omega (arith, size, busy, v.bound)),
    )
advance none [] [] s p e f busy v =
    absurd (let k = rw (p, e, f) at v.flow in omega (arith, k, busy))

-- In every interleaving of a run of the pipe: as long as a token is taken, a callback of the
-- downstream or the post process goroutine can take a step that brings the flushed entries nearer
-- to their end, whether or not the context has ended.
pub drains : (n : ℕ) (s : Run) → Reach n s → 0 < s.tokens → Advances s
drains n s r busy = advance s.processing s.entries s.in_flight s refl refl refl busy (Reach-Inv r).0
