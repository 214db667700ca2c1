-- ===== src/Stanmsg/Options/Laws.antt =====
-- stanmsg/options.go: the bounds that every configuration of a DurConn keeps, and its task runners.
use nproto.Prelude.{
  Text, true, false, text_eq, Bool-cases, Option, none, some, List, [], ◌∷◌, ◌++◌, ℕ, ◌≡◌, refl,
  inl, inr, sym,
}
use nproto.Prelude.Int.{ℤ}
use nproto.Go.{Error, Result, ok, err, ok_inj, Printer}
use nproto.Md.{Context}
use nproto.Names.{matches_prefix}
use nproto.Options.{
  at_least, replace_runner, close_current, apply_all, apply_all-keeps, apply_all-fold,
  apply_all-stops, fold_steps,
}
use nproto.Stanmsg.Options.{
  DurConnOption, dc_opt_logger, dc_opt_runner, dc_opt_subject_prefix, dc_opt_context,
  dc_opt_reconnect_wait, dc_opt_sub_retry_wait, dc_opt_stan_ping_interval, dc_opt_stan_ping_max_out,
  dc_opt_stan_pub_ack_wait, dc_opt_connect_cb, dc_opt_disconnect_cb, dc_opt_subscribe_cb, DurConfig,
  checked, apply_option, close_on_error, default_config, new_dur_config,
}

-- What stan.Connect and the loops of a DurConn rely on.
abbrev pub Bounded : DurConfig → Type 0
Bounded c =
    (matches_prefix c.subject_prefix ≡ true)
    × (at_least 1 c.reconnect_wait ≡ true)
    × (at_least 1 c.sub_retry_wait ≡ true)
    × (at_least 1 c.ping_interval ≡ true)
    × (at_least 2 c.ping_max_out ≡ true)
    × (at_least 1 c.pub_ack_wait ≡ true)

-- What holds after a successful check.
checked-keeps :
    (P : DurConfig → Type 0) (bound : ℕ) (i : ℤ) (message : Text) (c c' : DurConfig)
    → checked bound i message c ≡ ok c'
    → (at_least bound i ≡ true → P c)
    → P c'
checked-keeps P bound i message c c' h f = elim (Bool-cases (at_least bound i)) [
  | inl q ↦ rw (sym (ok_inj (rw q at h))) (f q)
  | inr q ↦ absurd (let k = rw q at h in cc)
]

abbrev pub all_runners : DurConfig → List ℕ
all_runners c = c.runners.current ∷ c.runners.closed_runners

abbrev pub take_runner : DurConnOption → List ℕ → List ℕ
take_runner (dc_opt_runner (some r)) rs = r ∷ rs
take_runner o rs = rs

module _ (fmt : Printer) (duration_string : ℤ → Text) where
  abbrev apply : DurConnOption → DurConfig → Result DurConfig
  apply = apply_option fmt duration_string

  apply-Bounded :
      (o : DurConnOption) (c c' : DurConfig) → apply o c ≡ ok c' → Bounded c → Bounded c'
  unfolding apply_option
  apply-Bounded dc_opt_logger c c' h b = rw (sym (ok_inj h)) b
  apply-Bounded (dc_opt_runner none) c c' h b = absurd (cc)
  apply-Bounded (dc_opt_runner (some r)) c c' h b = rw (sym (ok_inj h)) b
  apply-Bounded (dc_opt_subject_prefix p) c c' h b = elim (Bool-cases (matches_prefix p)) [
    | inl q ↦ rw (sym (ok_inj (rw q at h))) (q, b.1, b.2, b.3, b.4, b.5)
    | inr q ↦ absurd (let k = rw q at h in cc)
  ]
  apply-Bounded (dc_opt_context none) c c' h b = absurd (cc)
  apply-Bounded (dc_opt_context (some ctx)) c c' h b = rw (sym (ok_inj h)) b
  apply-Bounded (dc_opt_reconnect_wait t) c c' h b =
      checked-keeps Bounded 1 t _ _ c' h (λ q. (b.0, q, b.2, b.3, b.4, b.5))
  apply-Bounded (dc_opt_sub_retry_wait t) c c' h b =
      checked-keeps Bounded 1 t _ _ c' h (λ q. (b.0, b.1, q, b.3, b.4, b.5))
  apply-Bounded (dc_opt_stan_ping_interval i) c c' h b =
      checked-keeps Bounded 1 i _ _ c' h (λ q. (b.0, b.1, b.2, q, b.4, b.5))
  apply-Bounded (dc_opt_stan_ping_max_out i) c c' h b =
      checked-keeps Bounded 2 i _ _ c' h (λ q. (b.0, b.1, b.2, b.3, q, b.5))
  apply-Bounded (dc_opt_stan_pub_ack_wait t) c c' h b =
      checked-keeps Bounded 1 t _ _ c' h (λ q. (b.0, b.1, b.2, b.3, b.4, q))
  apply-Bounded dc_opt_connect_cb c c' h b = rw (sym (ok_inj h)) b
  apply-Bounded dc_opt_disconnect_cb c c' h b = rw (sym (ok_inj h)) b
  apply-Bounded dc_opt_subscribe_cb c c' h b = rw (sym (ok_inj h)) b

  apply-runners :
      (o : DurConnOption) (c c' : DurConfig)
      → apply o c ≡ ok c'
      → all_runners c' ≡ take_runner o (all_runners c)
  unfolding apply_option replace_runner
  apply-runners dc_opt_logger c c' h = rw (sym (ok_inj h)) refl
  apply-runners (dc_opt_runner none) c c' h = absurd (cc)
  apply-runners (dc_opt_runner (some r)) c c' h = rw (sym (ok_inj h)) refl
  apply-runners (dc_opt_subject_prefix p) c c' h = elim (Bool-cases (matches_prefix p)) [
    | inl q ↦ rw (sym (ok_inj (rw q at h))) refl
    | inr q ↦ absurd (let k = rw q at h in cc)
  ]
  apply-runners (dc_opt_context none) c c' h = absurd (cc)
  apply-runners (dc_opt_context (some ctx)) c c' h = rw (sym (ok_inj h)) refl
  apply-runners (dc_opt_reconnect_wait t) c c' h =
      checked-keeps (λ d. all_runners d ≡ all_runners c) 1 t _ _ c' h (λ q. refl)
  apply-runners (dc_opt_sub_retry_wait t) c c' h =
      checked-keeps (λ d. all_runners d ≡ all_runners c) 1 t _ _ c' h (λ q. refl)
  apply-runners (dc_opt_stan_ping_interval i) c c' h =
      checked-keeps (λ d. all_runners d ≡ all_runners c) 1 i _ _ c' h (λ q. refl)
  apply-runners (dc_opt_stan_ping_max_out i) c c' h =
      checked-keeps (λ d. all_runners d ≡ all_runners c) 2 i _ _ c' h (λ q. refl)
  apply-runners (dc_opt_stan_pub_ack_wait t) c c' h =
      checked-keeps (λ d. all_runners d ≡ all_runners c) 1 t _ _ c' h (λ q. refl)
  apply-runners dc_opt_connect_cb c c' h = rw (sym (ok_inj h)) refl
  apply-runners dc_opt_disconnect_cb c c' h = rw (sym (ok_inj h)) refl
  apply-runners dc_opt_subscribe_cb c c' h = rw (sym (ok_inj h)) refl

  close_on_error-Bounded :
      (r : Option Error × DurConfig)
      → Bounded r.1
      → Bounded (close_on_error fmt duration_string r).1
  unfolding close_on_error
  close_on_error-Bounded (none, c) b = b
  close_on_error-Bounded (some e, c) b = b

  module _ (background : Context) (interval max_out : ℤ) where
    abbrev start : ℕ → DurConfig
    start = default_config fmt duration_string background interval max_out

    start-Bounded :
        (runner : ℕ)
        → at_least 1 interval ≡ true
        → at_least 2 max_out ≡ true
        → Bounded (start runner)
    unfolding default_config matches_prefix
    start-Bounded runner i m = (refl, refl, refl, i, m, refl)

    -- What NewDurConn ends with, for the runners that it has taken: on success the last one is in use
    -- and the others are closed; on an error it is that of the first option that refuses what the
    -- options before it have made, and all runners that these have taken are closed.
    abbrev pub Settled : List DurConnOption → ℕ → Option Error → DurConfig → Type 0
    Settled opts runner none c = all_runners c ≡ fold_steps take_runner opts (runner ∷ [])
    Settled opts runner (some e) c =
        (before : List DurConnOption) × (o : DurConnOption) × (rest : List DurConnOption)
        × (made : DurConfig) × (opts ≡ before ++ o ∷ rest)
        × (apply_all apply before (start runner) ≡ (none, made))
        × (apply o made ≡ err e)
        × (c.runners.closed_runners ≡ fold_steps take_runner before (runner ∷ []))

    applied-runners :
        (runner : ℕ) (opts : List DurConnOption) (c : DurConfig)
        → apply_all apply opts (start runner) ≡ (none, c)
        → all_runners c ≡ fold_steps take_runner opts (runner ∷ [])
    unfolding default_config
    applied-runners runner opts c h =
        apply_all-fold apply all_runners take_runner apply-runners opts (start runner) c h

    close_on_error-Settled :
        (opts : List DurConnOption) (runner : ℕ) (r : Option Error × DurConfig)
        → apply_all apply opts (start runner) ≡ r
        → Settled opts runner
            (close_on_error fmt duration_string r).0
            (close_on_error fmt duration_string r).1
    unfolding close_on_error close_current
    close_on_error-Settled opts runner (none, c) h = applied-runners runner opts c h
    close_on_error-Settled opts runner (some e, c) h =
        let (before, o, rest, split, done, refused) =
          apply_all-stops apply opts (start runner) e c h in
        (before, o, rest, c, split, done, refused, applied-runners runner before c done)

    -- NewDurConn on a connection with a negative MaxReconnect, whatever the options are, if the default
    -- pings of stan are within the bounds of stan: the subject prefix matches its format, every
    -- wait is positive and the pings are within those bounds; and no task runner is lost: on
    -- success those that an option replaced are closed and the last one is in use; an error is that
    -- of the first option that refuses, and all that were taken before it are closed, the default
    -- one included.
    pub new_dur_config-Bounded :
        (runner : ℕ) (max_reconnect : ℤ) (opts : List DurConnOption)
        → at_least 0 max_reconnect ≡ false
        → at_least 1 interval ≡ true
        → at_least 2 max_out ≡ true
        → (e : Option Error) × (c : DurConfig) × (new_dur_config fmt duration_string background
              interval max_out runner max_reconnect opts
            ≡ (e, some c))
          × Bounded c
          × Settled opts runner e c
    unfolding new_dur_config
    new_dur_config-Bounded runner max_reconnect opts n i m =
        let looped : Option Error × DurConfig = apply_all apply opts (start runner) in
        let r : Option Error × DurConfig = close_on_error fmt duration_string looped in
        let b : Bounded looped.1 =
          apply_all-keeps apply Bounded apply-Bounded opts (start runner)
            (start-Bounded runner i m) in
        (
          r.0,
          r.1,
          rw n refl,
          close_on_error-Bounded looped b,
          close_on_error-Settled opts runner looped refl,
        )
