-- ===== src/Natsrpc/Options/Laws.antt =====
-- natsrpc/options.go: what NewServerConn makes of its options, and which task runners it closes.
use nproto.Prelude.{
  Text, true, false, ◌==◌, text_eq, list_beq_iff, Bool-cases, Option, none, some, List, [], ◌∷◌,
  ◌++◌, ℕ, ◌≡◌, ◌≢◌, inl, inr, refl, sym, arith,
}
use nproto.Prelude.Int.{ℤ}
use nproto.Go.{Error, Result, ok, err, ok_inj, Printer}
use nproto.Md.{Context}
use nproto.Names.{matches_prefix}
use nproto.Options.{
  at_least, replace_runner, close_current, apply_all, apply_all-keeps, apply_all-fold,
  apply_all-stops, fold_steps,
}
use nproto.Natsrpc.Server.Registry.{IsValid}
use nproto.Natsrpc.Options.{
  ServerConnOption, sc_opt_logger, sc_opt_runner, sc_opt_subject_prefix, sc_opt_group,
  sc_opt_context, ServerConfig, apply_server_option, close_on_error, default_server_config,
  new_server_conn, server_conn_of,
}

abbrev Good : ServerConfig → Type 0
Good c = (matches_prefix c.subject_prefix ≡ true) × (c.group ≢ [])

-- All the runners of a list of options before those there were, the latest first.
abbrev pub take_runner : ServerConnOption → List ℕ → List ℕ
take_runner (sc_opt_runner (some r)) rs = r ∷ rs
take_runner (sc_opt_runner none) rs = rs
take_runner sc_opt_logger rs = rs
take_runner (sc_opt_subject_prefix p) rs = rs
take_runner (sc_opt_group g) rs = rs
take_runner (sc_opt_context c) rs = rs

abbrev pub all_runners : ServerConfig → List ℕ
all_runners c = c.runners.current ∷ c.runners.closed_runners

module _ (fmt : Printer) (duration_string : ℤ → Text) where
  abbrev apply : ServerConnOption → ServerConfig → Result ServerConfig
  apply = apply_server_option fmt duration_string

  apply-Good : (o : ServerConnOption) (c c' : ServerConfig) → apply o c ≡ ok c' → Good c → Good c'
  unfolding apply_server_option
  apply-Good sc_opt_logger c c' h g = rw (sym (ok_inj h)) g
  apply-Good (sc_opt_runner none) c c' h g = absurd (cc)
  apply-Good (sc_opt_runner (some r)) c c' h g = rw (sym (ok_inj h)) g
  apply-Good (sc_opt_subject_prefix p) c c' h g = elim (Bool-cases (matches_prefix p)) [
    | inl q ↦ rw (sym (ok_inj (rw q at h))) (q, g.1)
    | inr q ↦ absurd (let k = rw q at h in cc)
  ]
  apply-Good (sc_opt_group s) c c' h g = elim (Bool-cases (s == [])) [
    | inl q ↦ absurd (let k = rw q at h in cc)
    | inr q ↦ rw (sym (ok_inj (rw q at h))) (g.0, ground (arith, q, list_beq_iff s []))
  ]
  apply-Good (sc_opt_context none) c c' h g = absurd (cc)
  apply-Good (sc_opt_context (some ctx)) c c' h g = rw (sym (ok_inj h)) g

  apply-runners :
      (o : ServerConnOption) (c c' : ServerConfig)
      → apply o c ≡ ok c'
      → all_runners c' ≡ take_runner o (all_runners c)
  unfolding apply_server_option replace_runner
  apply-runners sc_opt_logger c c' h = rw (sym (ok_inj h)) refl
  apply-runners (sc_opt_runner none) c c' h = absurd (cc)
  apply-runners (sc_opt_runner (some r)) c c' h = rw (sym (ok_inj h)) refl
  apply-runners (sc_opt_subject_prefix p) c c' h = elim (Bool-cases (matches_prefix p)) [
    | inl q ↦ rw (sym (ok_inj (rw q at h))) refl
    | inr q ↦ absurd (let k = rw q at h in cc)
  ]
  apply-runners (sc_opt_group s) c c' h = elim (Bool-cases (s == [])) [
    | inl q ↦ absurd (let k = rw q at h in cc)
    | inr q ↦ rw (sym (ok_inj (rw q at h))) refl
  ]
  apply-runners (sc_opt_context none) c c' h = absurd (cc)
  apply-runners (sc_opt_context (some ctx)) c c' h = rw (sym (ok_inj h)) refl

  abbrev start : Context → ℕ → ServerConfig
  start background runner = default_server_config fmt duration_string background runner

  -- What NewServerConn ends with, for the runners that it has taken: on success the last one is in
  -- use and the others are closed; on an error it is that of the first option that refuses what
  -- the options before it have made, and all runners that these have taken are closed.
  abbrev pub Settled : Context → List ServerConnOption → ℕ → Option Error → ServerConfig → Type 0
  Settled background opts runner none c = all_runners c ≡ fold_steps take_runner opts (runner ∷ [])
  Settled background opts runner (some e) c =
      (before : List ServerConnOption) × (o : ServerConnOption) × (rest : List ServerConnOption)
      × (made : ServerConfig) × (opts ≡ before ++ o ∷ rest)
      × (apply_all apply before (start background runner) ≡ (none, made))
      × (apply o made ≡ err e)
      × (c.runners.closed_runners ≡ fold_steps take_runner before (runner ∷ []))

  -- The runners of a loop that all options have passed.
  applied-runners :
      (background : Context) (runner : ℕ) (opts : List ServerConnOption) (c : ServerConfig)
      → apply_all apply opts (start background runner) ≡ (none, c)
      → all_runners c ≡ fold_steps take_runner opts (runner ∷ [])
  unfolding default_server_config
  applied-runners background runner opts c h =
      apply_all-fold apply all_runners take_runner apply-runners opts (start background runner) c h

  close_on_error-Settled :
      (background : Context) (opts : List ServerConnOption) (runner : ℕ)
      (r : Option Error × ServerConfig)
      → apply_all apply opts (start background runner) ≡ r
      → Settled background opts runner
          (close_on_error fmt duration_string r).0
          (close_on_error fmt duration_string r).1
  unfolding close_on_error close_current
  close_on_error-Settled background opts runner (none, c) h =
      applied-runners background runner opts c h
  close_on_error-Settled background opts runner (some e, c) h =
      let (before, o, rest, split, done, refused) =
        apply_all-stops apply opts (start background runner) e c h in
      (before, o, rest, c, split, done, refused, applied-runners background runner before c done)

  close_on_error-Good :
      (r : Option Error × ServerConfig) → Good r.1 → Good (close_on_error fmt duration_string r).1
  unfolding close_on_error
  close_on_error-Good (none, c) g = g
  close_on_error-Good (some e, c) g = g

  server_conn_of-IsValid : {W : Type 0} (c : ServerConfig) → IsValid (server_conn_of {W = W} c)
  unfolding server_conn_of
  server_conn_of-IsValid c = record { same_keys = refl; served = refl; fresh = tt; subjects = tt }

  default-Good :
      (background : Context) (runner : ℕ)
      → Good (default_server_config fmt duration_string background runner)
  unfolding default_server_config matches_prefix
  default-Good background runner = (refl, λ h. cc)

  -- NewServerConn on a connection with a negative MaxReconnect, whatever the options are: the subject
  -- prefix matches its format, the group is not empty, the registry is well formed, and no task
  -- runner is lost: on success those that an option replaced are closed and the last one is in
  -- use; an error is that of the first option that refuses, and all that were taken before it are
  -- closed, the default one included.
  pub new_server_conn-IsValid :
      {W : Type 0} (background : Context) (runner : ℕ) (max_reconnect : ℤ)
      (opts : List ServerConnOption)
      → at_least 0 max_reconnect ≡ false
      → (e : Option Error) × (c : ServerConfig) × (new_server_conn fmt duration_string background
            runner max_reconnect opts
          ≡ (e, some c))
        × (matches_prefix c.subject_prefix ≡ true)
        × (c.group ≢ [])
        × IsValid (server_conn_of {W = W} c)
        × Settled background opts runner e c
  unfolding new_server_conn
  new_server_conn-IsValid {W} background runner max_reconnect opts n =
      let start : ServerConfig = default_server_config fmt duration_string background runner in
      let looped : Option Error × ServerConfig = apply_all apply opts start in
      let r : Option Error × ServerConfig = close_on_error fmt duration_string looped in
      let g : Good looped.1 =
        apply_all-keeps apply Good apply-Good opts start (default-Good background runner) in
      let g' = close_on_error-Good looped g in
      (
        r.0,
        r.1,
        rw n refl,
        g'.0,
        g'.1,
        server_conn_of-IsValid r.1,
        close_on_error-Settled background opts runner looped refl,
      )
