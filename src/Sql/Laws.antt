-- ===== src/Sql/Laws.antt =====
-- database/sql: what a function in a transaction leaves durable, by the answers that it got.
use nproto.Prelude.{◌≡◌, refl, ap, inl, inr, Option-cases, List, [], ◌∷◌, ◌++◌}
use nproto.Go.{Result, Result-cases, ok, err}
use nproto.Sql.{
  on_tx, Statement, Cell, Log, MySql, Answer, returned, failed, panicked, Db, ◌>>=◌, continue,
  of_result, lift, begin_tx, commit, exec, query, first_row, query_row, roll_back, in_tx, Effects,
  happen, effects,
}

-- A function that has returned ends as stated; another one has made nothing durable since `before`.
abbrev pub Ends {ℓ} :
    {A : Type ℓ} → List Statement → (A → Effects → Type 0) → Answer A × Log → Type 0
Ends before P (returned a, log) = P a (effects log)
Ends before P (failed e, log) = (effects log).durable ≡ before
Ends before P (panicked, log) = (effects log).durable ≡ before

-- Nothing durable since `before`, with these statements pending.
abbrev pub Pends : List Statement → List Statement → Effects → Type 0
Pends before stmts s = (s.durable ≡ before) × (s.pending ≡ stmts)

pub Ends-weaken {ℓ} :
    {A : Type ℓ} (before : List Statement) (P Q : A → Effects → Type 0) (r : Answer A × Log)
    → Ends before P r
    → ((a : A) (s : Effects) → P a s → Q a s)
    → Ends before Q r
Ends-weaken before P Q (returned a, log) h w = w a (effects log) h
Ends-weaken before P Q (failed e, log) h w = h
Ends-weaken before P Q (panicked, log) h w = h

module _ (before : List Statement) where
  continue-Ends {ℓ κ} :
      {A : Type ℓ} {B : Type κ} (P : A → Effects → Type 0) (Q : B → Effects → Type 0)
      (r : Answer A × Log) (f : A → Db B)
      → Ends before P r
      → ((a : A) (log : Log) → P a (effects log) → Ends before Q (f a log))
      → Ends before Q (continue r.0 f r.1)
  continue-Ends P Q (returned a, log) f h go = go a log h
  continue-Ends P Q (failed e, log) f h go = h
  continue-Ends P Q (panicked, log) f h go = h

  pub bind-Ends {ℓ κ} :
      {A : Type ℓ} {B : Type κ} (P : A → Effects → Type 0) (Q : B → Effects → Type 0) (m : Db A)
      (f : A → Db B) (log : Log)
      → Ends before P (m log)
      → ((a : A) (log : Log) → P a (effects log) → Ends before Q (f a log))
      → Ends before Q ((m >>= f) log)
  unfolding ◌>>=◌
  bind-Ends P Q m f log h go = continue-Ends P Q (m log) f h go

  pub lift-Ends {ℓ} :
      {A : Type ℓ} (P : A → Effects → Type 0) (r : Result A) (log : Log)
      → ((a : A) → r ≡ ok a → P a (effects log))
      → (effects log).durable ≡ before
      → Ends before P (lift r log)
  unfolding lift of_result
  lift-Ends P (ok a) log h k = h a refl
  lift-Ends P (err e) log h k = k

  module _ (db : MySql) (stmts : List Statement) (log : Log)
      (h : Pends before stmts (effects log)) where
    pub exec-Ends :
        (stmt : Statement)
        → Ends before (λ _. Pends before (stmts ++ stmt ∷ [])) (exec db on_tx stmt log)
    unfolding exec effects happen
    exec-Ends stmt = elim (Result-cases (db.exec_answer log on_tx stmt)) [
      | inl (id, e) ↦ rw (e, exec) (h.0, ap (λ l. l ++ stmt ∷ []) h.1)
      | inr (f, e) ↦ rw (e, exec) h.0
    ]

    query-Ends :
        (stmt : Statement) → Ends before (λ _. Pends before stmts) (query db on_tx stmt log)
    unfolding query effects happen
    query-Ends stmt = elim (Result-cases (db.rows_answer log on_tx stmt)) [
      | inl (id, e) ↦ rw (e, query) h
      | inr (f, e) ↦ rw (e, query) h.0
    ]

    pub commit-Ends : Ends before (λ _ s. s.durable ≡ before ++ stmts) (commit db log)
    unfolding commit effects happen
    commit-Ends = elim (Option-cases (db.commit_answer log)) [
      | inl e ↦ rw (e, commit) (rw (h.0, h.1) refl)
      | inr (f, e) ↦ rw (e, commit) h.0
    ]

  pub query_row-Ends {ℓ} :
      {A : Type ℓ} (db : MySql) (stmts : List Statement) (log : Log) (stmt : Statement)
      (scan : List Cell → Result A)
      → Pends before stmts (effects log)
      → Ends before (λ _. Pends before stmts) (query_row db on_tx stmt scan log)
  unfolding query_row
  query_row-Ends db stmts log stmt scan h =
      bind-Ends (λ _. Pends before stmts) (λ _. Pends before stmts) (query db on_tx stmt) _ log
        (query-Ends db stmts log h stmt)
        (λ rows log1 h1.
          bind-Ends (λ _. Pends before stmts) (λ _. Pends before stmts) (lift (first_row db rows)) _
            log1 (lift-Ends (λ _. Pends before stmts) (first_row db rows) log1 (λ a e. h1) h1.0)
            (λ row log2 h2. lift-Ends (λ _. Pends before stmts) (scan row) log2 (λ a e. h2) h2.0))

roll_back-Ends {ℓ} :
    {A : Type ℓ} (before : List Statement) (P : A → List Statement → Type 0) (r : Answer A × Log)
    → Ends before (λ a s. P a s.durable) r
    → Ends before (λ a s. P a s.durable) (roll_back r)
unfolding roll_back effects happen
roll_back-Ends before P (returned a, log) h = h
roll_back-Ends before P (failed e, log) h = h
roll_back-Ends before P (panicked, log) h = h

-- A body that starts with nothing pending ends in its transaction as it ends by itself, as far as
-- what is durable goes.
pub in_tx-Ends {ℓ} :
    {A : Type ℓ} (db : MySql) (P : A → List Statement → Type 0) (body : Db A) (log : Log)
    → ((log' : Log)
        → Pends (effects log).durable [] (effects log')
        → Ends (effects log).durable (λ a s. P a s.durable) (body log'))
    → Ends (effects log).durable (λ a s. P a s.durable) (in_tx db body log)
unfolding in_tx begin_tx ◌>>=◌ effects happen
in_tx-Ends db P body log h = elim (Option-cases (db.begin_answer log)) [
  | inl e ↦ rw (e, begin_tx) (roll_back-Ends (effects log).durable P (body _) (h _ (refl, refl)))
  | inr (f, e) ↦ rw (e, begin_tx) refl
]
