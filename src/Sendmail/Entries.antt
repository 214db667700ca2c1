-- ===== src/Sendmail/Entries.antt =====
-- examples/sendmail/server/main.go: what List answers.
use nproto.Prelude.{◌≡◌, ◌↔◌, inl, inr, refl, ◌∙◌, Option, none, some, List, [], ◌∷◌, map}
use nproto.Go.{Error, Result-cases, ok}
use nproto.Sql.{on_db, Cell, Rows, Log, MySql, returned, lift, of_result, query, ◌>>=◌}
use nproto.Sendmail.{EmailEntry, scan_email_entry}
use nproto.Sendmail.Service.{add_entry, collect_entries, select_email_entries, list, select_all}

module _ (db : MySql) where
  collect_entries_sound :
      (cells : List (List Cell)) (rows_err : Option Error) (entries : List EmailEntry)
      → collect_entries db cells rows_err ≡ ok entries
      → (rows_err ≡ none) × (map (scan_email_entry db) cells ≡ map ok entries)
  unfolding collect_entries add_entry
  collect_entries_sound [] none entries h = (refl, cc)
  collect_entries_sound [] (some e) entries h = absurd (cc)
  collect_entries_sound (c ∷ cs) rows_err entries h = elim (Result-cases (scan_email_entry db c)) [
    | inr (e, s) ↦ absurd (let k = rw (s, collect_entries) at h in cc)
    | inl (entry, s) ↦ elim (Result-cases (collect_entries db cs rows_err)) [
      | inr (e, r) ↦ absurd (let k = rw (s, r, collect_entries) at h in cc)
      | inl (rest, r) ↦
          let k = rw (s, r, collect_entries) at h in
          let (ended, scanned) = collect_entries_sound cs rows_err rest r in (ended, cc)
    ]
  ]

  collect_entries_complete :
      (cells : List (List Cell)) (entries : List EmailEntry)
      → map (scan_email_entry db) cells ≡ map ok entries
      → collect_entries db cells none ≡ ok entries
  unfolding collect_entries add_entry
  collect_entries_complete [] [] h = refl
  collect_entries_complete [] (x ∷ xs) h = absurd (cc)
  collect_entries_complete (c ∷ cs) [] h = absurd (cc)
  collect_entries_complete (c ∷ cs) (x ∷ xs) h =
      let first : scan_email_entry db c ≡ ok x = cc in
      let later : map (scan_email_entry db) cs ≡ map ok xs = cc in
      rw (first, collect_entries) (rw (collect_entries_complete cs xs later) refl)

  -- List returns entries exactly when each row of the answered query scans and Rows.Err is nil; they
  -- are the rows' entries in the rows' order. A connection that breaks while the rows are
  -- read is an error.
  pub list_iff :
      (log : Log) (rows : Rows) (entries : List EmailEntry)
      → (query db on_db select_all log).0 ≡ returned rows
      → ((list db log).0 ≡ returned entries)
        ↔ ((rows.rows_err ≡ none) × (map (scan_email_entry db) rows.cells ≡ map ok entries))
  unfolding list select_email_entries lift of_result ◌>>=◌
  list_iff log rows entries asked =
      rw asked (elim (Result-cases (collect_entries db rows.cells rows.rows_err)) [
        | inl (found, r) ↦ rw r (
          λ h. collect_entries_sound rows.cells rows.rows_err entries (r ∙ cc),
          λ (ended, scanned).
              let k = collect_entries_complete rows.cells entries scanned in
              let k' = rw ended at r in cc,
        )
        | inr (e, r) ↦ rw r (
          λ h. absurd (cc),
          λ (ended, scanned).
              let k = collect_entries_complete rows.cells entries scanned in
              let k' = rw ended at r in absurd (cc),
        )
      ])
