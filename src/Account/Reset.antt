-- ===== src/Account/Reset.antt =====
-- introspector/account.py: reset_account, against the session that it leaves, in one step.
use introspector.Prelude.{
  ◌==◌, ℕ, String, ◌≡◌, ◌∙◌, refl, true, false, not, ◌&&◌, [], map, any, arith, inl, inr,
  Option-cases,
}
use introspector.Outcome.{Outcome, ok}
use introspector.Store.Rows.{MappedUri}
use introspector.Account.{reset_imports, reset_account}
use introspector.Account.Sql.{
  joins_some, without, unless_referred, any-without, any-weaken, any-weaken_true,
}
use introspector.Account.Statements.{Session, delete_where, counted, in_jobs, in_resources}
use introspector.Account.Imports.{
  is_later, unmapped, reset_mapped_uris, reset_later_imports, reset_mapped,
}
use introspector.Account.Views.{QueryFolder, refresh_views, refresh_views-keeps}
use introspector.Account.Logs.{without_log, delete_delta_log_lem}
use introspector.Account.Resources.{without_resources, delete_account_resources_lem}

module _ (p : ℕ) (s : Session) where
  -- The session whose raw imports of the account are those of the first phase, to be mapped.
  unfoldable pub without_mapped : Session
  unfolding without counted
  without_mapped =
      let later = is_later p s.jobs in
      let test =
        joins_some (λ u. u.raw_import_id) (λ r. r.id) (in_jobs p (λ r. r.import_job_id) s.jobs)
          s.db.raw_imports.rows in
      record s {
        db = record s.db {
          mapped_uris = without test s.db.mapped_uris;
          raw_imports = record {
            rows = map (unmapped p s.jobs) (without later s.db.raw_imports.rows);
            next = s.db.raw_imports.next;
          };
        };
        report =
            counted "raw_import" (in_jobs p (λ x. x.import_job_id) s.jobs)
              (without later s.db.raw_imports.rows)
              (counted "import_job" later s.db.raw_imports.rows
                (counted "mapped_uri" test s.db.mapped_uris s.report));
      }

  is_later-joins_some :
      (u : MappedUri)
      → joins_some (λ u. u.raw_import_id) (λ r. r.id) (is_later p s.jobs) s.db.raw_imports.rows u
        ≡ true
      → joins_some
          (λ u. u.raw_import_id)
          (λ r. r.id)
          (in_jobs p (λ r. r.import_job_id) s.jobs)
          s.db.raw_imports.rows
          u
        ≡ true
  unfolding joins_some is_later
  is_later-joins_some u found = elim (Option-cases u.raw_import_id) [
    | inl null ↦ absurd (ground (arith, null))
    | inr (k, there) ↦ rw there (
        any-weaken_true (λ a. (a.id == k) && is_later p s.jobs a)
          (λ a. (a.id == k) && in_jobs p (λ r. r.import_job_id) s.jobs a) s.db.raw_imports.rows
          (λ a. ground arith) (rw there at found))
  ]

  reset_imports_lem : reset_imports p s ≡ ok without_mapped
  unfolding reset_imports without_mapped reset_mapped_uris reset_later_imports reset_mapped
      delete_where unless_referred
  reset_imports_lem =
      rw
        (any-weaken
          (joins_some (λ u. u.raw_import_id) (λ r. r.id) (is_later p s.jobs) s.db.raw_imports.rows)
          (joins_some (λ u. u.raw_import_id) (λ r. r.id) (in_jobs p (λ r. r.import_job_id) s.jobs)
            s.db.raw_imports.rows)
          (without
            (joins_some (λ u. u.raw_import_id) (λ r. r.id) (in_jobs p (λ r. r.import_job_id) s.jobs)
              s.db.raw_imports.rows)
            s.db.mapped_uris)
          is_later-joins_some
          (any-without
            (joins_some (λ u. u.raw_import_id) (λ r. r.id) (in_jobs p (λ r. r.import_job_id) s.jobs)
              s.db.raw_imports.rows)
            s.db.mapped_uris))
        refl

-- What `reset_account` makes of the tables.
unfoldable pub after_reset : ℕ → Session → Session
unfolding without_mapped without_resources without_log
after_reset p s = without_mapped p (without_resources p (without_log p (record s { report = [] })))

-- `reset_account` deletes the log, the resources with what belongs to them, and the later raw imports
-- of the account, and marks its raw imports of the first phase as not mapped, all as the tables stand at
-- the start, and then refreshes the views. The report has the number of the rows of each statement,
-- the deletion of the resources excepted: the number under `resource` is that of their raw documents.
-- No foreign key is violated, provided that no relation of another account's resource leads to one of
-- the account.
pub reset_account_lem :
    (refresh_views : ℕ → Session → Outcome Session) (p : ℕ) (s : Session)
    → any
        (λ x.
          not (in_resources p (λ r. r.resource_id) s.db.resources.rows x)
          && in_resources p (λ r. r.target_id) s.db.resources.rows x)
        s.db.relations.rows
      ≡ false
    → reset_account refresh_views p s ≡ refresh_views p (after_reset p s)
unfolding reset_account after_reset
reset_account_lem refresh_views p s inside =
    rw
      (
        delete_delta_log_lem p (record s { report = [] }),
        delete_account_resources_lem p (without_log p (record s { report = [] }))
            (unfold without_log in inside),
        reset_imports_lem p (without_resources p (without_log p (record s { report = [] }))),
      )
      refl

-- No relation of another account's resource leads to one of the account.
abbrev pub IsClosed : ℕ → Session → Type 0
IsClosed p s =
    any
      (λ x.
        not (in_resources p (λ r. r.resource_id) s.db.resources.rows x)
        && in_resources p (λ r. r.target_id) s.db.resources.rows x)
      s.db.relations.rows
    ≡ false

module _ (folder : QueryFolder) (execute : String → ℕ → Session → Outcome Session)
    (refreshes : (query : String) (p : ℕ) (s : Session)
      → (s' : Session) × (execute query p s ≡ ok s') × (s'.db ≡ s.db)) where
  -- If the queries of the views return and change no table, `reset_account` returns.
  pub reset_account-returns :
      (p : ℕ) (s : Session)
      → IsClosed p s
      → (s' : Session) × (reset_account (refresh_views folder execute) p s ≡ ok s')
        × (s'.db ≡ (after_reset p s).db)
  reset_account-returns p s inside =
      let (s', done, same) =
        refresh_views-keeps folder execute (λ s. s.db) refreshes p (after_reset p s) in
      (s', reset_account_lem (refresh_views folder execute) p s inside ∙ done, same)
