-- ===== src/Account/Delete.antt =====
-- introspector/account.py: delete_account, which always fails.
use introspector.Prelude.{◌∙◌, sym, ◌≢◌, ℕ, ◌≡◌, refl, false, not, ◌&&◌, [], any}
use introspector.Account.{
  delete_account_resources, delete_delta_log, delete_imports, delete_provider_account,
  delete_account,
}
use introspector.Store.Filters.{any-filter}
use introspector.Outcome.{Outcome, ok, raise, undefined_column, ◌>>=◌, >>=-returns}
use introspector.Store.Rows.{ProviderAccount}
use introspector.Account.Sql.{joins_some, without, unless_referred, any-without}
use introspector.Account.Statements.{Session, delete_where, in_jobs, in_resources}
use introspector.Account.Imports.{
  refers_to_jobs, remove_mapped_uris, remove_raw_imports, remove_jobs, remove_credentials,
}
use introspector.Account.Logs.{without_log, delete_delta_log_lem}
use introspector.Account.Resources.{without_resources, delete_account_resources_lem}

module _ (p : ℕ) (s : Session) where
  -- No row refers to a deleted one: `_delete_imports` returns.
  delete_imports-returns :
      (next : Session → Outcome Session)
      → ((s' : Session) → next s' ≡ raise undefined_column)
      → any (in_jobs p (λ d. d.import_job_id) s.jobs) s.db.deltas.rows ≡ false
      → any (in_jobs p (λ d. d.import_job_id) s.jobs) s.db.relation_deltas.rows ≡ false
      → any
          (λ u.
            not (in_jobs p (λ u. u.import_job_id) s.jobs u)
            && joins_some
                (λ u. u.raw_import_id)
                (λ r. r.id)
                (in_jobs p (λ r. r.import_job_id) s.jobs)
                s.db.raw_imports.rows
                u)
          s.db.mapped_uris
        ≡ false
      → (delete_imports p s >>= next) ≡ raise undefined_column
  unfolding delete_imports remove_mapped_uris remove_raw_imports remove_jobs unless_referred
      delete_where refers_to_jobs without
  delete_imports-returns next always no_deltas no_relation_deltas inside =
      rw
        (
          any-filter
              (joins_some (λ u. u.raw_import_id) (λ r. r.id)
                (in_jobs p (λ r. r.import_job_id) s.jobs) s.db.raw_imports.rows)
              (λ u. not (in_jobs p (λ u. u.import_job_id) s.jobs u)) s.db.mapped_uris,
          inside,
          any-without (in_jobs p (λ r. r.import_job_id) s.jobs) s.db.raw_imports.rows,
          any-without (in_jobs p (λ u. u.import_job_id) s.jobs) s.db.mapped_uris,
          no_deltas,
          no_relation_deltas,
        )
        (always _)

delete_provider_account-raises :
    (refresh_views : ℕ → Session → Outcome Session) (p : ℕ) (s : Session)
    → (delete_provider_account p s >>= refresh_views p) ≡ raise undefined_column
unfolding delete_provider_account remove_credentials
delete_provider_account-raises refresh_views p s = refl

>>=-never :
    {A B : Type 0} (m : Outcome A) (next : A → Outcome B)
    → ((a : A) (b : B) → next a ≢ ok b)
    → (b : B) → (m >>= next) ≢ ok b
>>=-never m next never b returned = let (a, _, rest) = >>=-returns m next returned in never a b rest

module _ (refresh_views : ℕ → Session → Outcome Session) (account : ProviderAccount)
    (s : Session) where
  -- `delete_account` fails, since the statement for the credentials names a column that the table does
  -- not have. No foreign key is violated before it, provided that no relation of another account's
  -- resource leads to one of the account and that no mapped uri of another account's import comes from
  -- a raw import of the account.
  pub delete_account-raises :
      any
          (λ x.
            not (in_resources account.id (λ r. r.resource_id) s.db.resources.rows x)
            && in_resources account.id (λ r. r.target_id) s.db.resources.rows x)
          s.db.relations.rows
        ≡ false
      → any
          (λ u.
            not (in_jobs account.id (λ u. u.import_job_id) s.jobs u)
            && joins_some
                (λ u. u.raw_import_id)
                (λ r. r.id)
                (in_jobs account.id (λ r. r.import_job_id) s.jobs)
                s.db.raw_imports.rows
                u)
          s.db.mapped_uris
        ≡ false
      → delete_account refresh_views account s ≡ raise undefined_column
  unfolding delete_account
  delete_account-raises inside mapped_inside =
      let logs = without_log account.id (record s { report = [] }) in
      rw
        (
          delete_delta_log_lem account.id (record s { report = [] }),
          delete_account_resources_lem account.id logs (unfold without_log in inside),
        )
        (delete_imports-returns account.id (without_resources account.id logs) _
          (delete_provider_account-raises refresh_views account.id)
          (unfold without_resources without_log delete_where in
            any-without (in_jobs account.id (λ d. d.import_job_id) s.jobs) s.db.deltas.rows)
          (unfold without_resources without_log delete_where in
            any-without (in_jobs account.id (λ d. d.import_job_id) s.jobs)
              s.db.relation_deltas.rows)
          (unfold without_resources without_log in mapped_inside))

  -- `delete_account` returns on no database.
  pub delete_account_never : (s' : Session) → delete_account refresh_views account s ≢ ok s'
  unfolding delete_account
  delete_account_never = >>=-never (delete_delta_log account.id (record s { report = [] })) _ λ s1.
      >>=-never (delete_account_resources account.id s1) _ λ s2.
        >>=-never (delete_imports account.id s2) _ λ s3 s' returned.
          cc (sym (delete_provider_account-raises refresh_views account.id s3) ∙ returned)
