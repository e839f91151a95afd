-- ===== src/Account/Imports.antt =====
-- introspector/account.py: the statements for the import jobs, the raw imports and the account itself.
use introspector.Prelude.{ℕ, Bool, false, ◌&&◌, ◌||◌, List, map, ◌==◌, ltb, any, if◌then◌else◌}
use introspector.Outcome.{Outcome, ok, raise, undefined_column}
use introspector.Store.Rows.{ImportJob, RawImport, ProviderAccount}
use introspector.Account.Sql.{joins, joins_some, without, unless_referred}
use introspector.Account.Statements.{Session, delete_where, counted, in_jobs}

module _ (p : ℕ) where
  unfoldable pub remove_mapped_uris : Session → Outcome Session
  unfolding in_jobs without counted
  remove_mapped_uris s =
      let test = in_jobs p (λ u. u.import_job_id) s.jobs in
      ok (record s {
        db = record s.db { mapped_uris = without test s.db.mapped_uris };
        report = counted "mapped_uri" test s.db.mapped_uris s.report;
      })

  unfoldable pub remove_raw_imports : Session → Outcome Session
  unfolding in_jobs joins_some delete_where counted unless_referred joins
  remove_raw_imports s =
      let test = in_jobs p (λ r. r.import_job_id) s.jobs in
      unless_referred
        (any (joins_some (λ u. u.raw_import_id) (λ r. r.id) test s.db.raw_imports.rows)
          s.db.mapped_uris)
        (record s {
          db = record s.db { raw_imports = delete_where test s.db.raw_imports };
          report = counted "raw_import" test s.db.raw_imports.rows s.report;
        })

  -- Rows that refer to an import job of the account.
  unfoldable pub refers_to_jobs : Session → Bool
  unfolding in_jobs
  refers_to_jobs s =
      any (in_jobs p (λ x. x.import_job_id) s.jobs) s.db.raw_imports.rows
      || (any (in_jobs p (λ x. x.import_job_id) s.jobs) s.db.mapped_uris
          || (any (in_jobs p (λ x. x.import_job_id) s.jobs) s.db.deltas.rows
              || any (in_jobs p (λ x. x.import_job_id) s.jobs) s.db.relation_deltas.rows))

  unfoldable pub remove_jobs : Session → Outcome Session
  unfolding refers_to_jobs unless_referred without counted
  remove_jobs s =
      let test : ImportJob → Bool = λ j. j.provider_account_id == p in
      unless_referred (refers_to_jobs s) (record s {
        jobs = without test s.jobs;
        report = counted "import_job" test s.jobs s.report;
      })

  -- The condition names a column provider_id, which the table does not have.
  unfoldable pub remove_credentials : Session → Outcome Session
  remove_credentials s = raise undefined_column

  -- Rows that refer to the account.
  unfoldable pub refers_to_account : Session → Bool
  refers_to_account s =
      any (λ r. r.provider_account_id == p) s.db.resources.rows
      || (any (λ r. r.provider_account_id == p) s.db.raws.rows
          || (any (λ r. r.provider_account_id == p) s.db.attributes.rows
              || (any (λ r. r.provider_account_id == p) s.db.deltas.rows
                  || (any (λ r. r.provider_account_id == p) s.db.attribute_deltas.rows
                      || (any (λ r. r.provider_account_id == p) s.db.relations.rows
                          || (any (λ r. r.provider_account_id == p) s.db.relation_attributes.rows
                              || (any (λ r. r.provider_account_id == p) s.db.relation_deltas.rows
                                  || (any (λ r. r.provider_account_id == p)
                                        s.db.relation_attribute_deltas.rows
                                      || (any (λ r. r.provider_account_id == p)
                                            s.db.raw_imports.rows
                                          || (any (λ r. r.provider_account_id == p) s.db.mapped_uris
                                              || (any (λ r. r.provider_account_id == p) s.jobs
                                                  || any (λ r. r.provider_id == p)
                                                      s.credentials)))))))))))

  unfoldable pub remove_account_row : Session → Outcome Session
  unfolding refers_to_account unless_referred without counted
  remove_account_row s =
      let test : ProviderAccount → Bool = λ a. a.id == p in
      unless_referred (refers_to_account s) (record s {
        accounts = without test s.accounts;
        report = counted "provider_account" test s.accounts s.report;
      })

  unfoldable pub reset_mapped_uris : Session → Outcome Session
  unfolding in_jobs joins_some without counted
  reset_mapped_uris s =
      let test =
        joins_some (λ u. u.raw_import_id) (λ r. r.id) (in_jobs p (λ r. r.import_job_id) s.jobs)
          s.db.raw_imports.rows in
      ok (record s {
        db = record s.db { mapped_uris = without test s.db.mapped_uris };
        report = counted "mapped_uri" test s.db.mapped_uris s.report;
      })

  -- phase > 0
  unfoldable pub is_later : List ImportJob → RawImport → Bool
  unfolding in_jobs
  is_later jobs r = ltb 0 r.phase && in_jobs p (λ x. x.import_job_id) jobs r

  unfoldable pub reset_later_imports : Session → Outcome Session
  unfolding is_later joins_some unless_referred delete_where counted
  reset_later_imports s =
      let test = is_later s.jobs in
      unless_referred
        (any (joins_some (λ u. u.raw_import_id) (λ r. r.id) test s.db.raw_imports.rows)
          s.db.mapped_uris)
        (record s {
          db = record s.db { raw_imports = delete_where test s.db.raw_imports };
          report = counted "import_job" test s.db.raw_imports.rows s.report;
        })

  unfoldable pub unmapped : List ImportJob → RawImport → RawImport
  unfolding in_jobs
  unmapped jobs r =
      if in_jobs p (λ x. x.import_job_id) jobs r then record r { mapped = false } else r

  unfoldable pub reset_mapped : Session → Outcome Session
  unfolding in_jobs unmapped counted
  reset_mapped s = ok (record s {
    db = record s.db {
      raw_imports = record s.db.raw_imports { rows = map (unmapped s.jobs) s.db.raw_imports.rows };
    };
    report =
        counted "raw_import" (in_jobs p (λ x. x.import_job_id) s.jobs) s.db.raw_imports.rows
          s.report;
  })
