-- ===== src/Account/Logs.antt =====
-- introspector/account.py: the statements of each part, one after another, against the rows that they
-- take out of the tables as they stand at the start.
use introspector.Prelude.{ℕ, ◌≡◌, refl}
use introspector.Outcome.{ok}
use introspector.Account.{delete_delta_log}
use introspector.Account.Sql.{joins, unless_referred, any-without}
use introspector.Account.Statements.{
  Session, delete_where, counted, in_jobs, of_relation_deltas, of_resource_deltas,
  remove_relation_attribute_deltas, remove_relation_deltas, remove_attribute_deltas,
  remove_resource_deltas,
}

module _ (p : ℕ) (s : Session) where
  -- The session without the log of the account, in one step.
  unfoldable pub without_log : Session
  unfolding delete_where counted
  without_log = record s {
    db = record s.db {
      relation_attribute_deltas =
          delete_where (of_relation_deltas p (λ d. d.resource_relation_delta_id) s)
            s.db.relation_attribute_deltas;
      relation_deltas = delete_where (in_jobs p (λ d. d.import_job_id) s.jobs) s.db.relation_deltas;
      attribute_deltas =
          delete_where (of_resource_deltas p (λ d. d.resource_delta_id) s) s.db.attribute_deltas;
      deltas = delete_where (in_jobs p (λ d. d.import_job_id) s.jobs) s.db.deltas;
    };
    report = counted "resource_delta" (in_jobs p (λ d. d.import_job_id) s.jobs) s.db.deltas.rows (
        counted "resource_attribute_delta" (of_resource_deltas p (λ d. d.resource_delta_id) s)
          s.db.attribute_deltas.rows
          (counted "resource_relation_delta" (in_jobs p (λ d. d.import_job_id) s.jobs)
            s.db.relation_deltas.rows
            (counted "resource_relation_attribute_delta"
              (of_relation_deltas p (λ d. d.resource_relation_delta_id) s)
              s.db.relation_attribute_deltas.rows s.report)));
  }

  pub delete_delta_log_lem : delete_delta_log p s ≡ ok without_log
  unfolding delete_delta_log without_log remove_relation_attribute_deltas remove_relation_deltas
      remove_attribute_deltas remove_resource_deltas delete_where of_relation_deltas
      of_resource_deltas unless_referred
  delete_delta_log_lem =
      rw
        (
          any-without
              (joins (λ d. d.resource_relation_delta_id) (λ d. d.id)
                (in_jobs p (λ d. d.import_job_id) s.jobs) s.db.relation_deltas.rows)
              s.db.relation_attribute_deltas.rows,
          any-without
              (joins (λ d. d.resource_delta_id) (λ d. d.id)
                (in_jobs p (λ d. d.import_job_id) s.jobs) s.db.deltas.rows)
              s.db.attribute_deltas.rows,
        )
        refl
