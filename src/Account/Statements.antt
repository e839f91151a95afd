-- ===== src/Account/Statements.antt =====
-- introspector/account.py: the statements, one function for each, with the line of the report after it.
use introspector.Prelude.{ℕ, Bool, ◌||◌, none, some, List, ◌==◌, filter, any, length, String}
use introspector.Prelude.Dict.{Dict, put, get}
use introspector.Outcome.{Outcome, ok}
use introspector.Store.{Db}
use introspector.Store.Tables.{Table}
use introspector.Store.Rows.{ImportJob, Resource, ProviderAccount, ProviderCredential}
use introspector.Account.Sql.{joins, without, unless_referred}

pub record Session : Type 0 where
  pub db : Db
  pub jobs : List ImportJob
  pub accounts : List ProviderAccount
  pub credentials : List ProviderCredential
  pub report : Dict ℕ

-- A table without the rows that a test selects.
unfoldable pub delete_where : {A : Type 0} → (A → Bool) → Table A → Table A
unfolding without
delete_where test t = record t { rows = without test t.rows }

-- report[name] = result.rowcount, the number of rows that the test selects
unfoldable pub counted : {A : Type 0} → String → (A → Bool) → List A → Dict ℕ → Dict ℕ
unfolding put
counted name test rows report = put name (length (filter test rows)) report

-- report[name] = result.rowcount, where `result` is still that of the line for another table
unfoldable pub repeat_count : String → String → Dict ℕ → Dict ℕ
unfolding put get
repeat_count name other report = elim (get other report) [
  | none ↦ report
  | some n ↦ put name n report
]

module _ (p : ℕ) where
  unfoldable pub in_jobs : {B : Type 0} → (B → ℕ) → List ImportJob → B → Bool
  unfolding joins
  in_jobs key jobs = joins key (λ j. j.id) (λ j. j.provider_account_id == p) jobs

  unfoldable pub in_resources : {B : Type 0} → (B → ℕ) → List Resource → B → Bool
  unfolding joins
  in_resources key rows = joins key (λ r. r.id) (λ r. r.provider_account_id == p) rows

  unfoldable pub of_relation_deltas : {B : Type 0} → (B → ℕ) → Session → B → Bool
  unfolding joins in_jobs
  of_relation_deltas key s =
      joins key (λ d. d.id) (in_jobs (λ d. d.import_job_id) s.jobs) s.db.relation_deltas.rows

  unfoldable pub of_resource_deltas : {B : Type 0} → (B → ℕ) → Session → B → Bool
  unfolding joins in_jobs
  of_resource_deltas key s =
      joins key (λ d. d.id) (in_jobs (λ d. d.import_job_id) s.jobs) s.db.deltas.rows

  unfoldable pub of_relations : {B : Type 0} → (B → ℕ) → Session → B → Bool
  unfolding joins in_resources
  of_relations key s =
      joins key (λ r. r.id) (in_resources (λ r. r.resource_id) s.db.resources.rows)
        s.db.relations.rows

  unfoldable pub remove_relation_attribute_deltas : Session → Outcome Session
  unfolding of_relation_deltas delete_where counted
  remove_relation_attribute_deltas s =
      let test = of_relation_deltas (λ d. d.resource_relation_delta_id) s in
      ok (record s {
        db = record s.db {
          relation_attribute_deltas = delete_where test s.db.relation_attribute_deltas;
        };
        report =
            counted "resource_relation_attribute_delta" test s.db.relation_attribute_deltas.rows
              s.report;
      })

  unfoldable pub remove_relation_deltas : Session → Outcome Session
  unfolding in_jobs delete_where counted unless_referred joins
  remove_relation_deltas s =
      let test = in_jobs (λ d. d.import_job_id) s.jobs in
      unless_referred
        (any (joins (λ x. x.resource_relation_delta_id) (λ a. a.id) test s.db.relation_deltas.rows)
          s.db.relation_attribute_deltas.rows)
        (record s {
          db = record s.db { relation_deltas = delete_where test s.db.relation_deltas };
          report = counted "resource_relation_delta" test s.db.relation_deltas.rows s.report;
        })

  unfoldable pub remove_attribute_deltas : Session → Outcome Session
  unfolding of_resource_deltas delete_where counted
  remove_attribute_deltas s =
      let test = of_resource_deltas (λ d. d.resource_delta_id) s in
      ok (record s {
        db = record s.db { attribute_deltas = delete_where test s.db.attribute_deltas };
        report = counted "resource_attribute_delta" test s.db.attribute_deltas.rows s.report;
      })

  unfoldable pub remove_resource_deltas : Session → Outcome Session
  unfolding in_jobs delete_where counted unless_referred joins
  remove_resource_deltas s =
      let test = in_jobs (λ d. d.import_job_id) s.jobs in
      unless_referred
        (any (joins (λ x. x.resource_delta_id) (λ a. a.id) test s.db.deltas.rows)
          s.db.attribute_deltas.rows)
        (record s {
          db = record s.db { deltas = delete_where test s.db.deltas };
          report = counted "resource_delta" test s.db.deltas.rows s.report;
        })

  unfoldable pub remove_relation_attributes : Session → Outcome Session
  unfolding of_relations delete_where counted
  remove_relation_attributes s =
      let test = of_relations (λ a. a.relation_id) s in
      ok (record s {
        db = record s.db { relation_attributes = delete_where test s.db.relation_attributes };
        report = counted "resource_relation_attribute" test s.db.relation_attributes.rows s.report;
      })

  unfoldable pub remove_relations : Session → Outcome Session
  unfolding in_resources delete_where counted unless_referred joins
  remove_relations s =
      let test = in_resources (λ r. r.resource_id) s.db.resources.rows in
      unless_referred
        (any (joins (λ x. x.relation_id) (λ a. a.id) test s.db.relations.rows)
          s.db.relation_attributes.rows)
        (record s {
          db = record s.db { relations = delete_where test s.db.relations };
          report = counted "resource_relation" test s.db.relations.rows s.report;
        })

  unfoldable pub remove_attributes : Session → Outcome Session
  unfolding in_resources delete_where counted
  remove_attributes s =
      let test = in_resources (λ a. a.resource_id) s.db.resources.rows in
      ok (record s {
        db = record s.db { attributes = delete_where test s.db.attributes };
        report = counted "resource_attribute" test s.db.attributes.rows s.report;
      })

  unfoldable pub remove_raws : Session → Outcome Session
  unfolding in_resources delete_where counted
  remove_raws s =
      let test = in_resources (λ w. w.resource_id) s.db.resources.rows in
      ok (record s {
        db = record s.db { raws = delete_where test s.db.raws };
        report = counted "resource_raw" test s.db.raws.rows s.report;
      })

  -- Rows that refer to a resource of the account.
  unfoldable pub refers_to_resources : Session → Bool
  unfolding in_resources
  refers_to_resources s =
      any (in_resources (λ x. x.resource_id) s.db.resources.rows) s.db.relations.rows
      || (any (in_resources (λ x. x.target_id) s.db.resources.rows) s.db.relations.rows
          || (any (in_resources (λ x. x.resource_id) s.db.resources.rows) s.db.attributes.rows
              || any (in_resources (λ x. x.resource_id) s.db.resources.rows) s.db.raws.rows))

  -- The count of this DELETE is not read: `result` is still that of the one before.
  unfoldable pub remove_resources : Session → Outcome Session
  unfolding refers_to_resources unless_referred delete_where put get
  remove_resources s =
      let test : Resource → Bool = λ r. r.provider_account_id == p in
      unless_referred (refers_to_resources s) (record s {
        db = record s.db { resources = delete_where test s.db.resources };
        report = repeat_count "resource" "resource_raw" s.report;
      })
