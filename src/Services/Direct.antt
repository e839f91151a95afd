-- ===== src/Services/Direct.antt =====
-- introspector/aws/svc.py: the import of a service within one session of the database.
use introspector.Prelude.{ℕ, String, none, some, Option, List, [], ◌∷◌}
use introspector.Outcome.{Outcome, ok, raise, gf_internal, ◌>>=◌}
use introspector.Store.{Db}
use introspector.Store.Tables.{by_id}
use introspector.Store.Rows.{ImportJob, ProviderCredential}
use introspector.Writer.{ImportWriter, db_import_writer}
use introspector.Paths.{PathStack, scope, from_import_job}
use introspector.Spec.{ServiceSpec}
use introspector.Services.{RegionalImportFn, GlobalResourceSpec, call_spec, call_region}
use introspector.Services.Accounts.{Botocore, load_boto_session}

-- db.query(ImportJob).get(import_job_id)
unfoldable pub require_job : List ImportJob → ℕ → Outcome ImportJob
unfolding by_id
require_job jobs i = elim (by_id (λ j. j.id) i jobs) [
  | none ↦ raise gf_internal
  | some job ↦ ok job
]

unfoldable pub job_writer : ImportJob → String → ImportWriter
unfolding db_import_writer
job_writer job svc_name = db_import_writer job.id job.provider_account_id svc_name 0 "base"

module _ {S P : Type 0} (botocore : Botocore S)
    (service_proxy : S → String → Option String → P) where
  unfoldable pub call_specs :
      List (GlobalResourceSpec P)
      → P
      → ImportWriter
      → String
      → PathStack
      → ServiceSpec
      → Db
      → Outcome Db
  unfolding call_spec
  call_specs [] proxy writer account_id ps service_spec db = ok db
  call_specs (fn ∷ fns) proxy writer account_id ps service_spec db = do
    next ← call_spec fn proxy writer account_id ps service_spec db
    call_specs fns proxy writer account_id ps service_spec next

  module _ (job : ImportJob) (svc_name : String) (service_spec : ServiceSpec) where
    unfoldable pub import_accounts :
        List (GlobalResourceSpec P) → List (String × ProviderCredential) → Db → Outcome Db
    unfolding load_boto_session call_specs job_writer from_import_job
    import_accounts resource_fns [] db = ok db
    import_accounts resource_fns ((path, account) ∷ accounts) db = do
      boto ← load_boto_session botocore account
      next ←
          call_specs resource_fns (service_proxy boto svc_name none) (job_writer job svc_name)
            account.scope (from_import_job job) service_spec db
      import_accounts resource_fns accounts next

    unfoldable pub import_region_accounts :
        RegionalImportFn P → String → List (String × ProviderCredential) → Db → Outcome Db
    unfolding load_boto_session call_region job_writer from_import_job scope
    import_region_accounts fn region [] db = ok db
    import_region_accounts fn region ((path, account) ∷ accounts) db = do
      boto ← load_boto_session botocore account
      next ←
          call_region fn (service_proxy boto svc_name (some region)) (job_writer job svc_name)
            region (scope region (scope account.scope (from_import_job job))) service_spec db
      import_region_accounts fn region accounts next

  module _ (jobs : List ImportJob)
      (account_paths_for_import : ImportJob → Outcome (List (String × ProviderCredential))) where
    -- GlobalService._make_global_import_to_db
    unfoldable pub import_to_db :
        String → List (GlobalResourceSpec P) → ℕ → ServiceSpec → Db → Outcome Db
    unfolding require_job import_accounts
    import_to_db svc_name resource_fns import_job_id service_spec db = do
      job ← require_job jobs import_job_id
      accounts ← account_paths_for_import job
      import_accounts job svc_name service_spec resource_fns accounts db

    -- make_import_to_db
    unfoldable pub import_region_to_db :
        String → RegionalImportFn P → ℕ → String → ServiceSpec → Db → Outcome Db
    unfolding require_job import_region_accounts
    import_region_to_db svc_name fn import_job_id region service_spec db = do
      job ← require_job jobs import_job_id
      accounts ← account_paths_for_import job
      import_region_accounts job svc_name service_spec fn region accounts db
