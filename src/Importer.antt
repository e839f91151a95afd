-- ===== src/Importer.antt =====
-- introspector/aws/importer.py: the services of an import, one after another, within one session or as
-- tasks of the pool. `service_of` is the variable SVC of a module, for the modules whose service is a
-- RegionalService or a GlobalService itself; that of aws/organizations.py overrides both ways and is
-- the parameter `org`.
pub mod Regions
pub mod Gated
use introspector.Prelude.{
  ℕ, String, Bool, true, false, not, none, some, Option, List, [], ◌∷◌, ◌++◌, filter, any, str_eq,
  if◌then◌else◌,
}
use introspector.Prelude.Dict.{Dict}
use introspector.Outcome.{Outcome, ok, ◌>>=◌}
use introspector.Store.{Db}
use introspector.Store.Rows.{ImportJob, ProviderCredential}
use introspector.Paths.{PathStack, from_import_job}
use introspector.Spec.{ServiceSpec, ImportSpec, service_gate}
use introspector.Services.{RegionalImportFn, Service, fns_of}
use introspector.Services.Accounts.{Botocore}
use introspector.Services.Direct.{import_to_db, import_region_to_db}
use introspector.Services.Pool.{Task, import_region_with_pool, import_with_pool}
use introspector.Importer.Regions.{RegionCache, regions_for_service}

abbrev pub svc_modules : List String
svc_modules =
    "acm" ∷ "acm_pca" ∷ "apigateway" ∷ "apigatewayv2" ∷ "autoscaling" ∷ "cloudformation"
    ∷ "cloudfront" ∷ "cloudtrail" ∷ "cloudwatch" ∷ "config" ∷ "dynamodb" ∷ "ec2" ∷ "ecr" ∷ "ecs"
    ∷ "efs" ∷ "eks" ∷ "elasticbeanstalk" ∷ "elb" ∷ "elbv2" ∷ "es" ∷ "glacier" ∷ "iam" ∷ "kms"
    ∷ "lambdax" ∷ "logs" ∷ "organizations" ∷ "rds" ∷ "redshift" ∷ "route53" ∷ "s3"
    ∷ "secretsmanager" ∷ "ses" ∷ "sns" ∷ "sqs" ∷ "ssm" ∷ []

abbrev pub gov_skiplist : List String
gov_skiplist = "cloudfront" ∷ []

-- _modules
unfoldable pub modules : Bool → List String
modules is_gov_cloud =
    if is_gov_cloud
    then filter (λ svc. not (any (λ s. str_eq s svc) gov_skiplist)) svc_modules
    else svc_modules

-- A service, or that of the organization.
pub data ServiceModule (P O : Type 0) : Type 0 where
  service : Service P → ServiceModule P O
  organizations : (name : String) (org : O) → ServiceModule P O

unfoldable pub module_title : {P O : Type 0} → ServiceModule P O → String
module_title (service (Service.regional name fn)) = name
module_title (service (Service.global name fns)) = name
module_title (organizations name org) = name

-- The service's own way to be imported into the session.
abbrev pub DbImport : Type 0
DbImport = ℕ → ServiceSpec → Db → Outcome Db

module _ {S P : Type 0} (botocore : Botocore S) (service_proxy : S → String → Option String → P)
    (jobs : List ImportJob)
    (account_paths_for_import : ImportJob → Outcome (List (String × ProviderCredential)))
    (service_of : String → ServiceModule P DbImport) (import_job_id : ℕ) where
  -- The loop over the regions of a service.
  unfoldable pub import_regions :
      String → RegionalImportFn P → ServiceSpec → List String → Db → Outcome Db
  unfolding import_region_to_db
  import_regions name fn service_spec [] db = ok db
  import_regions name fn service_spec (region ∷ regions) db = do
    next ←
        import_region_to_db botocore service_proxy jobs account_paths_for_import name fn
          import_job_id region service_spec db
    import_regions name fn service_spec regions next

  unfoldable pub import_module :
      RegionCache
      → ServiceModule P DbImport
      → ServiceSpec
      → Dict Bool × Db
      → Outcome (Dict Bool × Db)
  unfolding regions_for_service import_regions import_to_db fns_of
  import_module regions (service (Service.regional name fn)) service_spec (cache, db) =
      let found = regions_for_service regions name cache in
      (do next ← import_regions name fn service_spec found.0 db; ok (found.1, next))
  import_module regions (service (Service.global name fns)) service_spec (cache, db) = do
    next ←
        import_to_db botocore service_proxy jobs account_paths_for_import name (fns_of fns)
          import_job_id service_spec db
    ok (cache, next)
  import_module regions (organizations name org) service_spec (cache, db) = do
    next ← org import_job_id service_spec db
    ok (cache, next)

  unfoldable pub import_modules :
      RegionCache → ImportSpec → List String → Dict Bool × Db → Outcome (Dict Bool × Db)
  unfolding service_gate module_title import_module
  import_modules regions spec [] state = ok state
  import_modules regions spec (module_name ∷ rest) state =
      elim (service_gate spec (module_title (service_of module_name))) [
        | none ↦ import_modules regions spec rest state
        | some service_spec ↦
            import_module regions (service_of module_name) service_spec state
            >>= import_modules regions spec rest
      ]

  unfoldable pub run_single_session :
      RegionCache → Bool → ImportSpec → Dict Bool × Db → Outcome (Dict Bool × Db)
  unfolding import_modules modules
  run_single_session regions is_gov_cloud spec state =
      import_modules regions spec (modules is_gov_cloud) state

-- A task of a service, or one that the organization makes of its name and its specification.
pub data Submitted (P T : Type 0) : Type 0 where
  task : Task P → Submitted P T
  org_task : (name : String) (service_spec : ServiceSpec) (t : T) → Submitted P T

unfoldable pub task_all : {P T : Type 0} → List (Task P) → List (Submitted P T)
task_all [] = []
task_all (t ∷ ts) = task t ∷ task_all ts

unfoldable pub org_all : {P T : Type 0} → String → ServiceSpec → List T → List (Submitted P T)
org_all name service_spec [] = []
org_all name service_spec (t ∷ ts) = org_task name service_spec t ∷ org_all name service_spec ts

module _ {P T : Type 0} (service_of : String → ServiceModule P (ℕ → ServiceSpec → List T))
    (accounts : List (String × ProviderCredential)) (job : ImportJob) where
  unfoldable pub submit_regions :
      String → RegionalImportFn P → ServiceSpec → List String → List (Submitted P T)
  unfolding import_region_with_pool from_import_job task_all
  submit_regions name fn service_spec [] = []
  submit_regions name fn service_spec (region ∷ regions) =
      task_all (
        import_region_with_pool job.id job.provider_account_id (from_import_job job) service_spec
          name fn region accounts)
      ++ submit_regions name fn service_spec regions

  unfoldable pub submit_module :
      RegionCache
      → ServiceModule P (ℕ → ServiceSpec → List T)
      → ServiceSpec
      → Dict Bool
      → List (Submitted P T) × Dict Bool
  unfolding regions_for_service submit_regions import_with_pool fns_of from_import_job task_all
      org_all
  submit_module regions (service (Service.regional name fn)) service_spec cache =
      let found = regions_for_service regions name cache in
      (submit_regions name fn service_spec found.0, found.1)
  submit_module regions (service (Service.global name fns)) service_spec cache = (
    task_all (
        import_with_pool job.id job.provider_account_id (from_import_job job) service_spec name
          (fns_of fns) accounts),
    cache,
  )
  submit_module regions (organizations name org) service_spec cache =
      (org_all name service_spec (org job.id service_spec), cache)

  unfoldable pub submit_modules :
      RegionCache → ImportSpec → List String → Dict Bool → List (Submitted P T) × Dict Bool
  unfolding service_gate module_title submit_module
  submit_modules regions spec [] cache = ([], cache)
  submit_modules regions spec (module_name ∷ rest) cache =
      elim (service_gate spec (module_title (service_of module_name))) [
        | none ↦ submit_modules regions spec rest cache
        | some service_spec ↦
            let here = submit_module regions (service_of module_name) service_spec cache in
            let later = submit_modules regions spec rest here.1 in (here.0 ++ later.0, later.1)
      ]

  -- The tasks that `run_parallel_session` submits, in their order.
  unfoldable pub parallel_tasks :
      RegionCache → Bool → ImportSpec → Dict Bool → List (Submitted P T) × Dict Bool
  unfolding submit_modules modules
  parallel_tasks regions is_gov_cloud spec cache =
      submit_modules regions spec (modules is_gov_cloud) cache
