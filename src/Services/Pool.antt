-- ===== src/Services/Pool.antt =====
-- introspector/aws/svc.py: the tasks that a service submits to the pool, and what a worker makes of
-- them. A task has a session of its own: it commits what it has written, or fails and leaves nothing.
use introspector.Prelude.{ℕ, String, none, some, Option, List, [], ◌∷◌, ◌++◌, map}
use introspector.Prelude.Dict.{Dict}
use introspector.Value.{Value}
use introspector.Outcome.{Outcome, ok, raise, Exception, ◌>>=◌}
use introspector.Store.{Db}
use introspector.Store.Rows.{ProviderCredential}
use introspector.Writer.{db_import_writer}
use introspector.Paths.{PathStack, scope}
use introspector.Spec.{ServiceSpec}
use introspector.Services.{RegionalImportFn, GlobalResourceSpec, call_spec, call_region}
use introspector.Services.Accounts.{Botocore, load_boto_session_from_config}

-- The arguments of `_async_proxy` and `_global_async_proxy`.
pub record TaskArgs : Type 0 where
  pub ps : PathStack
  pub import_job_id : ℕ
  pub provider_account_id : ℕ
  pub config : Dict Value
  pub svc_name : String
  pub service_spec : ServiceSpec

module _ (P : Type 0) where
  pub data Task : Type 0 where
    region_task : (args : TaskArgs) (region : String) (fn : RegionalImportFn P) → Task
    global_task : (args : TaskArgs) (account_id : String) (fn : GlobalResourceSpec P) → Task

module _ {S P : Type 0} (botocore : Botocore S)
    (service_proxy : S → String → Option String → P) where
  unfoldable pub async_proxy : TaskArgs → String → RegionalImportFn P → Db → Outcome Db
  unfolding load_boto_session_from_config db_import_writer scope call_region
  async_proxy args region fn db = do
    boto ← load_boto_session_from_config botocore args.config
    call_region fn (service_proxy boto args.svc_name (some region))
        (db_import_writer args.import_job_id args.provider_account_id args.svc_name 0 "base") region
        (scope region args.ps) args.service_spec db

  unfoldable pub global_async_proxy : TaskArgs → String → GlobalResourceSpec P → Db → Outcome Db
  unfolding load_boto_session_from_config db_import_writer call_spec
  global_async_proxy args account_id fn db = do
    boto ← load_boto_session_from_config botocore args.config
    call_spec fn (service_proxy boto args.svc_name none)
        (db_import_writer args.import_job_id args.provider_account_id args.svc_name 0 "base")
        account_id args.ps args.service_spec db

  unfoldable pub run_task : Task P → Db → Outcome Db
  unfolding async_proxy global_async_proxy
  run_task (Task.region_task args region fn) db = async_proxy args region fn db
  run_task (Task.global_task args account_id fn) db = global_async_proxy args account_id fn db

  -- The tasks in the order in which they commit, with the exceptions of those that fail, in that order. A
  -- task that fails rolls back.
  unfoldable pub run_pool : List (Task P) → Db → Db × List Exception
  unfolding run_task
  run_pool [] db = (db, [])
  run_pool (t ∷ ts) db = elim (run_task t db) [
    | raise e ↦ let rest = run_pool ts db in (rest.0, e ∷ rest.1)
    | ok next ↦ run_pool ts next
  ]

module _ (import_job_id provider_account_id : ℕ) (ps : PathStack) (service_spec : ServiceSpec) where
  unfoldable pub task_args : String → ProviderCredential → TaskArgs
  unfolding scope
  task_args svc_name account = record {
    ps = scope account.scope ps;
    import_job_id = import_job_id;
    provider_account_id = provider_account_id;
    config = account.config;
    svc_name = svc_name;
    service_spec = service_spec;
  }

  -- make_import_with_pool
  unfoldable pub import_region_with_pool :
      {P : Type 0}
      → String
      → RegionalImportFn P
      → String
      → List (String × ProviderCredential)
      → List (Task P)
  unfolding task_args
  import_region_with_pool svc_name fn region [] = []
  import_region_with_pool svc_name fn region ((path, account) ∷ accounts) =
      Task.region_task (task_args svc_name account) region fn
      ∷ import_region_with_pool svc_name fn region accounts

  -- GlobalService._make_global_import_with_pool
  unfoldable pub import_with_pool :
      {P : Type 0}
      → String
      → List (GlobalResourceSpec P)
      → List (String × ProviderCredential)
      → List (Task P)
  unfolding task_args
  import_with_pool svc_name resource_fns [] = []
  import_with_pool svc_name resource_fns ((path, account) ∷ accounts) =
      map (Task.global_task (task_args svc_name account) account.scope) resource_fns
      ++ import_with_pool svc_name resource_fns accounts
