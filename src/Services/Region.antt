-- ===== src/Services/Region.antt =====
-- introspector/aws/svc.py: what the pool leaves of the import of a region, in whatever order its tasks
-- commit, written out.
use introspector.Prelude.{
  String, ◌<>◌, false, some, Option, List, [], ◌∷◌, ◌++◌, map, ◌≡◌, refl, ◌∙◌, ap, inl, inr,
}
use introspector.Value.{Value, str}
use introspector.Outcome.{Outcome, Outcome-cases, Exception, ok, raise, ◌>>=◌}
use introspector.Store.{Db}
use introspector.Store.Rows.{ImportJob, ProviderCredential, RawImport}
use introspector.Paths.{scope, path, from_import_job}
use introspector.Prelude.Text.{join}
use introspector.Writer.{db_import_writer, raw_import_row}
use introspector.Spec.{ServiceSpec}
use introspector.Services.{RegionalImportFn, Responses}
use introspector.Services.Accounts.{Botocore, load_boto_session_from_config}
use introspector.Services.Pool.{Task, run_pool, import_region_with_pool, task_args}
use introspector.Services.Order.{
  forget_id, gather, fetched, fetched_row, task_rows, task_exceptions, run_pool-Perm, run_pool_lem,
}
use mathlib.Core.List.{Permᴰ}
use mathlib.Core.Path.{subst}

-- The raw import of a response for a region of an account, without its id.
abbrev pub region_row :
    ImportJob → String → String → ProviderCredential → String × Value → RawImport
region_row job svc_name region cred (resource_name, raw) = record {
  id = 0;
  import_job_id = job.id;
  provider_account_id = job.provider_account_id;
  source = "base";
  service = svc_name;
  path = job.path_prefix <> ("$" <> (cred.scope <> ("$" <> region)));
  resource_name = resource_name;
  raw = raw;
  context = some (("region", str region) ∷ []);
  phase = 0;
  mapped = false;
}

module _ {S P : Type 0} (botocore : Botocore S) (service_proxy : S → String → Option String → P)
    (job : ImportJob) (svc_name : String) (service_spec : ServiceSpec) (fn : RegionalImportFn P)
    (region : String) where
  -- What the service answers with the credential of an account.
  abbrev pub answer : ProviderCredential → Outcome Responses
  answer cred = load_boto_session_from_config botocore cred.config >>= λ boto.
      fn (service_proxy boto svc_name (some region)) region service_spec

  abbrev pub answer_rows : String × ProviderCredential → List RawImport
  answer_rows (p, cred) = elim (answer cred) [
    | raise e ↦ []
    | ok found ↦ map (region_row job svc_name region cred) found
  ]

  abbrev pub answer_exceptions : String × ProviderCredential → List Exception
  answer_exceptions (p, cred) = elim (answer cred) [ raise e ↦ e ∷ [] | ok found ↦ [] ]

  abbrev pub region_task_of : ProviderCredential → Task P
  region_task_of cred =
      Task.region_task
        (task_args job.id job.provider_account_id (from_import_job job) service_spec svc_name cred)
        region fn

  pub region_rows_lem :
      (cred : ProviderCredential) (found : Responses)
      → map
          (fetched_row (record {
            writer = db_import_writer job.id job.provider_account_id svc_name 0 "base";
            ps = scope region (scope cred.scope (from_import_job job));
            context = some (("region", str region) ∷ []);
            responses = found;
          }))
          found
        ≡ map (region_row job svc_name region cred) found
  unfolding fetched_row raw_import_row db_import_writer path join scope from_import_job
  region_rows_lem cred found = refl

  pub task_rows_lem :
      (p : String) (cred : ProviderCredential)
      → (task_rows botocore service_proxy (region_task_of cred) ≡ answer_rows (p, cred))
        × (task_exceptions botocore service_proxy (region_task_of cred)
            ≡ answer_exceptions (p, cred))
  unfolding task_rows task_exceptions fetched task_args
  task_rows_lem p cred = elim (Outcome-cases (load_boto_session_from_config botocore cred.config)) [
    | inl (e, fails) ↦
        rw (answer_rows, answer_exceptions, answer, fails, task_rows, task_exceptions, fetched)
          (refl, refl)
    | inr (boto, loaded) ↦
        elim (Outcome-cases (fn (service_proxy boto svc_name (some region)) region service_spec)) [
          | inl (e, fails) ↦
              rw
                (
                  answer_rows, answer_exceptions, answer, loaded, fails, task_rows, task_exceptions,
                  fetched,
                )
                (refl, refl)
          | inr (found, done) ↦
              rw
                (
                  answer_rows, answer_exceptions, answer, loaded, done, task_rows, task_exceptions,
                  fetched,
                )
                (region_rows_lem cred found, refl)
        ]
  ]

  abbrev tasks : List (String × ProviderCredential) → List (Task P)
  tasks =
      import_region_with_pool job.id job.provider_account_id (from_import_job job) service_spec
        svc_name fn region

  all_rows :
      (accounts : List (String × ProviderCredential))
      → (gather (task_rows botocore service_proxy) (tasks accounts) ≡ gather answer_rows accounts)
        × (gather (task_exceptions botocore service_proxy) (tasks accounts)
            ≡ gather answer_exceptions accounts)
  unfolding gather import_region_with_pool
  all_rows [] = (refl, refl)
  all_rows ((p, cred) ∷ accounts) =
      rw
        (
          (task_rows_lem p cred).0,
          (task_rows_lem p cred).1,
          (all_rows accounts).0,
          (all_rows accounts).1,
        )
        (refl, refl)

  -- In whatever order the tasks commit that the import of a region submits to the pool, the raw imports
  -- are, up to their order and their ids, those from before and one for each response to the credential
  -- of each account: of the job and its account, of the base source and the first phase, of the service,
  -- at the path of the account and the region, and with the region as context. An account whose session
  -- or fetch fails adds no row, and its exception is the one that is collected for it.
  pub run_pool-Perm_rows :
      (accounts : List (String × ProviderCredential)) (committed : List (Task P)) (db : Db)
      → Permᴰ committed (
          import_region_with_pool job.id job.provider_account_id
            (from_import_job job)
            service_spec
            svc_name
            fn
            region
            accounts)
      → Permᴰ
          (map forget_id (run_pool botocore service_proxy committed db).0.raw_imports.rows)
          (map forget_id db.raw_imports.rows ++ gather answer_rows accounts)
        × Permᴰ (run_pool botocore service_proxy committed db).1 (gather answer_exceptions accounts)
  run_pool-Perm_rows accounts committed db p =
      let both = run_pool-Perm botocore service_proxy committed (tasks accounts) db p in
      let rows =
        (run_pool_lem botocore service_proxy (tasks accounts) db).0
        ∙ ap (λ rs. map forget_id db.raw_imports.rows ++ rs) (all_rows accounts).0 in
      let failed =
        (run_pool_lem botocore service_proxy (tasks accounts) db).1 ∙ (all_rows accounts).1 in
      (subst (Permᴰ _) rows both.0, subst (Permᴰ _) failed both.1)
