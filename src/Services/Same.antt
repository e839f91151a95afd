-- ===== src/Services/Same.antt =====
-- introspector/aws/svc.py: the two ways to import a regional service.
use introspector.Prelude.{
  String, Option, List, [], ◌∷◌, ◌≡◌, ◌↔◌, refl, ◌∙◌, ap, sym, arith, inl, inr,
}
use introspector.Outcome.{ok, raise, Exception, ◌>>=◌, Outcome-cases, ok-eq, raise_ok}
use introspector.Store.{Db}
use introspector.Store.Rows.{ImportJob, ProviderCredential}
use introspector.Paths.{from_import_job}
use introspector.Spec.{ServiceSpec}
use introspector.Services.{RegionalImportFn, call_region}
use introspector.Services.Accounts.{Botocore, load_boto_session}
use introspector.Services.Direct.{import_region_accounts, job_writer}
use introspector.Services.Pool.{
  Task, async_proxy, run_task, run_pool, import_region_with_pool, task_args,
}

module _ {S P : Type 0} (botocore : Botocore S) (service_proxy : S → String → Option String → P)
    (job : ImportJob) (svc_name : String) (service_spec : ServiceSpec) (fn : RegionalImportFn P)
    (region : String) where
  abbrev tasks : List (String × ProviderCredential) → List (Task P)
  tasks =
      import_region_with_pool job.id job.provider_account_id (from_import_job job) service_spec
        svc_name fn region

  abbrev task_of : ProviderCredential → Task P
  task_of account =
      Task.region_task
        (task_args job.id job.provider_account_id (from_import_job job) service_spec svc_name
          account)
        region fn

  import_region_accounts-cons :
      (p : String) (account : ProviderCredential) (accounts : List (String × ProviderCredential))
      (db : Db)
      → import_region_accounts botocore service_proxy job svc_name service_spec fn region
          ((p, account) ∷ accounts)
          db
        ≡ (run_task botocore service_proxy (task_of account) db
            >>= import_region_accounts botocore service_proxy job svc_name service_spec fn region
                accounts)
  unfolding import_region_accounts run_task async_proxy task_args load_boto_session call_region
      job_writer
  import_region_accounts-cons p account accounts db = ground arith

  -- A region of a service is imported within one session exactly when no task of the pool for it fails,
  -- the tasks committing in the order of the accounts, and with the same rows in the database.
  pub import_region_accounts-run_pool :
      (accounts : List (String × ProviderCredential)) (db db' : Db)
      → (import_region_accounts botocore service_proxy job svc_name service_spec fn region accounts
            db
          ≡ ok db')
        ↔ (run_pool botocore service_proxy
              (import_region_with_pool job.id job.provider_account_id
                (from_import_job job)
                service_spec
                svc_name
                fn
                region
                accounts)
              db
            ≡ (db', []))
  unfolding import_region_with_pool run_pool
  import_region_accounts-run_pool [] db db' = (
    λ h.
        unfold import_region_accounts in
        ap (λ (d : Db). (d, [])) (ok-eq _ _ (unfold import_region_accounts in h)),
    λ h. unfold import_region_accounts in ap (λ (r : Db × List Exception). ok r.0) h,
  )
  import_region_accounts-run_pool ((p, account) ∷ accounts) db db' =
      elim (Outcome-cases (run_task botocore service_proxy (task_of account) db)) [
        | inl (e, fails) ↦
            let rest = run_pool botocore service_proxy (tasks accounts) db in
            let direct : import_region_accounts botocore service_proxy job svc_name service_spec fn
                  region ((p, account) ∷ accounts) db
                ≡ raise e =
              import_region_accounts-cons p account accounts db ∙ rw fails refl in
            let pool : run_pool botocore service_proxy (tasks ((p, account) ∷ accounts)) db
                ≡ (rest.0, e ∷ rest.1) =
              rw (fails, run_pool) refl in
            (
              λ h. absurd (raise_ok (sym direct ∙ h)),
              λ h. absurd (cc (ap (λ (r : Db × List Exception). r.1) (sym pool ∙ h))),
            )
        | inr (next, done) ↦
            let direct : import_region_accounts botocore service_proxy job svc_name service_spec fn
                  region ((p, account) ∷ accounts) db
                ≡ import_region_accounts botocore service_proxy job svc_name service_spec fn region
                    accounts next =
              import_region_accounts-cons p account accounts db ∙ rw done refl in
            let pool : run_pool botocore service_proxy (tasks ((p, account) ∷ accounts)) db
                ≡ run_pool botocore service_proxy (tasks accounts) next =
              rw (done, run_pool) refl in
            rw (direct, pool) (import_region_accounts-run_pool accounts next db')
      ]
