-- ===== src/Tests/Services.antt =====
-- Two services, imported within one session and by the pool.
use introspector.Paths.{path, scope, from_import_job}
use introspector.Prelude.{
  String, ◌≡◌, ◌↔◌, refl, true, none, some, Option, List, [], ◌∷◌, ◌++◌, map, filter, arith,
}
use introspector.Value.{str, bool}
use introspector.Outcome.{ok}
use introspector.Store.{Db}
use introspector.Store.Rows.{ProviderCredential}
use introspector.Delta.Prefix.{is_pending}
use introspector.Services.{RegionalImportFn, GlobalResourceSpec, write_all, call_spec}
use introspector.Services.Accounts.{
  Botocore, load_boto_session, load_boto_session_from_config, account_paths_for_import,
  Configuration,
}
use introspector.Services.Direct.{import_accounts, import_region_accounts, call_specs, job_writer}
use introspector.Services.Pool.{async_proxy, Task, run_pool, import_region_with_pool, task_args}
use introspector.Services.Order.{forget_id, gather}
use introspector.Services.Region.{region_row, answer_rows, answer_exceptions, run_pool-Perm_rows}
use introspector.Services.Same.{import_region_accounts-run_pool}
use introspector.Services.Pending.{account_path, async_proxy-is_pending}
use introspector.Services.Written.{account_rows}
use introspector.Services.Missed.{import_accounts-is_pending}
use introspector.Tests.Fixtures.{db, job}
use mathlib.Core.List.{Permᴰ}

-- A session is a text, and so is a proxy.
abbrev botocore : Botocore String
botocore = record { get_session = "env"; session_with = λ a s. "keys"; patched = λ s. s }

abbrev service_proxy : String → String → Option String → String
service_proxy boto service region = service

abbrev cred : ProviderCredential
cred = record {
  id = 1;
  provider_id = 7;
  principal_uri = "arn:aws:iam::42:user/u";
  config = ("from_environment", bool true) ∷ [];
  scope = "42";
}

abbrev fetch_queues : RegionalImportFn String
fetch_queues proxy region spec = ok (("Queues", str region) ∷ ("Topics", str proxy) ∷ [])

abbrev users : GlobalResourceSpec String
users = record { fetch = λ proxy spec. ok (("user", str "u") ∷ []); writer_transform = none }

abbrev accounts : List (String × ProviderCredential)
accounts = ("r-1/42", cred) ∷ []

abbrev queue_task : Task String
queue_task =
    Task.region_task (task_args job.id job.provider_account_id (from_import_job job) [] "sqs" cred)
      "us-east-1" fetch_queues

-- Two accounts, of which the second has no keys, so that its session fails.
abbrev both : List (String × ProviderCredential)
both = ("r-1/42", cred) ∷ ("r-1/43", record cred { config = []; scope = "43" }) ∷ []

abbrev failing_task : Task String
failing_task =
    Task.region_task
      (task_args job.id job.provider_account_id (from_import_job job) [] "sqs"
        (record cred { config = []; scope = "43" }))
      "us-east-1" fetch_queues

run_pool-Perm_rows_example :
    Permᴰ
      (map forget_id
        (run_pool botocore service_proxy (failing_task ∷ queue_task ∷ []) db).0.raw_imports.rows)
      (map forget_id db.raw_imports.rows
        ++ gather (answer_rows botocore service_proxy job "sqs" [] fetch_queues "us-east-1") both)
    × Permᴰ (run_pool botocore service_proxy (failing_task ∷ queue_task ∷ []) db).1 (
        gather
          (answer_exceptions botocore service_proxy job "sqs" [] fetch_queues "us-east-1")
          both)
unfolding import_region_with_pool
run_pool-Perm_rows_example =
    run_pool-Perm_rows botocore service_proxy job "sqs" [] fetch_queues "us-east-1" both
      (failing_task ∷ queue_task ∷ []) db (Permᴰ.swap refl refl)

abbrev with_queues : Db
with_queues =
    (run_pool botocore service_proxy
      (import_region_with_pool job.id job.provider_account_id (from_import_job job) [] "sqs"
        fetch_queues "us-east-1" accounts)
      db).0

import_region_accounts-run_pool_example :
    (import_region_accounts botocore service_proxy job "sqs" [] fetch_queues "us-east-1" accounts db
      ≡ ok with_queues)
    ↔ (run_pool botocore service_proxy
          (import_region_with_pool job.id job.provider_account_id
            (from_import_job job)
            []
            "sqs"
            fetch_queues
            "us-east-1"
            accounts)
          db
        ≡ (with_queues, []))
import_region_accounts-run_pool_example =
    import_region_accounts-run_pool botocore service_proxy job "sqs" [] fetch_queues "us-east-1"
      accounts db with_queues

async_proxy-is_pending_example :
    (db' : Db) × (async_proxy botocore service_proxy
        (task_args job.id job.provider_account_id (from_import_job job) [] "sqs" cred)
        "us-east-1"
        fetch_queues
        db
      ≡ ok db')
    × (map forget_id (filter (is_pending job (account_path job "42")) db'.raw_imports.rows)
        ≡ map forget_id (filter (is_pending job (account_path job "42")) db.raw_imports.rows)
          ++ map
              (region_row job "sqs" "us-east-1" cred)
              (("Queues", str "us-east-1") ∷ ("Topics", str "sqs") ∷ []))
unfolding path scope from_import_job load_boto_session_from_config
async_proxy-is_pending_example =
    async_proxy-is_pending botocore service_proxy job cred "sqs" "us-east-1" [] fetch_queues
      (("Queues", str "us-east-1") ∷ ("Topics", str "sqs") ∷ []) db (omega arith) refl

abbrev with_users : Db
with_users =
    write_all (job_writer job "iam") (from_import_job job) (some (("account_id", str "42") ∷ []))
      (("user", str "u") ∷ []) db

import_accounts-is_pending_example :
    (map forget_id with_users.raw_imports.rows
      ≡ map forget_id db.raw_imports.rows
        ++ gather (account_rows botocore service_proxy job "iam" [] (users ∷ [])) accounts)
    × (filter (is_pending job (account_path job "42")) with_users.raw_imports.rows
        ≡ filter (is_pending job (account_path job "42")) db.raw_imports.rows)
unfolding scope import_accounts call_specs call_spec load_boto_session load_boto_session_from_config
import_accounts-is_pending_example =
    import_accounts-is_pending botocore service_proxy job "iam" [] "42" (users ∷ []) accounts db
      with_users (omega arith) refl

abbrev configuration : Configuration
configuration = record {
  provider_uri = "arn:aws:iam::42:user/u";
  accounts = ("r-1", "41" ∷ "42" ∷ []) ∷ [];
}

accounts_example : account_paths_for_import (cred ∷ []) job configuration ≡ ok accounts
unfolding account_paths_for_import
accounts_example = refl
