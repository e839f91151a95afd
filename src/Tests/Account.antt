-- ===== src/Tests/Account.antt =====
-- The reset and the deletion of an account, at a small session.
use introspector.Account.Others.{Keeps, reset_account-others}
use introspector.Prelude.{
  arith, ℕ, ◌≡◌, refl, true, ◌&&◌, none, some, [], ◌∷◌, map, ◌==◌, filter, inl,
}
use introspector.Account.Statements.{in_resources, Session, in_jobs}
use introspector.Account.Imports.{is_later, unmapped}
use introspector.Value.{str}
use introspector.Outcome.{Outcome, ok, raise, undefined_column}
use introspector.Store.Rows.{
  ImportJob, RawImport, MappedUri, ProviderAccount, ResourceDelta, ChangeType, ResourceChange,
}
use introspector.Delta.Prefix.{is_pending}
use introspector.Account.{reset_account, delete_account}
use introspector.Account.Views.{QueryFolder, refresh_views}
use introspector.Account.Sql.{joins, joins_some}
use introspector.Account.Reset.{after_reset, reset_account_lem}
use introspector.Account.Delete.{delete_account-raises}
use introspector.Account.Again.{to_map, reset_account-is_pending}
use introspector.Tests.Fixtures.{db, job, vpc, subnet}

abbrev other_job : ImportJob
other_job = record job { id = 2; provider_account_id = 8 }

abbrev first_import : RawImport
first_import = record {
  id = 1;
  import_job_id = 1;
  provider_account_id = 7;
  source = "base";
  service = "ec2";
  path = "o-1$42";
  resource_name = "Vpcs";
  raw = str "vpcs";
  context = none;
  phase = 0;
  mapped = true;
}

abbrev second_import : RawImport
second_import = record first_import { id = 2; phase = 1 }

abbrev other_import : RawImport
other_import = record first_import { id = 3; import_job_id = 2; provider_account_id = 8 }

abbrev second_uri : MappedUri
second_uri = record {
  uri = "vpc-1";
  source = "base";
  import_job_id = 1;
  provider_account_id = 7;
  raw_import_id = some 2;
}

abbrev vpc_added : ResourceDelta
vpc_added = record {
  id = 1;
  provider_account_id = 7;
  import_job_id = 1;
  resource_id = 1;
  change_type = ChangeType.add;
  change_details = ResourceChange.raw_added (str "vpcs");
}

abbrev other_added : ResourceDelta
other_added = record vpc_added { id = 2; provider_account_id = 8; import_job_id = 2 }

abbrev account : ProviderAccount
account = record { id = 7; provider = "aws"; name = "o-1"; external_id = none }

abbrev session : Session
session = record {
  db = record db {
    resources = record {
      rows = vpc ∷ subnet ∷ record vpc { id = 3; provider_account_id = 8 } ∷ [];
      next = 4;
    };
    deltas = record { rows = vpc_added ∷ other_added ∷ []; next = 3 };
    raw_imports = record { rows = first_import ∷ second_import ∷ other_import ∷ []; next = 4 };
    mapped_uris = second_uri ∷ [];
  };
  jobs = job ∷ other_job ∷ [];
  accounts = account ∷ record account { id = 8; name = "o-2" } ∷ [];
  credentials = [];
  report = [];
}

abbrev folder : QueryFolder
folder = record { listdir = "01_views.sql" ∷ []; is_file = λ f. true; read = λ f. "REFRESH" }

abbrev refresh : ℕ → Session → Outcome Session
refresh = refresh_views folder (λ query p s. ok s)

reset_account_lem_example : reset_account refresh 7 session ≡ refresh 7 (after_reset 7 session)
unfolding in_resources joins
reset_account_lem_example = reset_account_lem refresh 7 session refl

delete_account-raises_example : delete_account refresh account session ≡ raise undefined_column
unfolding in_jobs in_resources joins_some joins
delete_account-raises_example = delete_account-raises refresh account session refl refl

reset_account-is_pending_example :
    (s' : Session) × (reset_account refresh 7 session ≡ ok s')
    × (filter (is_pending job "o-1") s'.db.raw_imports.rows
        ≡ map to_map (
            filter
              (λ r. (r.phase == 0) && is_pending job "o-1" (to_map r))
              session.db.raw_imports.rows))
unfolding in_resources joins
reset_account-is_pending_example =
    reset_account-is_pending folder (λ query p s. ok s) (λ query p s. (s, refl, refl)) job "o-1"
      session (inl refl) refl

-- The import of the first phase is to be mapped again, that of the later one is gone.
reset_example :
    (after_reset 7 session).db.raw_imports.rows ≡ to_map first_import ∷ other_import ∷ []
unfolding after_reset is_later unmapped
reset_example = refl

reset_account-others_example :
    (s' : Session) × (reset_account refresh 7 session ≡ ok s') × Keeps 8 s'.db session
unfolding in_resources joins
reset_account-others_example =
    reset_account-others folder (λ query p s. ok s) (λ query p s. (s, refl, refl)) 7 8 session
      (omega arith) refl (omega arith) (omega arith) (omega arith) (omega arith) (omega arith)
