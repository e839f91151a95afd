-- ===== src/Services/Accounts.antt =====
-- introspector/aws/__init__.py: the credentials that an import has for the accounts of the
-- organization. The configuration of the import job is a parameter of what reads it.
use introspector.Prelude.{
  String, ◌<>◌, Bool, false, none, some, Option, List, [], ◌∷◌, ◌++◌, filter, find, str_eq, ◌==◌,
  if◌then◌else◌,
}
use introspector.Prelude.Text.{split}
use introspector.Prelude.Dict.{Dict, get}
use introspector.Value.{Value}
use introspector.Outcome.{Outcome, ok, raise, key_error, ◌>>=◌}
use introspector.Division.{item_at}
use introspector.Store.Rows.{ImportJob, ProviderCredential}
use introspector.Mapper.Targets.{truthy}

-- What the code reads of `ImportJob.configuration`: the uri of the principal, and the ids of the accounts
-- of `aws_graph` below each path.
pub record Configuration : Type 0 where
  pub provider_uri : String
  pub accounts : Dict (List String)

-- next(cred for cred in creds if cred.scope == account_id)
unfoldable pub find_credential : List ProviderCredential → String → Option ProviderCredential
find_credential creds account_id = find (λ cred. str_eq cred.scope account_id) creds

module _ (creds : List ProviderCredential) (import_account_id : String) where
  unfoldable pub paths_of : String → List String → List (String × ProviderCredential)
  unfolding find_credential
  paths_of path [] = []
  paths_of path (account ∷ accounts) =
      let rest = paths_of path accounts in
      if str_eq account import_account_id
      then (elim (find_credential creds account) [
        | none ↦ rest
        | some cred ↦ (path <> ("/" <> cred.scope), cred) ∷ rest
      ])
      else rest

  unfoldable pub account_paths : Dict (List String) → List (String × ProviderCredential)
  unfolding paths_of
  account_paths [] = []
  account_paths ((path, accounts) ∷ rest) = paths_of path accounts ++ account_paths rest

unfoldable pub account_paths_for_import :
    List ProviderCredential
    → ImportJob
    → Configuration
    → Outcome (List (String × ProviderCredential))
unfolding item_at split account_paths
account_paths_for_import credentials job configuration = do
  import_account_id ← item_at 4 (split b':' configuration.provider_uri)
  ok (
      account_paths (filter (λ c. c.provider_id == job.provider_account_id) credentials)
        import_account_id configuration.accounts)

-- What the botocore package gives: its sessions, and a session whose timestamps are texts.
pub record Botocore (S : Type 0) : Type 0 where
  pub get_session : S
  pub session_with : (access_key secret_key : Value) → S
  pub patched : S → S

-- config[key]
unfoldable pub setting : String → Dict Value → Outcome Value
unfolding get
setting key config = elim (get key config) [ none ↦ raise key_error | some v ↦ ok v ]

unfoldable pub from_environment : Dict Value → Bool
unfolding get truthy
from_environment config = elim (get "from_environment" config) [ none ↦ false | some v ↦ truthy v ]

module _ {S : Type 0} (botocore : Botocore S) where
  unfoldable pub load_boto_session_from_config : Dict Value → Outcome S
  unfolding from_environment setting
  load_boto_session_from_config config =
      if from_environment config then ok (botocore.patched botocore.get_session) else (do
        access_key ← setting "access_key" config
        secret_key ← setting "secret_key" config
        ok (botocore.patched (botocore.session_with access_key secret_key)))

  unfoldable pub load_boto_session : ProviderCredential → Outcome S
  unfolding load_boto_session_from_config
  load_boto_session credential = load_boto_session_from_config credential.config
