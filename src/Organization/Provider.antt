-- ===== src/Organization/Provider.antt =====
-- introspector/aws/__init__.py: the provider account of an organization and the credential for it.
use introspector.Organization.{
  client_error, type_error, description, described_error, setting, Entry, AwsGraph, text_setting,
  Described,
}
use introspector.Value.{entries, Value, bool, str, dict}
use introspector.Services.Accounts.{setting}
use introspector.Prelude.{
  ℕ, String, ◌<>◌, Bool, true, false, ◌&&◌, none, some, Option, List, [], ◌∷◌, filter, str_eq, ◌==◌,
  if◌then◌else◌,
}
use introspector.Outcome.{Outcome, ok, raise, gf_error, multiple_results, ◌>>=◌}
use introspector.Store.Tables.{Table, insert}
use introspector.Store.Rows.{ProviderAccount, ProviderCredential}

-- What STS answers to `get_caller_identity`.
pub record Identity : Type 0 where
  pub account : String
  pub arn : String
  pub user_id : String

pub record Providers : Type 0 where
  pub accounts : Table ProviderAccount
  pub credentials : Table ProviderCredential

-- query.one_or_none()
unfoldable pub at_most_one : {A : Type 0} → List A → Outcome (Option A)
at_most_one [] = ok none
at_most_one (a ∷ []) = ok (some a)
at_most_one (a ∷ (b ∷ rest)) = raise multiple_results

module _ (identity : Identity) where
  unfoldable pub is_credential : ℕ → ProviderCredential → Bool
  is_credential provider_id c = str_eq c.scope identity.account && (c.provider_id == provider_id)

  unfoldable pub credential_row : ℕ → ℕ → ProviderCredential
  credential_row provider_id i = record {
    id = i;
    provider_id = provider_id;
    principal_uri = identity.arn;
    config = ("from_environment", bool true) ∷ [];
    scope = identity.account;
  }

  -- _require_credential
  unfoldable pub require_credential : ℕ → Providers → Outcome Providers
  unfolding is_credential at_most_one credential_row insert
  require_credential provider_id db =
      at_most_one (filter (is_credential provider_id) db.credentials.rows) >>= λ cred.
      ok (elim cred [
        | none ↦ record db { credentials = insert (credential_row provider_id) db.credentials }
        | some c ↦ db
      ])

  module _ (confirm : Identity → Bool) (external_id : Option ℕ) where
    unfoldable pub has_external_id : ProviderAccount → Bool
    has_external_id a = elim external_id [
      | none ↦ true
      | some e ↦ elim a.external_id [ none ↦ false | some f ↦ f == e ]
    ]

    unfoldable pub is_account : String → ProviderAccount → Bool
    unfolding has_external_id
    is_account org_id a = str_eq a.provider "aws" && (str_eq a.name org_id && has_external_id a)

    unfoldable pub account_row : String → ℕ → ProviderAccount
    account_row org_id i = record {
      id = i;
      provider = "aws";
      name = org_id;
      external_id = external_id;
    }

    -- _create_provider_and_credential, with the id of the organization that it asks for again
    unfoldable pub create_provider_and_credential :
        String → Providers → Outcome (ProviderAccount × Providers)
    unfolding account_row insert require_credential
    create_provider_and_credential org_id db = do
      let provider = account_row org_id db.accounts.next
      let added = record db { accounts = insert (account_row org_id) db.accounts }
      next ← require_credential provider.id added
      ok (provider, next)

    -- The query of _get_or_create_provider and what follows it
    unfoldable pub provider_for : String → Providers → Outcome (ProviderAccount × Providers)
    unfolding is_account at_most_one require_credential create_provider_and_credential
    provider_for org_id db =
        at_most_one (filter (is_account org_id) db.accounts.rows) >>= λ account. elim account [
          | some a ↦ require_credential a.id db >>= λ next. ok (a, next)
          | none ↦
              if confirm identity then create_provider_and_credential org_id db else raise gf_error
        ]

-- The id of the organization, or one made of the account's where there is none.
unfoldable pub resolve_org_id : Identity → Described → Outcome String
unfolding setting text_setting entries
resolve_org_id identity (description none) = raise type_error
resolve_org_id identity (description (some resp)) = do
  org_resp ← setting "Organization" resp
  elim org_resp [ dict fs ↦ text_setting "Id" (entries fs) | other ↦ raise type_error ]
resolve_org_id identity (described_error none) = raise client_error
resolve_org_id identity (described_error (some code)) =
    if str_eq code "AWSOrganizationsNotInUseException"
    then ok ("OrgDummy:" <> identity.account)
    else raise client_error

-- _get_or_create_provider
unfoldable pub get_or_create_provider :
    Identity
    → (Identity → Bool)
    → Option ℕ
    → Described
    → Providers
    → Outcome (ProviderAccount × Providers)
unfolding resolve_org_id provider_for
get_or_create_provider identity confirm external_id described db =
    resolve_org_id identity described >>= λ org_id.
    provider_for identity confirm external_id org_id db

-- _build_import_job_desc, from the organization and its graph
pub record ImportJobDesc : Type 0 where
  pub account_id : Value
  pub provider_id : String
  pub provider_uri : String
  pub aws_org : Entry
  pub aws_graph : AwsGraph

unfoldable pub build_import_job_desc : Identity → Outcome (Entry × AwsGraph) → Outcome ImportJobDesc
unfolding text_setting
build_import_job_desc identity build_org_graph = do
  built ← build_org_graph
  id ← text_setting "Id" built.0
  ok (record {
    account_id = str id;
    provider_id = identity.user_id;
    provider_uri = identity.arn;
    aws_org = built.0;
    aws_graph = built.1;
  })
