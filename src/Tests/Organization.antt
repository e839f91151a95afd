-- ===== src/Tests/Organization.antt =====
-- The first import of an account that is in no organization.
use introspector.Prelude.{◌≡◌, refl, true, none, some, [], ◌∷◌}
use introspector.Value.{bool}
use introspector.Outcome.{ok}
use introspector.Store.Rows.{ProviderAccount, ProviderCredential}
use introspector.Organization.{
  Described, described_error, walk_graph, build_dummy_org_graph, dummy_root, account_entry,
}
use introspector.Organization.Provider.{Identity, Providers, get_or_create_provider}
use introspector.Organization.Again.{get_or_create_provider_again}

abbrev identity : Identity
identity = record { account = "42"; arn = "arn:aws:iam::42:user/u"; user_id = "AID" }

abbrev alone : Described
alone = described_error (some "AWSOrganizationsNotInUseException")

abbrev provider : ProviderAccount
provider = record { id = 1; provider = "aws"; name = "OrgDummy:42"; external_id = none }

abbrev credential : ProviderCredential
credential = record {
  id = 1;
  provider_id = 1;
  principal_uri = "arn:aws:iam::42:user/u";
  config = ("from_environment", bool true) ∷ [];
  scope = "42";
}

abbrev providers : Providers
providers = record {
  accounts = record { rows = provider ∷ []; next = 2 };
  credentials = record { rows = credential ∷ []; next = 2 };
}

created :
    get_or_create_provider identity
      (λ i. true)
      none
      alone
      (record {
        accounts = record { rows = []; next = 1 };
        credentials = record { rows = []; next = 1 };
      })
    ≡ ok (provider, providers)
unfolding get_or_create_provider
created = refl

get_or_create_provider_again_example :
    get_or_create_provider identity (λ i. true) none alone providers ≡ ok (provider, providers)
get_or_create_provider_again_example =
    get_or_create_provider_again identity (λ i. true) none alone
      (record {
        accounts = record { rows = []; next = 1 };
        credentials = record { rows = []; next = 1 };
      })
      provider providers created

walk_example :
    (walk_graph (build_dummy_org_graph "42").0 (build_dummy_org_graph "42").1)
    ≡ ok (
        ("", "Organization", (build_dummy_org_graph "42").0)
        ∷ ("r-dummy", "Root", dummy_root "42" "OrgDummy:42")
        ∷ ("r-dummy/42", "Account", account_entry "42" "OrgDummy:42" "42")
        ∷ [])
unfolding walk_graph build_dummy_org_graph
walk_example = refl
