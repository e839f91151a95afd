-- ===== src/Tests/Fetch.antt =====
-- A client that is throttled at first, and the regions and the tasks of an import.
use introspector.Store.Rows.{ProviderCredential, RawImport}
use introspector.Prelude.{
  ℕ, String, true, false, some, List, [], ◌∷◌, ◌≡◌, refl, ◌⊎◌, str_eq, if◌then◌else◌, filter, ◌==◌,
}
use introspector.Prelude.Dict.{get}
use introspector.Value.{str, dict, arr, no_items, to_fields}
use introspector.Outcome.{ok}
use introspector.Store.Responses.{error_key, raw_resources}
use introspector.Spec.{ServiceSpec}
use introspector.Services.{Service}
use introspector.Fetch.Classes.{client_proxy}
use introspector.Fetch.{Client, answered, refused, list, list_call}
use introspector.Fetch.Calls.{list-raw_resources}
use introspector.Importer.{ServiceModule, service, organizations}
use introspector.Importer.Regions.{
  RegionCache, regions_for_service, endpoint_prefix, IsCache, regions_for_service-IsCache,
}

-- Its state is the number of the calls that it still refuses.
abbrev throttling : Client ℕ
throttling = record {
  py_to_op_name = ("list_users", "ListUsers") ∷ [];
  can_paginate = λ key. false;
  output_members = λ key. "Users" ∷ [];
  paginate = λ key args c. (answered [], c);
  call = λ key args c.
      if c == 0
      then (answered (("Users", str "u") ∷ ("Marker", str "m") ∷ []), c)
      else (refused (some "Throttling"), 0);
}

abbrev denying : Client ℕ
denying = record {
  py_to_op_name = ("list_users", "ListUsers") ∷ [];
  can_paginate = λ key. false;
  output_members = λ key. [];
  paginate = λ key args c. (answered [], c);
  call = λ key args c. (refused (some "AccessDenied"), c);
}

list_example :
    list throttling client_proxy "list_users" [] true 1
    ≡ (ok (some ("Users", ("Users", str "u") ∷ [])), 0)
unfolding list
list_example = refl

list-raw_resources_example :
    ((before : ℕ) × ((list_call denying client_proxy "list_users" [] before).0
        ≡ answered ((error_key, str "auth failure") ∷ [])))
    ⊎ ((row : RawImport)
        → row.raw ≡ dict (to_fields ((error_key, str "auth failure") ∷ []))
        → str_eq error_key row.resource_name ≡ false
        → raw_resources row ≡ ok (arr no_items))
unfolding list
list-raw_resources_example =
    list-raw_resources denying client_proxy "list_users" [] true 0 {name = "Users"} refl

abbrev regions : RegionCache
regions = record {
  load_metadata = λ s. [];
  get_available_endpoints = λ prefix. "us-east-1" ∷ "ap-east-1" ∷ [];
  region_is_available = λ r. str_eq r "us-east-1";
}

regions_for_service-IsCache_example :
    ((regions_for_service regions "sqs" []).0
      ≡ filter regions.region_is_available
          (regions.get_available_endpoints (endpoint_prefix regions "sqs")))
    × IsCache regions (regions_for_service regions "sqs" []).1
unfolding get
regions_for_service-IsCache_example =
    regions_for_service-IsCache regions "sqs" [] (λ region b h. cc h)

abbrev accounts : List (String × ProviderCredential)
accounts =
    (
      "r-1/42",
      record {
        id = 1;
        provider_id = 7;
        principal_uri = "arn:aws:iam::42:user/u";
        config = [];
        scope = "42";
      },
    )
    ∷ []

abbrev service_of : String → ServiceModule String (ℕ → ServiceSpec → List ℕ)
service_of name =
    if str_eq name "organizations"
    then organizations name (λ i spec. i ∷ [])
    else service (Service.regional name (λ proxy region spec. ok []))
