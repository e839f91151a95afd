-- ===== src/Tests/Responses.antt =====
-- introspector/models/raw_import.py: a response with one entry, and one that is itself a resource.
use introspector.Prelude.{◌≡◌, refl, false, none, [], ◌∷◌}
use introspector.Prelude.Dict.{Dict}
use introspector.Outcome.{ok}
use introspector.Value.{Value, str, arr, dict, no_items, item, to_fields}
use introspector.Store.Rows.{RawImport}
use introspector.Store.Responses.{raw_resources}

abbrev response : Dict Value → RawImport
response raw = record {
  id = 1;
  import_job_id = 1;
  provider_account_id = 7;
  source = "base";
  service = "ec2";
  path = "o-1$42";
  resource_name = "Vpcs";
  raw = dict (to_fields raw);
  context = none;
  phase = 0;
  mapped = false;
}

one_entry :
    raw_resources (response (("VpcList", arr (item (str "vpc-1") no_items)) ∷ []))
    ≡ ok (arr (item (str "vpc-1") no_items))
unfolding raw_resources to_fields
one_entry = refl

error_entry : raw_resources (response (("introspector", str "denied") ∷ [])) ≡ ok (arr no_items)
unfolding raw_resources to_fields
error_entry = refl
