-- ===== src/Tests/Resource.antt =====
-- introspector/delta/resource.py: a later import of the VPC, and a first import of a new resource.
use introspector.Prelude.{opt_eq, ◌≡◌, refl, none, some}
use introspector.Outcome.{ok}
use introspector.Value.{str}
use introspector.Store.{Db}
use introspector.Store.Rows.{Resource}
use introspector.Delta.Resource.{apply_resource, first_import, later_import, is_uri}
use introspector.Delta.Resource.Unique.{IsUnique, is_raw, stored_raw}
use introspector.Delta.Resource.Stored.{Stores, apply_resource_lem, apply_resource-Stores}
use introspector.Tests.Fixtures.{text_diff, job, db, vpc, mapped_attrs}

abbrev gateway : Resource
gateway = record {
  id = 0;
  path = "o-1$42";
  uri = "igw-1";
  name = str "gateway";
  provider_account_id = 7;
  provider_type = some "InternetGateways";
  service = "ec2";
  category = none;
}

unique : IsUnique db
unfolding is_uri is_raw
unique = record { uris = (refl, (refl, tt)); raws = (refl, tt) }

abbrev Applied : Resource → Type 0
Applied r =
    (after : Db) × (apply_resource text_diff job "base" r (str "new") mapped_attrs db ≡ ok after)

changed_vpc : Applied vpc
unfolding apply_resource
changed_vpc = (_, refl)

new_gateway : Applied gateway
unfolding apply_resource opt_eq
new_gateway = (_, refl)

apply_resource_lem_example :
    apply_resource text_diff job "base" vpc (str "new") mapped_attrs db
    ≡ elim (stored_raw 7 "base" "vpc-1" db) [
      | none ↦ first_import text_diff job "base" vpc (str "new") mapped_attrs db
      | some w ↦ ok (later_import text_diff job "base" w (str "new") mapped_attrs db)
    ]
apply_resource_lem_example =
    apply_resource_lem text_diff job "base" vpc (str "new") mapped_attrs db unique

apply_resource-Stores_example :
    Stores text_diff (str "new") (stored_raw 7 "base" "vpc-1" changed_vpc.0)
apply_resource-Stores_example =
    apply_resource-Stores text_diff job "base" vpc (str "new") mapped_attrs db changed_vpc.0 unique
      refl changed_vpc.1
