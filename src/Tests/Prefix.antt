-- ===== src/Tests/Prefix.antt =====
-- introspector/delta/resource.py: a raw import of the VPC is mapped, once.
use introspector.Prelude.{
  ◌<>◌, ◌++◌, arith, ◌≡◌, refl, String, false, none, some, List, [], ◌∷◌, filter,
}
use introspector.Prelude.Like.{IsPlain, codes}
use introspector.Writer.{write, db_import_writer, raw_import_row, write-is_pending}
use introspector.Prelude.Dict.{Dict}
use introspector.Outcome.{Outcome, ok}
use introspector.Value.{Value, str, arr, no_items}
use introspector.Store.{Db}
use introspector.Store.Rows.{RawImport}
use introspector.Uri.{Uri, exact}
use introspector.Delta.Attrs.{MappedAttribute}
use introspector.Delta.Resource.{MappedResource}
use introspector.Delta.Prefix.{is_pending, map_resource_prefix}
use introspector.Delta.Prefix.Again.{map_resource_prefix_again}
use introspector.Tests.Fixtures.{text_diff, job, db, mapped_attrs}

abbrev response : RawImport
response = record {
  id = 1;
  import_job_id = 1;
  provider_account_id = 7;
  source = "base";
  service = "ec2";
  path = "o-1$42";
  resource_name = "Vpcs";
  raw = arr no_items;
  context = none;
  phase = 0;
  mapped = false;
}

abbrev imported_db : Db
imported_db = record db { raw_imports = record { rows = response ∷ []; next = 2 } }

abbrev map_resources :
    Value
    → Dict Value
    → String
    → String
    → Outcome (List (MappedResource Uri × List MappedAttribute))
map_resources resources context service resource_name = ok (
    (
      record {
        name = str "main";
        provider_type = some "Vpcs";
        raw = str "new";
        uri = exact (str "vpc-1");
        category = some "Network";
        service = service;
      },
      mapped_attrs,
    )
    ∷ [])

abbrev Mapped : Type 0
Mapped =
    (after : Db) × (map_resource_prefix text_diff job map_resources none "o-1" imported_db
      ≡ ok after)

mapped : Mapped
unfolding map_resource_prefix text_diff
mapped = (_, refl)

map_resource_prefix_again_example :
    (filter (is_pending job "o-1") mapped.0.raw_imports.rows ≡ [])
    × (map_resource_prefix text_diff job map_resources none "o-1" mapped.0 ≡ ok mapped.0)
map_resource_prefix_again_example =
    map_resource_prefix_again job "o-1" text_diff map_resources none imported_db mapped.0 mapped.1

plain : IsPlain (codes "o-1")
plain = (
  omega arith,
  omega arith,
  omega arith,
  (omega arith, omega arith, omega arith, (omega arith, omega arith, omega arith, tt)),
)

write-is_pending_example :
    filter
      (is_pending job "o-1")
      (write
        (db_import_writer 1 7 "ec2" 0 "base")
        ("o-1" <> "$42")
        "Vpcs"
        (arr no_items)
        none
        imported_db).raw_imports.rows
    ≡ filter (is_pending job "o-1") imported_db.raw_imports.rows
      ++ raw_import_row
          (db_import_writer 1 7 "ec2" 0 "base")
          ("o-1" <> "$42")
          "Vpcs"
          (arr no_items)
          none
          2
        ∷ []
write-is_pending_example =
    write-is_pending job "ec2" 0 "o-1" "$42" "Vpcs" (arr no_items) none imported_db plain
