-- ===== src/Tests/Mapper.antt =====
-- introspector/mapper.py: an instance with one volume, and tags.
use introspector.Prelude.{◌≡◌, refl, none, some, List, [], ◌∷◌, All, arith}
use introspector.Prelude.Dict.{Dict, get}
use introspector.Outcome.{Outcome, ok}
use introspector.Value.{Value, null, str, num, arr, dict, to_items, to_fields, entries}
use introspector.Uri.{Uri, exact, arg}
use introspector.Delta.Attrs.{MappedAttribute}
use introspector.MapperFns.Policy.{MapperFn}
use introspector.Mapper.Attrs.{map_custom_attrs}
use introspector.Mapper.Attrs.Present.{AreListed, IsPresent, map_custom_attrs-IsPresent}
use introspector.Mapper.Depth.{depth}
use introspector.Mapper.Specs.{Transforms, UriFn}
use introspector.Mapper.Resources.{MapResult, map_resources, map_resources_or}
use introspector.Mapper.Relations.{Divisions, map_relations, map_relations_or}
use introspector.Mapper.Relations.Fuel.{map_relations_lem}
use introspector.Mapper.Resources.Fuel.{map_resources_lem}

-- A search for a key of an object.
unfoldable pub by_key : Value → Value → Outcome Value
unfolding get entries
by_key (str key) (dict fs) = ok (elim (get key (entries fs)) [ none ↦ null | some v ↦ v ])
by_key path raw = ok null

abbrev object : Dict Value → Value
object d = dict (to_fields d)

abbrev array : List Value → Value
array vs = arr (to_items vs)

abbrev tag_specs : Dict Value
tag_specs =
    (
      "Metadata",
      object (
          ("Tags", object (("path", str "Tags") ∷ []))
          ∷ ("Team", object (("path", str "Team") ∷ []))
          ∷ []),
    )
    ∷ []

abbrev instance_raw : Value
instance_raw = object (
    ("Id", str "i-1")
    ∷ ("Tags", str "web")
    ∷ ("Volumes", array (object (("Id", str "v-1") ∷ []) ∷ []))
    ∷ [])

abbrev by_id : Value
by_id = object (("id", str "Id") ∷ [])

abbrev transforms : Transforms
transforms =
    (
      "ec2",
      (
        "Instances",
        record {
          service = "ec2";
          spec = object (
              ("version", num "1")
              ∷ (
                "resources",
                array (
                    object (
                      ("uri", by_id)
                      ∷ ("name", str "Id")
                      ∷ ("attributes", object (("custom", object tag_specs) ∷ []))
                      ∷ [])
                    ∷ []),
              )
              ∷ (
                "subresources",
                array (object (("key", str "Volumes") ∷ ("type", str "Volumes") ∷ []) ∷ []),
              )
              ∷ []);
        },
      )
          ∷ (
            "Volumes",
            record {
              service = "ec2";
              spec = object (
                  ("version", num "1")
                  ∷ ("resources", array (object (("uri", by_id) ∷ ("name", str "Id") ∷ []) ∷ []))
                  ∷ []);
            },
          )
          ∷ [],
    )
    ∷ []

unfoldable pub id_uri : UriFn
unfolding arg
id_uri kwargs = ok (exact (arg "id" kwargs))

abbrev no_fns : Dict MapperFn
no_fns = []

abbrev response : Value
response = array (instance_raw ∷ [])

deep : depth response ≡ 4
unfolding depth to_fields to_items
deep = refl

map_resources_lem_example :
    map_resources by_key no_fns transforms [] "ec2" 8 response (str "Instances") id_uri none
    ≡ map_resources_or by_key no_fns transforms [] "ec2"
        (ok [])
        5
        response
        (str "Instances")
        id_uri
        none
map_resources_lem_example =
    map_resources_lem by_key no_fns transforms [] "ec2" (ok []) 8 5 response (str "Instances")
      id_uri none (omega (arith, deep)) (omega (arith, deep))

abbrev uris : List MapResult → List Uri
uris [] = []
uris ((mapped, attrs) ∷ results) = mapped.uri ∷ uris results

abbrev Mapped : Type 0
Mapped =
    (results : List MapResult) × (map_resources by_key no_fns transforms [] "ec2" 5 response
        (str "Instances") id_uri none
      ≡ ok results)

mapped : Mapped
unfolding map_resources by_key id_uri to_fields to_items
mapped = (_, refl)

-- The instance and its volume are found.
mapped_uris : uris mapped.0 ≡ exact (str "i-1") ∷ exact (str "v-1") ∷ []
unfolding mapped to_fields to_items
mapped_uris = refl

abbrev Found : Type 0
Found =
    (attrs : List MappedAttribute) × (map_custom_attrs by_key no_fns tag_specs (some "Instance")
        instance_raw null
      ≡ ok attrs)

found : Found
unfolding map_custom_attrs by_key to_fields to_items
found = (_, refl)

map_custom_attrs-IsPresent_example :
    All (IsPresent by_key no_fns tag_specs (some "Instance") instance_raw null) found.0
    × All (AreListed by_key no_fns (some "Instance") instance_raw null found.0) tag_specs
map_custom_attrs-IsPresent_example =
    map_custom_attrs-IsPresent by_key no_fns tag_specs (some "Instance") instance_raw null found.0
      found.1

abbrev divisions : Divisions
divisions = record { for_path = λ path. ok path; for_parent = λ uri. ok uri }

map_relations_lem_example :
    map_relations by_key no_fns divisions "o-1" null transforms "ec2" 8 response
      (str "Instances")
      id_uri
      none
    ≡ map_relations_or by_key no_fns divisions "o-1" null transforms "ec2"
        (ok [])
        5
        response
        (str "Instances")
        id_uri
        none
map_relations_lem_example =
    map_relations_lem by_key no_fns divisions "o-1" null transforms "ec2" (ok []) 8 5 response
      (str "Instances") id_uri none (omega (arith, deep)) (omega (arith, deep))
