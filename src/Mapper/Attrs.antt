-- ===== src/Mapper/Attrs.antt =====
-- introspector/mapper.py: _map_provider_attrs and _map_custom_attrs.
pub mod Present
use introspector.Prelude.{String, Option, some, List, [], ◌∷◌, ◌++◌, str_eq, if◌then◌else◌}
use introspector.Prelude.Dict.{Dict}
use introspector.Prelude.Text.{join}
use introspector.Mapper.Eval.{iterate, members, value_from_spec}
use introspector.Outcome.{Outcome, ok, raise, gf_internal, type_error, ◌>>=◌}
use introspector.Value.{Value, null, str, dict, no_members, member, entries}
use introspector.Uri.{is_null}
use introspector.Delta.Attrs.{MappedAttribute}
use introspector.MapperFns.Policy.{MapperFn}

module _ (search : Value → Value → Outcome Value) (fns : Dict MapperFn) where
  -- _map_provider_attrs: `provider` is the type of each attribute.
  unfoldable pub provider_attr : String → Value → MappedAttribute
  provider_attr name value = record { attr_type = some "provider"; name = name; value = value }

  unfoldable pub path_spec : String → Value
  path_spec path = dict (member "path" (str path) no_members)

  unfoldable pub keyed_attrs : String → List Value → Value → Outcome (List MappedAttribute)
  unfolding value_from_spec path_spec provider_attr join
  keyed_attrs segment [] raw = ok []
  keyed_attrs segment (str key ∷ keys) raw = do
    value ← value_from_spec search fns (path_spec (join "." (segment ∷ key ∷ []))) raw null null
    rest ← keyed_attrs segment keys raw
    ok (provider_attr key value ∷ rest)
  keyed_attrs segment (v ∷ keys) raw = raise type_error

  unfoldable pub segment_attrs : Dict Value → Value → Outcome (List MappedAttribute)
  unfolding iterate keyed_attrs
  segment_attrs [] raw = ok []
  segment_attrs ((segment, v) ∷ d) raw = do
    keys ← iterate v
    found ← keyed_attrs segment keys raw
    rest ← segment_attrs d raw
    ok (found ++ rest)

  unfoldable pub name_attrs : Value → Value → Outcome (List MappedAttribute)
  unfolding value_from_spec path_spec provider_attr segment_attrs entries is_null
  name_attrs (str name) raw = do
    value ← value_from_spec search fns (path_spec name) raw null null
    ok (if is_null value then [] else provider_attr name value ∷ [])
  name_attrs (dict fs) raw = segment_attrs (entries fs) raw
  name_attrs v raw = raise gf_internal

  unfoldable pub map_provider_attrs : List Value → Value → Outcome (List MappedAttribute)
  unfolding name_attrs
  map_provider_attrs [] raw = ok []
  map_provider_attrs (v ∷ vs) raw = do
    found ← name_attrs v raw
    rest ← map_provider_attrs vs raw
    ok (found ++ rest)

  -- _map_custom_attrs, of one type and of all: `_` stands for the category.
  unfoldable pub typed_attrs :
      Option String → Dict Value → (raw ctx : Value) → Outcome (List MappedAttribute)
  unfolding value_from_spec is_null
  typed_attrs typ [] raw ctx = ok []
  typed_attrs typ ((name, spec) ∷ specs) raw ctx = do
    value ← value_from_spec search fns spec raw null ctx
    rest ← typed_attrs typ specs raw ctx
    ok (
        if is_null value
        then rest
        else record { attr_type = typ; name = name; value = value } ∷ rest)

  unfoldable pub map_custom_attrs :
      Dict Value → Option String → (raw ctx : Value) → Outcome (List MappedAttribute)
  unfolding members typed_attrs
  map_custom_attrs [] category raw ctx = ok []
  map_custom_attrs ((typ, v) ∷ specs) category raw ctx = do
    attr_specs ← members v
    found ← typed_attrs (if str_eq typ "_" then category else some typ) attr_specs raw ctx
    rest ← map_custom_attrs specs category raw ctx
    ok (found ++ rest)
