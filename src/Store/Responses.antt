-- ===== src/Store/Responses.antt =====
-- introspector/models/raw_import.py: the resources in the response that a raw import holds.
use introspector.Prelude.{String, none, some, [], ◌∷◌, str_eq, if◌then◌else◌}
use introspector.Prelude.Dict.{Dict, get}
use introspector.Outcome.{Outcome, ok, raise, type_error}
use introspector.Value.{Value, arr, dict, no_items, item, entries, to_fields}
use introspector.Store.Rows.{RawImport}

-- The key under which an import saves an error in place of a response.
abbrev pub error_key : String
error_key = "introspector"

-- What the `KeyError` is answered with: the response has no entry of the resource's name.
unfoldable pub unnamed_resources : Dict Value → Value
unfolding to_fields
unnamed_resources [] = arr no_items
unnamed_resources ((key, v) ∷ []) = if str_eq key error_key then arr no_items else v
unnamed_resources (e ∷ (f ∷ fs)) = arr (item (dict (to_fields (e ∷ (f ∷ fs)))) no_items)

-- A subscript of anything but a list or an object by a name is a `TypeError`.
unfoldable pub raw_resources : RawImport → Outcome Value
unfolding get entries unnamed_resources
raw_resources r = elim r.raw [
  | arr vs ↦ ok (arr vs)
  | dict fs ↦ ok (elim (get r.resource_name (entries fs)) [
    | none ↦ unnamed_resources (entries fs)
    | some v ↦ v
  ])
  | _ ↦ raise type_error
]
