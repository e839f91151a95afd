-- ===== src/Mapper/Targets.antt =====
-- introspector/mapper.py: Mapper._map_relation. A relation that has no name is an `IntegrityError`, which
-- the database raises later on.
use introspector.Prelude.{
  String, Bool, true, false, Option, none, some, List, [], ◌∷◌, if◌then◌else◌, not, is_empty,
  str_eq,
}
use introspector.Prelude.Dict.{Dict, put}
use introspector.Prelude.Text.{is_blank}
use introspector.Outcome.{Outcome, ok, raise, integrity_error, type_error, ◌>>=◌}
use introspector.Value.{
  Value, null, bool, num, str, arr, dict, items, no_members, to_fields, entries,
}
use introspector.Uri.{Uri, get_of, is_text, item_of}
use introspector.Delta.Relations.{MappedRelation}
use introspector.MapperFns.Policy.{MapperFn, value_fn, relation_fn}
use introspector.Mapper.Eval.{members, fn, value_from_spec}
use introspector.Mapper.Specs.{get_or, UriFn, keywords, for_each, evaluated}

-- DivisionURI: the uri of the division that a path leads to, and of the parent of a division.
-- v or [], for the result of a search
unfoldable pub falsy : Value → Bool
unfolding items entries
falsy null = true
falsy (bool b) = not b
falsy (num n) = str_eq n "0"
falsy (str s) = is_blank s
falsy (arr vs) = is_empty (items vs)
falsy (dict fs) = is_empty (entries fs)

unfoldable pub as_list : Value → List Value
unfolding items
as_list (arr vs) = items vs
as_list v = v ∷ []

unfoldable pub relation_name : Value → Outcome String
relation_name (str s) = ok s
relation_name v = raise integrity_error

unfoldable pub truthy : Value → Bool
unfolding falsy
truthy v = not (falsy v)

unfoldable pub related : Bool → Uri → String → Uri → Dict Value → MappedRelation
related invert parent relation target attrs =
    if invert
    then record { parent = target; relation = relation; target = parent; attributes = attrs }
    else record { parent = parent; relation = relation; target = target; attributes = attrs }

module _ (search : Value → Value → Outcome Value) (fns : Dict MapperFn) where
  -- {key: jmespath.search(value, raw) for key, value in path.items()}
  unfoldable pub searched : Dict Value → Value → Outcome (Dict Value)
  searched [] raw = ok []
  searched ((key, path) ∷ paths) raw = do
    v ← search path raw
    rest ← searched paths raw
    ok ((key, v) ∷ rest)

  unfoldable pub targets_of : Value → Value → Outcome (List Value)
  unfolding is_text searched to_fields falsy as_list entries
  targets_of path raw = if is_text "" path then ok (raw ∷ []) else elim path [
    | dict fs ↦ do target ← searched (entries fs) raw; ok (dict (to_fields target) ∷ [])
    | other ↦ do found ← search other raw; ok (if falsy found then [] else as_list found)
  ]

  -- The keyword arguments of the target's uri; a value that is missing skips the target.
  unfoldable pub target_args :
      Dict Value → (target raw : Value) → Dict Value → Outcome (Option (Dict Value))
  unfolding value_from_spec put
  target_args [] target raw kwargs = ok (some kwargs)
  target_args ((key, spec) ∷ specs) target raw kwargs = do
    v ← value_from_spec search fns spec target raw null
    let rest = target_args specs target raw (put key v kwargs)
    elim v [ null ↦ ok none | _ ↦ rest ]

  -- fn(parent_uri=…, …)
  unfoldable pub call_relation :
      MapperFn → Uri → Value → Dict Value → Value → Dict Value → Outcome (List MappedRelation)
  call_relation (relation_fn f) parent_uri target args raw kwargs =
      f parent_uri target args raw kwargs
  call_relation (value_fn f) parent_uri target args raw kwargs = raise type_error

  -- The function that a relation names, if it names one.
  unfoldable pub named_fn : Value → Outcome (Option MapperFn)
  unfolding fn
  named_fn null = ok none
  named_fn name = do f ← fn fns name; ok (some f)

  module _ (uri_fn : UriFn) (service : Value) (ctx : Value) where
    -- The rest of the loop over the targets, for a relation that names no function.
    unfoldable pub map_target :
        Value
        → Uri
        → Dict Value
        → (raw : Value) → Dict Value
        → Value
        → Outcome (List MappedRelation)
    unfolding item_of get_of get_or members target_args keywords evaluated truthy relation_name
        related to_fields
    map_target spec parent_uri args raw kwargs target = do
      uri ← item_of "uri" spec
      specs ← members uri
      found ←
          target_args specs target raw
            (("parent_uri", dict (to_fields args)) ∷ ("service", service) ∷ [])
      elim found [
        | none ↦ ok []
        | some target_kwargs ↦ do
          with_parent ← keywords target_kwargs kwargs
          all ← keywords with_parent (("context", ctx) ∷ [])
          target_uri ← uri_fn all
          attributes ← get_or "attributes" (dict no_members) spec
          attr_specs ← members attributes
          attrs ← evaluated search fns attr_specs target null
          invert ← get_or "invert" (bool false) spec
          named ← get_of "relation" spec
          relation ← relation_name named
          ok (related (truthy invert) parent_uri relation target_uri attrs ∷ [])
      ]

    unfoldable pub map_relation :
        Value → Uri → Dict Value → (raw : Value) → Dict Value → Outcome (List MappedRelation)
    unfolding get_of named_fn item_of targets_of for_each call_relation map_target
    map_relation spec parent_uri args raw kwargs = do
      fn_name ← get_of "fn" spec
      f ← named_fn fn_name
      path ← item_of "path" spec
      targets ← targets_of path raw
      for_each targets (λ target. elim f [
        | none ↦ map_target spec parent_uri args raw kwargs target
        | some g ↦ call_relation g parent_uri target args raw kwargs
      ])
