-- ===== src/Mapper/Relations.antt =====
-- introspector/mapper.py: Mapper.map_relations. The nodes of the organization are an interface, which
-- introspector/aws/map.py implements.
pub mod Contained
pub mod Fuel
use introspector.Mapper.Targets.{map_relation}
use introspector.Prelude.{
  ℕ, zero, suc, String, Option, none, some, List, [], ◌∷◌, ◌++◌, if◌then◌else◌, not, ◌&&◌, is_empty,
}
use introspector.Prelude.Dict.{Dict, put}
use introspector.Outcome.{Outcome, ok, raise, gf_internal, recursion_error, ◌>>=◌}
use introspector.Value.{Value, str, arr, dict, no_items, no_members, to_fields}
use introspector.Uri.{Uri, exact, get_of, is_text, item_of}
use introspector.Delta.Relations.{MappedRelation}
use introspector.MapperFns.Policy.{MapperFn}
use introspector.Mapper.Eval.{iterate, members}
use introspector.Mapper.Specs.{
  Transform, Transforms, get_or, find_transform, version, is_one, at_least_one, UriFn, partial,
  keywords, for_each, args_value, parent_kwargs, uri_args, evaluated, get_list,
}

-- DivisionURI: the uri of the division that a path leads to, and of the parent of a division.
pub record Divisions : Type 0 where
  pub for_path : String → Outcome String
  pub for_parent : String → Outcome String

module _ (search : Value → Value → Outcome Value) (fns : Dict MapperFn) where
  -- _map_in_relation: an organization is in nothing, and neither is a resource whose uri is a pattern.
  unfoldable pub map_in_relation : Divisions → String → Value → Uri → Outcome (List MappedRelation)
  unfolding is_text
  map_in_relation divisions path category (exact (str uri)) =
      if is_text "Organization" category then ok [] else (do
        division ←
            (if is_text "Division" category
              then divisions.for_parent uri
              else divisions.for_path path)
        ok (
            record {
              parent = exact (str uri);
              relation = "in";
              target = exact (str division);
              attributes = [];
            }
            ∷ []))
  map_in_relation divisions path category uri = ok []

  -- What a specification gives where the uri function raises: nothing for an image without relations.
  unfoldable pub without_uri :
      Value → Value → List Value → Outcome (Option Uri) → Outcome (Option Uri)
  unfolding is_text item_of
  without_uri spec service relation_specs failure =
      if is_empty relation_specs && is_text "ec2" service
      then (do
        provider_type ← item_of "provider_type" spec
        (if is_text "Image" provider_type then ok none else failure))
      else failure

  unfoldable pub source_uri :
      Value → Value → List Value → Outcome (Dict Value) → UriFn → Outcome (Option Uri)
  unfolding without_uri
  source_uri spec service relation_specs kwargs uri_fn = elim (kwargs >>= uri_fn) [
    | ok uri ↦ ok (some uri)
    | raise e ↦ without_uri spec service relation_specs (raise e)
  ]

  module _ (divisions : Divisions) (path : String) (ctx : Value) where
    unfoldable pub map_spec_relations :
        Value → UriFn → Dict Value → (raw : Value) → Dict Value → Outcome (List MappedRelation)
    unfolding get_or item_of iterate keywords to_fields source_uri map_in_relation for_each
        map_relation
    map_spec_relations spec uri_fn args raw kwargs = do
      relations ← get_or "relations" (arr no_items) spec
      relation_specs ← iterate relations
      service ← item_of "service" spec
      found ←
          source_uri spec service relation_specs
            (do
              with_parent ← keywords args kwargs
              keywords with_parent (("service", service) ∷ ("context", ctx) ∷ []))
            uri_fn
      elim found [
        | none ↦ ok []
        | some uri ↦ do
          category ← get_or "category" (str "") spec
          contained ← map_in_relation divisions path category uri
          rest ← for_each relation_specs (λ relation_spec.
              map_relation search fns uri_fn service ctx relation_spec uri args raw kwargs)
          ok (contained ++ rest)
      ]

    unfoldable pub map_relation_spec :
        Value → List Value → Value → UriFn → Option (Dict Value) → Outcome (List MappedRelation)
    unfolding get_or for_each uri_args put map_spec_relations parent_kwargs
    map_relation_spec spec raws resource_name raw_uri_fn parent_args = do
      name ← get_or "resource_name" resource_name spec
      for_each raws (λ raw. do
        uri ← get_or "uri" (dict no_members) spec
        args ← uri_args search uri raw
        map_spec_relations spec raw_uri_fn (put "resource_name" name (put "path" (str path) args))
            raw (parent_kwargs parent_args))

    -- The loop over the subresources. The body maps the subresources of one parent.
    unfoldable pub each_below :
        Transform
        → Value
        → Option (Dict Value)
        → (Value → Value → Dict Value → Outcome (List MappedRelation))
        → Outcome (List MappedRelation)
    unfolding get_or get_of get_list iterate for_each members evaluated args_value
    each_below t raw_list parent_args body = do
      found ← get_or "subresources" (arr no_items) t.spec
      subspecs ← iterate found
      for_each subspecs (λ spec. do
        key ← get_of "key" spec
        typ ← get_of "type" spec
        parent_spec ← get_or "parent" (dict no_members) spec
        raws ← iterate raw_list
        for_each raws (λ parent. do
          subresources ← get_list key parent
          specs ← members parent_spec
          params ← evaluated search fns specs parent (args_value parent_args)
          body typ subresources params))

    module _ (transforms : Transforms) (service : String) where
      -- `spent` is what a stack without room gives.
      unfoldable pub map_relations_or :
          Outcome (List MappedRelation)
          → ℕ
          → Value
          → Value
          → UriFn
          → Option (Dict Value)
          → Outcome (List MappedRelation)
      unfolding find_transform version at_least_one is_one get_or iterate for_each map_relation_spec
          each_below partial
      map_relations_or spent zero raw_list resource_name raw_uri_fn parent_args = spent
      map_relations_or spent (suc fuel) raw_list resource_name raw_uri_fn parent_args = do
        t ← find_transform transforms service resource_name
        v ← version t
        mapped ← at_least_one v
        (if not mapped then ok [] else if not (is_one v) then raise gf_internal else (do
          found ← get_or "resources" (arr no_items) t.spec
          specs ← iterate found
          own ← for_each specs (λ spec. do
            raws ← iterate raw_list
            map_relation_spec spec raws resource_name raw_uri_fn parent_args)
          below ← each_below t raw_list parent_args (λ typ subresources params.
              map_relations_or spent fuel subresources typ
                (partial (("resource_name", typ) ∷ []) raw_uri_fn) (some params))
          ok (own ++ below)))

      unfoldable pub map_relations :
          ℕ → Value → Value → UriFn → Option (Dict Value) → Outcome (List MappedRelation)
      unfolding map_relations_or
      map_relations = map_relations_or (raise recursion_error)
