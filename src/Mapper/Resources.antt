-- ===== src/Mapper/Resources.antt =====
-- introspector/mapper.py: Mapper.map_resources and Mapper.map_partials. The recursion into the
-- subresources has as fuel the depth that the Python stack has left: it is a `RecursionError` without.
pub mod Fuel
use introspector.Prelude.{
  ℕ, zero, suc, String, true, Option, some, List, [], ◌∷◌, ◌++◌, if◌then◌else◌, not,
}
use introspector.Prelude.Dict.{Dict}
use introspector.Outcome.{Outcome, ok, raise, gf_internal, recursion_error, ◌>>=◌}
use introspector.Value.{Value, null, str, arr, dict, no_items, no_members, to_fields}
use introspector.Uri.{Uri, exact, item_of}
use introspector.Delta.Attrs.{MappedAttribute}
use introspector.Delta.Resource.{MappedResource}
use introspector.Delta.Partial.{Partial}
use introspector.MapperFns.Policy.{MapperFn}
use introspector.Mapper.Eval.{find_path, is_string, iterate, members}
use introspector.Mapper.Attrs.{map_provider_attrs, map_custom_attrs}
use introspector.Mapper.Specs.{
  Transform, Transforms, ResourceSpec, SubResourceSpec, PartialSpec, get_or, get_list,
  find_transform, version, is_one, at_least_one, resource_spec, subresource_spec, partial_spec,
  UriFn, partial, keywords, for_each, column_text, args_value, parent_kwargs, uri_args, evaluated,
}

abbrev pub MapResult : Type 0
MapResult = MappedResource Uri × List MappedAttribute

module _ (search : Value → Value → Outcome Value) (fns : Dict MapperFn) where
  unfoldable pub resource_name_of : ResourceSpec → Value → Outcome Value
  unfolding is_string find_path item_of
  resource_name_of spec raw =
      if is_string spec.name then find_path search spec.name raw true else item_of "value" spec.name

  unfoldable pub map_resource_v1 :
      ResourceSpec
      → String
      → UriFn
      → (raw : Value) → (ctx : Dict Value) → Outcome (MappedResource Uri)
  unfolding resource_name_of uri_args keywords column_text to_fields
  map_resource_v1 spec service uri_fn raw ctx = do
    name ← resource_name_of spec raw
    args ← uri_args search spec.uri raw
    kwargs ← keywords args (("service", str service) ∷ ("context", dict (to_fields ctx)) ∷ [])
    uri ← uri_fn kwargs
    provider_type ← column_text spec.provider_type
    category ← column_text spec.category
    ok (record {
      name = name;
      provider_type = provider_type;
      raw = raw;
      uri = uri;
      category = category;
      service = service;
    })

  -- provider_attrs + custom_attrs
  unfoldable pub map_attrs :
      Value → Value → Value → (raw : Value) → (ctx : Dict Value) → Outcome (List MappedAttribute)
  unfolding iterate map_provider_attrs members column_text map_custom_attrs to_fields
  map_attrs provider_spec custom_spec category raw ctx = do
    names ← iterate provider_spec
    provided ← map_provider_attrs search fns names raw
    specs ← members custom_spec
    typ ← column_text category
    custom ← map_custom_attrs search fns specs typ raw (dict (to_fields ctx))
    ok (provided ++ custom)

  unfoldable pub spec_resource_name : ResourceSpec → Value → Value
  spec_resource_name spec resource_name = elim spec.resource_name [ null ↦ resource_name | v ↦ v ]

  unfoldable pub map_spec_v1 :
      String
      → ResourceSpec
      → List Value
      → Dict Value
      → Value
      → UriFn
      → Dict Value
      → Outcome (List MapResult)
  unfolding spec_resource_name keywords get_or for_each map_resource_v1 partial map_attrs
  map_spec_v1 service spec raws ctx resource_name raw_uri_fn kwargs = do
    fixed ← keywords (("resource_name", spec_resource_name spec resource_name) ∷ []) kwargs
    provider_spec ← get_or "provider" (arr no_items) spec.attributes
    custom_spec ← get_or "custom" (dict no_members) spec.attributes
    for_each raws (λ raw. do
      resource ← map_resource_v1 spec service (partial fixed raw_uri_fn) raw ctx
      attrs ← map_attrs provider_spec custom_spec spec.category raw ctx
      ok ((resource, attrs) ∷ []))

  unfoldable pub map_specs :
      Transform
      → Value
      → Dict Value
      → Value
      → UriFn
      → Option (Dict Value)
      → Outcome (List MapResult)
  unfolding get_or iterate for_each resource_spec map_spec_v1 parent_kwargs
  map_specs t raw_list ctx resource_name raw_uri_fn parent_args = do
    found ← get_or "resources" (arr no_items) t.spec
    specs ← iterate found
    for_each specs (λ v. do
      spec ← resource_spec v
      raws ← iterate raw_list
      map_spec_v1 t.service spec raws ctx resource_name raw_uri_fn (parent_kwargs parent_args))

  -- The body of the loop over the subresources, of one element of the response: the list of the
  -- subresources, and the keyword arguments that they get from their parent.
  unfoldable pub subresources_of :
      SubResourceSpec → Option (Dict Value) → Value → Outcome (Value × Dict Value)
  unfolding get_list members evaluated args_value
  subresources_of spec parent_args parent = do
    subresources ← get_list spec.key parent
    specs ← members spec.parent
    params ← evaluated search fns specs parent (args_value parent_args)
    ok (subresources, params)

  -- The loop over the subresources. The body maps the subresources of one parent.
  unfoldable pub each_subresource {ℓ} :
      {B : Type ℓ}
      → Transform
      → Value
      → Option (Dict Value)
      → (Value → Value → Dict Value → Outcome (List B))
      → Outcome (List B)
  unfolding get_or iterate for_each subresource_spec subresources_of
  each_subresource t raw_list parent_args body = do
    found ← get_or "subresources" (arr no_items) t.spec
    subspecs ← iterate found
    for_each subspecs (λ v. do
      spec ← subresource_spec v
      raws ← iterate raw_list
      for_each raws (λ parent. do
        (subresources, params) ← subresources_of spec parent_args parent
        body spec.typ subresources params))

  module _ (transforms : Transforms) (ctx : Dict Value) (service : String) where
    -- `spent` is what a stack without room gives.
    unfoldable pub map_resources_v1 :
        Outcome (List MapResult)
        → ℕ
        → Value
        → Value
        → UriFn
        → Option (Dict Value)
        → Outcome (List MapResult)
    unfolding find_transform version is_one map_specs each_subresource partial
    map_resources_v1 spent zero raw_list resource_name raw_uri_fn parent_args = spent
    map_resources_v1 spent (suc fuel) raw_list resource_name raw_uri_fn parent_args = do
      t ← find_transform transforms service resource_name
      v ← version t
      (if not (is_one v) then raise gf_internal else (do
        own ← map_specs t raw_list ctx resource_name raw_uri_fn parent_args
        below ← each_subresource t raw_list parent_args (λ typ subresources params.
            map_resources_v1 spent fuel subresources typ
              (partial (("resource_name", typ) ∷ []) raw_uri_fn) (some params))
        ok (own ++ below)))

    unfoldable pub map_resources_or :
        Outcome (List MapResult)
        → ℕ
        → Value
        → Value
        → UriFn
        → Option (Dict Value)
        → Outcome (List MapResult)
    unfolding find_transform version at_least_one map_resources_v1
    map_resources_or spent fuel raw_list resource_name raw_uri_fn parent_args = do
      t ← find_transform transforms service resource_name
      v ← version t
      mapped ← at_least_one v
      (if mapped
          then map_resources_v1 spent fuel raw_list resource_name raw_uri_fn parent_args
          else ok [])

    unfoldable pub map_resources :
        ℕ → Value → Value → UriFn → Option (Dict Value) → Outcome (List MapResult)
    unfolding map_resources_or
    map_resources = map_resources_or (raise recursion_error)

    -- target_uri, after `is None` has been raised upon
    unfoldable pub target_of : Uri → Outcome Uri
    target_of (exact null) = raise gf_internal
    target_of uri = ok uri

    unfoldable pub map_partial : PartialSpec → List Value → UriFn → Outcome (List Partial)
    unfolding get_or for_each uri_args keywords target_of map_attrs to_fields
    map_partial spec raws uri_fn = do
      provider_spec ← get_or "provider" (arr no_items) spec.attributes
      custom_spec ← get_or "custom" (dict no_members) spec.attributes
      for_each raws (λ raw. do
        args ← uri_args search spec.uri raw
        kwargs ← keywords args (("service", str service) ∷ ("context", dict (to_fields ctx)) ∷ [])
        uri ← uri_fn kwargs
        target_uri ← target_of uri
        attrs ← map_attrs provider_spec custom_spec null raw ctx
        ok (record { target_uri = target_uri; raw = raw; attrs = attrs } ∷ []))

    unfoldable pub map_partials : Value → UriFn → Value → Outcome (List Partial)
    unfolding find_transform version at_least_one get_or iterate for_each partial_spec map_partial
        partial
    map_partials raw_list raw_uri_fn resource_name = do
      t ← find_transform transforms service resource_name
      v ← version t
      mapped ← at_least_one v
      (if mapped
          then (do
            found ← get_or "partials" (arr no_items) t.spec
            specs ← iterate found
            for_each specs (λ v. do
              spec ← partial_spec v
              raws ← iterate raw_list
              map_partial spec raws (partial (("resource_name", resource_name) ∷ []) raw_uri_fn)))
          else ok [])
