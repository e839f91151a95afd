-- ===== src/Mapper/Resources/Fuel.antt =====
-- introspector/mapper.py: the recursion of `map_resources` ends, with the fuel that the response is deep.
use introspector.Outcome.{ok-eq, Outcome, ok, ◌>>=◌, >>=-returns}
use introspector.Prelude.{
  ℕ, zero, suc, ◌<◌, ◌≡◌, refl, ◌∙◌, ap, inl, inr, String, Option, some, List, [], ◌∷◌, ◌++◌, not,
  if◌then◌else◌, arith, Bool-cases,
}
use introspector.Prelude.Dict.{Dict}
use introspector.Value.{Value, arr, no_items}
use introspector.Store.Removal.{Within}
use introspector.MapperFns.Policy.{MapperFn}
use introspector.Mapper.Eval.{iterate, members}
use introspector.Mapper.Depth.{depth, for_each-cong, sub_depth, >>=-cong}
use introspector.Mapper.Specs.{
  Transform, Transforms, SubResourceSpec, get_or, get_list, find_transform, version, is_one,
  at_least_one, subresource_spec, UriFn, partial, args_value, evaluated,
}
use introspector.Mapper.Resources.{
  map_specs, subresources_of, each_subresource, map_resources_v1, map_resources, map_resources_or,
  MapResult,
}

module _ (search : Value → Value → Outcome Value) (fns : Dict MapperFn) where
  subresources_of_lem :
      (spec : SubResourceSpec) (parent_args : Option (Dict Value)) (parent subs : Value)
      (params : Dict Value)
      → subresources_of search fns spec parent_args parent ≡ ok (subs, params)
      → get_list spec.key parent ≡ ok subs
  unfolding subresources_of
  subresources_of_lem spec parent_args parent subs params h =
      let (found, listed, rest) = >>=-returns (get_list spec.key parent) _ h in
      let (specs, _, rest') = >>=-returns (members spec.parent) _ rest in
      let (kwargs, _, end) =
        >>=-returns (evaluated search fns specs parent (args_value parent_args)) _ rest' in
      listed ∙ ap (λ (q : Value × Dict Value). ok q.0) (ok-eq _ _ end)

  -- Two bodies that agree on what is nested less deeply than the response give one result.
  each_subresource-cong {ℓ} :
      {B : Type ℓ} (t : Transform) (raw_list : Value) (parent_args : Option (Dict Value))
      (f g : Value → Value → Dict Value → Outcome (List B))
      → ((typ subs : Value) (params : Dict Value)
          → depth subs < depth raw_list
          → f typ subs params ≡ g typ subs params)
      → each_subresource search fns t raw_list parent_args f
        ≡ each_subresource search fns t raw_list parent_args g
  unfolding each_subresource subresources_of
  each_subresource-cong t raw_list parent_args f g h =
      >>=-cong (get_or "subresources" (arr no_items) t.spec) _ _ (λ found _.
        >>=-cong (iterate found) _ _ (λ subspecs _. for_each-cong subspecs _ _ (λ v _.
          >>=-cong (subresource_spec v) _ _ (λ spec _.
            >>=-cong (iterate raw_list) _ _ (λ raws whole.
              for_each-cong raws _ _ (λ parent inside. one spec parent raws whole inside))))))
    where
      one :
          (spec : SubResourceSpec) (parent : Value) (raws : List Value)
          → iterate raw_list ≡ ok raws
          → Within parent raws
          → (subresources_of search fns spec parent_args parent >>= λ q. f spec.typ q.0 q.1)
            ≡ (subresources_of search fns spec parent_args parent >>= λ q. g spec.typ q.0 q.1)
      one spec parent raws whole inside =
          >>=-cong (subresources_of search fns spec parent_args parent) _ _ (λ q known.
            h spec.typ q.0 q.1 (
              sub_depth raw_list raws parent spec.key q.0 whole inside
                (subresources_of_lem spec parent_args parent q.0 q.1 known)))

  module _ (transforms : Transforms) (ctx : Dict Value) (service : String) where
    -- Fuel beyond the depth of the response is not spent.
    map_resources_v1_lem :
        (spent spent' : Outcome (List MapResult)) (m n : ℕ) (raw_list resource_name : Value)
        (raw_uri_fn : UriFn) (parent_args : Option (Dict Value))
        → depth raw_list < m
        → depth raw_list < n
        → map_resources_v1 search fns transforms ctx service spent m raw_list resource_name
            raw_uri_fn parent_args
          ≡ map_resources_v1 search fns transforms ctx service spent' n raw_list resource_name
              raw_uri_fn parent_args
    unfolding map_resources_v1
    map_resources_v1_lem spent spent' zero n raw_list resource_name raw_uri_fn parent_args lt lt' =
        absurd (omega (arith, lt))
    map_resources_v1_lem spent spent' (suc m) zero raw_list resource_name raw_uri_fn parent_args lt
          lt' =
        absurd (omega (arith, lt'))
    map_resources_v1_lem spent spent' (suc m) (suc n) raw_list resource_name raw_uri_fn parent_args
          lt lt' =
        >>=-cong (find_transform transforms service resource_name) _ _ (λ t _.
          >>=-cong (version t) _ _ (λ v _. elim (Bool-cases (not (is_one v))) [
            | inl other ↦ rw other refl
            | inr first ↦ rw first (
                >>=-cong (map_specs search fns t raw_list ctx resource_name raw_uri_fn parent_args)
                  _ _
                  (λ own _.
                    ap (λ m. m >>= λ below. ok (own ++ below))
                      (each_subresource-cong t raw_list parent_args _ _ (λ typ subs params less.
                        map_resources_v1_lem spent spent' m n subs typ
                          (partial (("resource_name", typ) ∷ []) raw_uri_fn) (some params)
                          (omega (arith, less, lt)) (omega (arith, less, lt'))))))
          ]))

    -- `map_resources` ends: with fuel beyond the depth of the response it gives the result that it has
    -- with any such fuel and with anything in place of the error of a stack without room, which is not
    -- reached.
    pub map_resources_lem :
        (spent : Outcome (List MapResult)) (m n : ℕ) (raw_list resource_name : Value)
        (raw_uri_fn : UriFn) (parent_args : Option (Dict Value))
        → depth raw_list < m
        → depth raw_list < n
        → map_resources search fns transforms ctx service m raw_list resource_name raw_uri_fn
            parent_args
          ≡ map_resources_or search fns transforms ctx service spent n raw_list resource_name
              raw_uri_fn parent_args
    unfolding map_resources map_resources_or
    map_resources_lem spent m n raw_list resource_name raw_uri_fn parent_args lt lt' =
        ap
          (λ result. find_transform transforms service resource_name >>= λ t.
            version t >>= λ v. at_least_one v >>= λ mapped. if mapped then result else ok [])
          (map_resources_v1_lem _ spent m n raw_list resource_name raw_uri_fn parent_args lt lt')
