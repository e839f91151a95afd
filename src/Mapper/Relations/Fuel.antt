-- ===== src/Mapper/Relations/Fuel.antt =====
-- introspector/mapper.py: the recursion of `map_relations` ends, with the fuel that the response is deep.
use introspector.Prelude.{
  ℕ, zero, suc, ◌<◌, ◌≡◌, refl, ap, inl, inr, String, Option, some, List, [], ◌∷◌, ◌++◌, not, arith,
  Bool-cases,
}
use introspector.Prelude.Dict.{Dict}
use introspector.Outcome.{Outcome, ok, raise, recursion_error, ◌>>=◌}
use introspector.Value.{Value, arr, dict, no_items, no_members}
use introspector.Delta.Relations.{MappedRelation}
use introspector.MapperFns.Policy.{MapperFn}
use introspector.Uri.{get_of}
use introspector.Mapper.Eval.{iterate, members}
use introspector.Mapper.Depth.{depth, for_each-cong, sub_depth, >>=-cong}
use introspector.Mapper.Specs.{
  Transform, Transforms, get_or, get_list, find_transform, version, is_one, at_least_one, UriFn,
  partial, args_value, evaluated, for_each,
}
use introspector.Mapper.Relations.{
  Divisions, map_relation_spec, each_below, map_relations, map_relations_or,
}

module _ (search : Value → Value → Outcome Value) (fns : Dict MapperFn) (divisions : Divisions)
    (path : String) (ctx : Value) where
  -- Two bodies that agree on what is nested less deeply than the response give one result.
  each_below-cong :
      (t : Transform) (raw_list : Value) (parent_args : Option (Dict Value))
      (f g : Value → Value → Dict Value → Outcome (List MappedRelation))
      → ((typ subs : Value) (params : Dict Value)
          → depth subs < depth raw_list
          → f typ subs params ≡ g typ subs params)
      → each_below search fns divisions path ctx t raw_list parent_args f
        ≡ each_below search fns divisions path ctx t raw_list parent_args g
  unfolding each_below
  each_below-cong t raw_list parent_args f g h =
      >>=-cong (get_or "subresources" (arr no_items) t.spec) _ _ (λ found _.
        >>=-cong (iterate found) _ _ (λ subspecs _. for_each-cong subspecs _ _ (λ spec _.
          >>=-cong (get_of "key" spec) _ _ (λ key _. >>=-cong (get_of "type" spec) _ _ (λ typ _.
            >>=-cong (get_or "parent" (dict no_members) spec) _ _ (λ parent_spec _.
              >>=-cong (iterate raw_list) _ _ (λ raws whole.
                for_each-cong raws _ _ (λ parent inside.
                  >>=-cong (get_list key parent) _ _ (λ subs listed.
                    >>=-cong (members parent_spec) _ _ (λ specs _.
                      >>=-cong (evaluated search fns specs parent (args_value parent_args)) _ _
                        (λ params _.
                          h typ subs params
                            (sub_depth raw_list raws parent key subs whole inside listed))))))))))))

  module _ (transforms : Transforms) (service : String) where
    -- Fuel beyond the depth of the response is not spent.
    map_relations_or_lem :
        (spent spent' : Outcome (List MappedRelation)) (m n : ℕ) (raw_list resource_name : Value)
        (raw_uri_fn : UriFn) (parent_args : Option (Dict Value))
        → depth raw_list < m
        → depth raw_list < n
        → map_relations_or search fns divisions path ctx transforms service spent m raw_list
            resource_name raw_uri_fn parent_args
          ≡ map_relations_or search fns divisions path ctx transforms service spent' n raw_list
              resource_name raw_uri_fn parent_args
    unfolding map_relations_or
    map_relations_or_lem spent spent' zero n raw_list resource_name raw_uri_fn parent_args lt lt' =
        absurd (omega (arith, lt))
    map_relations_or_lem spent spent' (suc m) zero raw_list resource_name raw_uri_fn parent_args lt
          lt' =
        absurd (omega (arith, lt'))
    map_relations_or_lem spent spent' (suc m) (suc n) raw_list resource_name raw_uri_fn parent_args
          lt lt' =
        >>=-cong (find_transform transforms service resource_name) _ _ (λ t _.
          >>=-cong (version t) _ _ (λ v _. >>=-cong (at_least_one v) _ _ (λ mapped _.
            elim (Bool-cases (not mapped)) [
              | inl old ↦ rw old refl
              | inr new ↦ elim (Bool-cases (not (is_one v))) [
                | inl other ↦ rw (new, other) refl
                | inr first ↦
                    rw (new, first)
                      (>>=-cong (get_or "resources" (arr no_items) t.spec) _ _ (λ found _.
                        >>=-cong (iterate found) _ _ (λ specs _.
                          >>=-cong
                            (for_each specs (λ spec. iterate raw_list >>= λ raws.
                              map_relation_spec search fns divisions path ctx spec raws
                                resource_name raw_uri_fn parent_args))
                            _ _
                            (λ own _.
                              ap (λ m. m >>= λ below. ok (own ++ below))
                                (each_below-cong t raw_list parent_args _ _ (λ typ subs params less.
                                  map_relations_or_lem spent spent' m n subs typ
                                    (partial (("resource_name", typ) ∷ []) raw_uri_fn) (some params)
                                    (omega (arith, less, lt)) (omega (arith, less, lt'))))))))
              ]
            ])))

    -- `map_relations` ends: with fuel beyond the depth of the response it gives the result that it has
    -- with any such fuel and with anything in place of the error of a stack without room, which is not
    -- reached.
    pub map_relations_lem :
        (spent : Outcome (List MappedRelation)) (m n : ℕ) (raw_list resource_name : Value)
        (raw_uri_fn : UriFn) (parent_args : Option (Dict Value))
        → depth raw_list < m
        → depth raw_list < n
        → map_relations search fns divisions path ctx transforms service m raw_list resource_name
            raw_uri_fn parent_args
          ≡ map_relations_or search fns divisions path ctx transforms service spent n raw_list
              resource_name raw_uri_fn parent_args
    unfolding map_relations
    map_relations_lem spent = map_relations_or_lem (raise recursion_error) spent
