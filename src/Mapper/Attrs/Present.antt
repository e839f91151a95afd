-- ===== src/Mapper/Attrs/Present.antt =====
-- introspector/mapper.py: where a custom attribute, its value and its type come from.
use introspector.Prelude.{
  All-map, ◌≡◌, ◌≢◌, ◌∙◌, sym, eq_iff, refl, ◌⊎◌, inl, inr, String, Bool, true, false, Option, some,
  List, [], ◌∷◌, ◌++◌, str_eq, if◌then◌else◌, All, All-append, Bool-cases,
}
use mathlib.Core.Path.{subst}
use introspector.Prelude.Dict.{Dict}
use introspector.Outcome.{Outcome, ok, ok-eq, >>=-returns}
use introspector.Value.{Value, null}
use introspector.Store.Removal.{Within}
use introspector.Uri.{is_null}
use introspector.Delta.Attrs.{MappedAttribute}
use introspector.MapperFns.Policy.{MapperFn}
use introspector.Mapper.Eval.{members, value_from_spec}
use introspector.Mapper.Attrs.{typed_attrs, map_custom_attrs}

Within-append :
    {A : Type 0} (y : A) (xs ys : List A) → Within y xs ⊎ Within y ys → Within y (xs ++ ys)
Within-append y [] ys (inl h) = absurd h
Within-append y [] ys (inr h) = h
Within-append y (x ∷ xs) ys (inl (inl here)) = inl here
Within-append y (x ∷ xs) ys (inl (inr later)) = inr (Within-append y xs ys (inl later))
Within-append y (x ∷ xs) ys (inr h) = inr (Within-append y xs ys (inr h))

module _ (search : Value → Value → Outcome Value) (fns : Dict MapperFn) where
  -- An attribute that one of the specifications of a type gives, with a value.
  abbrev pub IsGiven : Dict Value → (raw ctx : Value) → MappedAttribute → Type 0
  IsGiven specs raw ctx a =
      (spec : Value) × Within (a.name, spec) specs
      × (value_from_spec search fns spec raw null ctx ≡ ok a.value)
      × (is_null a.value ≡ false)

  -- An attribute of a specification under the name of its type, or under `_` and of the resource's type.
  abbrev pub IsPresent : Dict Value → Option String → (raw ctx : Value) → MappedAttribute → Type 0
  IsPresent specs category raw ctx a =
      (typ : String) × (v : Value) × (inner : Dict Value) × Within (typ, v) specs
      × (members v ≡ ok inner)
      × IsGiven inner raw ctx a
      × (((typ ≡ "_") × (a.attr_type ≡ category)) ⊎ ((typ ≢ "_") × (a.attr_type ≡ some typ)))

  typed_attrs-IsGiven :
      (typ : Option String) (specs : Dict Value) (raw ctx : Value) (attrs : List MappedAttribute)
      → typed_attrs search fns typ specs raw ctx ≡ ok attrs
      → All (λ a. IsGiven specs raw ctx a × (a.attr_type ≡ typ)) attrs
  unfolding typed_attrs
  typed_attrs-IsGiven typ [] raw ctx attrs h =
      subst (All (λ a. IsGiven [] raw ctx a × (a.attr_type ≡ typ))) (ok-eq [] attrs h) tt
  typed_attrs-IsGiven typ ((name, spec) ∷ specs) raw ctx attrs h =
      let (value, given, later) = >>=-returns (value_from_spec search fns spec raw null ctx) _ h in
      let (rest, found, end) = >>=-returns (typed_attrs search fns typ specs raw ctx) _ later in
      let others =
        All-map (λ a. IsGiven specs raw ctx a × (a.attr_type ≡ typ))
          (λ a. IsGiven ((name, spec) ∷ specs) raw ctx a × (a.attr_type ≡ typ)) rest
          (λ a ((spec', inside, value', there), same). ((spec', inr inside, value', there), same))
          (typed_attrs-IsGiven typ specs raw ctx rest found) in
      subst (All (λ a. IsGiven ((name, spec) ∷ specs) raw ctx a × (a.attr_type ≡ typ)))
        (ok-eq _ attrs end)
        (elim (Bool-cases (is_null value)) [
          | inl missing ↦ rw missing others
          | inr there ↦ rw there (((spec, inl refl, given, there), refl), others)
        ])

  named :
      (typ : String) (category found : Option String)
      → found ≡ (if str_eq typ "_" then category else some typ)
      → ((typ ≡ "_") × (found ≡ category)) ⊎ ((typ ≢ "_") × (found ≡ some typ))
  named typ category found same = elim (Bool-cases (str_eq typ "_")) [
    | inl whole ↦ inl ((eq_iff typ "_").0 whole, (rw whole at same))
    | inr own ↦ inr (λ is. cc (sym ((eq_iff typ "_").1 is) ∙ own), (rw own at same))
  ]

  -- An attribute for each specification that has a value for the response.
  map_custom_attrs-All :
      (specs : Dict Value) (category : Option String) (raw ctx : Value)
      (attrs : List MappedAttribute)
      → map_custom_attrs search fns specs category raw ctx ≡ ok attrs
      → All (IsPresent specs category raw ctx) attrs
  unfolding map_custom_attrs
  map_custom_attrs-All [] category raw ctx attrs h =
      subst (All (IsPresent [] category raw ctx)) (ok-eq [] attrs h) tt
  map_custom_attrs-All ((typ, v) ∷ specs) category raw ctx attrs h =
      let (inner, is, first) = >>=-returns (members v) _ h in
      let own = if str_eq typ "_" then category else some typ in
      let (here, found, later) = >>=-returns (typed_attrs search fns own inner raw ctx) _ first in
      let (rest, found', end) =
        >>=-returns (map_custom_attrs search fns specs category raw ctx) _ later in
      subst (All (IsPresent ((typ, v) ∷ specs) category raw ctx)) (ok-eq _ attrs end) (
        All-append (IsPresent ((typ, v) ∷ specs) category raw ctx) here rest
          (All-map (λ a. IsGiven inner raw ctx a × (a.attr_type ≡ own))
            (IsPresent ((typ, v) ∷ specs) category raw ctx) here
            (λ a (given, same).
              (typ, v, inner, inl refl, is, given, named typ category a.attr_type same))
            (typed_attrs-IsGiven own inner raw ctx here found))
          (All-map (IsPresent specs category raw ctx)
            (IsPresent ((typ, v) ∷ specs) category raw ctx) rest
            (λ a (typ', v', inner', inside, is', given', typed).
              (typ', v', inner', inr inside, is', given', typed))
            (map_custom_attrs-All specs category raw ctx rest found')))

  -- The attribute that a specification asks for has a null as its value, or is among the attributes.
  abbrev pub IsListed :
      Option String → (raw ctx : Value) → List MappedAttribute → String × Value → Type 0
  IsListed typ raw ctx attrs (name, spec) =
      (value : Value) × (value_from_spec search fns spec raw null ctx ≡ ok value)
      × ((is_null value ≡ true)
          ⊎ Within (record { attr_type = typ; name = name; value = value }) attrs)

  -- All that is specified under a name of a type is listed.
  abbrev pub AreListed :
      Option String → (raw ctx : Value) → List MappedAttribute → String × Value → Type 0
  AreListed category raw ctx attrs (typ, v) =
      (inner : Dict Value) × (members v ≡ ok inner)
      × All (IsListed (if str_eq typ "_" then category else some typ) raw ctx attrs) inner

  IsListed-append :
      (typ : Option String) (raw ctx : Value) (xs ys : List MappedAttribute) (q : String × Value)
      → IsListed typ raw ctx xs q ⊎ IsListed typ raw ctx ys q
      → IsListed typ raw ctx (xs ++ ys) q
  IsListed-append typ raw ctx xs ys q (inl (value, given, inl missing)) =
      (value, given, inl missing)
  IsListed-append typ raw ctx xs ys q (inl (value, given, inr there)) =
      (value, given, inr (Within-append _ xs ys (inl there)))
  IsListed-append typ raw ctx xs ys q (inr (value, given, inl missing)) =
      (value, given, inl missing)
  IsListed-append typ raw ctx xs ys q (inr (value, given, inr there)) =
      (value, given, inr (Within-append _ xs ys (inr there)))

  -- The next specification, whose value may be null.
  next-IsListed :
      (missing : Bool) (typ : Option String) (raw ctx : Value) (name : String) (spec value : Value)
      (specs : Dict Value) (rest : List MappedAttribute)
      → is_null value ≡ missing
      → value_from_spec search fns spec raw null ctx ≡ ok value
      → All (IsListed typ raw ctx rest) specs
      → All
          (IsListed typ raw ctx (
            if missing
            then rest
            else record { attr_type = typ; name = name; value = value } ∷ rest))
          ((name, spec) ∷ specs)
  next-IsListed true typ raw ctx name spec value specs rest is given others =
      ((value, given, inl is), others)
  next-IsListed false typ raw ctx name spec value specs rest is given others =
      let here : MappedAttribute = record { attr_type = typ; name = name; value = value } in
      (
        (value, given, inr (inl refl)),
        All-map (IsListed typ raw ctx rest) (IsListed typ raw ctx (here ∷ rest)) specs
            (λ q listed. IsListed-append typ raw ctx (here ∷ []) rest q (inr listed)) others,
      )

  typed_attrs-IsListed :
      (typ : Option String) (specs : Dict Value) (raw ctx : Value) (attrs : List MappedAttribute)
      → typed_attrs search fns typ specs raw ctx ≡ ok attrs
      → All (IsListed typ raw ctx attrs) specs
  unfolding typed_attrs
  typed_attrs-IsListed typ [] raw ctx attrs h = tt
  typed_attrs-IsListed typ ((name, spec) ∷ specs) raw ctx attrs h =
      let (value, given, later) = >>=-returns (value_from_spec search fns spec raw null ctx) _ h in
      let (rest, found, end) = >>=-returns (typed_attrs search fns typ specs raw ctx) _ later in
      subst (λ found. All (IsListed typ raw ctx found) ((name, spec) ∷ specs)) (ok-eq _ attrs end)
        (next-IsListed (is_null value) typ raw ctx name spec value specs rest refl given
          (typed_attrs-IsListed typ specs raw ctx rest found))

  map_custom_attrs-AreListed :
      (specs : Dict Value) (category : Option String) (raw ctx : Value)
      (attrs : List MappedAttribute)
      → map_custom_attrs search fns specs category raw ctx ≡ ok attrs
      → All (AreListed category raw ctx attrs) specs
  unfolding map_custom_attrs
  map_custom_attrs-AreListed [] category raw ctx attrs h = tt
  map_custom_attrs-AreListed ((typ, v) ∷ specs) category raw ctx attrs h =
      let (inner, is, first) = >>=-returns (members v) _ h in
      let own = if str_eq typ "_" then category else some typ in
      let (here, found, later) = >>=-returns (typed_attrs search fns own inner raw ctx) _ first in
      let (rest, found', end) =
        >>=-returns (map_custom_attrs search fns specs category raw ctx) _ later in
      subst (λ found. All (AreListed category raw ctx found) ((typ, v) ∷ specs)) (ok-eq _ attrs end)
        (
          (
            inner,
            is,
            All-map (IsListed own raw ctx here) (IsListed own raw ctx (here ++ rest)) inner
                (λ q listed. IsListed-append own raw ctx here rest q (inl listed))
                (typed_attrs-IsListed own inner raw ctx here found),
          ),
          All-map (AreListed category raw ctx rest) (AreListed category raw ctx (here ++ rest))
              specs
              (λ (typ', v') (inner', is', listed'). (
                inner',
                is',
                All-map _ _ inner' (λ q listed. IsListed-append _ raw ctx here rest q (inr listed))
                    listed',
              ))
              (map_custom_attrs-AreListed specs category raw ctx rest found'),
        )

  -- Where `_map_custom_attrs` returns, every attribute is given by a specification of its name, with the
  -- value that the specification has for the response, which is not null; its type is that of the
  -- resource if the specification is listed under `_`, and otherwise the type that it is listed under.
  -- And every specification has a value for the response, null or that of its attribute.
  pub map_custom_attrs-IsPresent :
      (specs : Dict Value) (category : Option String) (raw ctx : Value)
      (attrs : List MappedAttribute)
      → map_custom_attrs search fns specs category raw ctx ≡ ok attrs
      → All (IsPresent specs category raw ctx) attrs × All (AreListed category raw ctx attrs) specs
  map_custom_attrs-IsPresent specs category raw ctx attrs h = (
    map_custom_attrs-All specs category raw ctx attrs h,
    map_custom_attrs-AreListed specs category raw ctx attrs h,
  )
