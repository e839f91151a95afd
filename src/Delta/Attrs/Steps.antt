-- ===== src/Delta/Attrs/Steps.antt =====
-- introspector/delta/attrs.py: what one step of the two loops does to the rows of the scope.
use introspector.Prelude.{
  ℕ, ◌≡◌, refl, ◌∙◌, inl, inr, String, true, false, Option, none, some, List, [], ◌∷◌, arith,
  if◌then◌else◌, find, All, Bool-cases,
}
use introspector.Prelude.Dict.{Dict}
use introspector.Value.{Value}
use introspector.Store.{Db}
use introspector.Store.Rows.{ResourceAttribute}
use introspector.Delta.Attrs.{
  MappedAttribute, Scope, in_scope, at_key, find_existing_attr, forget, differs, add_attr,
  change_attr, drop_attr, drop_attrs, sync_attrs,
}
use introspector.Delta.Attrs.Keys.{
  hits, row_at, find-true, row_at-update, row_at-delete, row_at_same,
}
use introspector.Delta.Attrs.WellFormed.{IsWellFormed, update-IsWellFormed, delete-IsWellFormed}
use introspector.Delta.Attrs.Tracking.{DistinctKeys}

abbrev pub left_over {ℓ} : {A : Type ℓ} → Option ResourceAttribute → Option A → Option A
left_over (some e) v = none
left_over none v = v

module _ (json_diff : Value → Value → Dict Value) where
  module _ (s : Scope) (d : ℕ) where
    pub drop_attr_at :
        (e : ResourceAttribute) (db : Db)
        → IsWellFormed s db.attributes
        → row_at s e.attr_type e.name db.attributes.rows ≡ some e
        → (k : Option String) (n : String)
        → row_at s k n (drop_attr json_diff s d e db).attributes.rows
          ≡ (if at_key k n e then none else row_at s k n db.attributes.rows)
    unfolding drop_attr
    drop_attr_at e db wf le k n =
        row_at-delete s e.attr_type k e.name n e db.attributes.rows wf.ids wf.keys le

    pub drop_attr-IsWellFormed :
        (e : ResourceAttribute) (db : Db)
        → IsWellFormed s db.attributes
        → IsWellFormed s (drop_attr json_diff s d e db).attributes
    unfolding drop_attr
    drop_attr-IsWellFormed e db wf = delete-IsWellFormed s e.id db.attributes wf

    -- The other rows to drop are still there.
    pub drop_attr_live :
        (e : ResourceAttribute) (db : Db) (xs : List ResourceAttribute)
        → IsWellFormed s db.attributes
        → row_at s e.attr_type e.name db.attributes.rows ≡ some e
        → All (λ x. row_at s x.attr_type x.name db.attributes.rows ≡ some x) xs
        → All (λ x. at_key x.attr_type x.name e ≡ false) xs
        → All
            (λ x.
              row_at s x.attr_type x.name (drop_attr json_diff s d e db).attributes.rows ≡ some x)
            xs
    drop_attr_live e db [] wf le h f = tt
    drop_attr_live e db (x ∷ xs) wf le (lx, h) (fx, f) = (
      ground (arith, drop_attr_at e db wf le x.attr_type x.name),
      drop_attr_live e db xs wf le h f,
    )

    pub drop_attrs_at :
        (k : Option String) (n : String) (es : List ResourceAttribute) (db : Db)
        → IsWellFormed s db.attributes
        → All (λ e. row_at s e.attr_type e.name db.attributes.rows ≡ some e) es
        → DistinctKeys es
        → row_at s k n (drop_attrs json_diff s d es db).attributes.rows
          ≡ left_over (find (at_key k n) es) (row_at s k n db.attributes.rows)
    unfolding drop_attrs
    drop_attrs_at k n [] db wf live distinct = refl
    drop_attrs_at k n (e ∷ es) db wf (le, live) (fresh, distinct) = ground (
      arith,
      drop_attrs_at k n es (drop_attr json_diff s d e db) (drop_attr-IsWellFormed e db wf)
          (drop_attr_live e db es wf le live fresh) distinct,
      drop_attr_at e db wf le k n,
    )

    -- `change_attr` is seen at the key of the row only.
    pub change_attr-IsWellFormed :
        (e : ResourceAttribute) (a : MappedAttribute) (db : Db)
        → IsWellFormed s db.attributes
        → IsWellFormed s (change_attr json_diff s d e a db).attributes
    unfolding change_attr in_scope at_key
    change_attr-IsWellFormed e a db wf = elim (Bool-cases (differs json_diff e.value a.value)) [
      | inl new ↦ rw new (
          update-IsWellFormed s (λ r. record r { value = a.value }) (λ r. refl) (λ r. refl)
            (λ r. refl) (λ r. refl) (λ k n r. refl) e.id db.attributes wf)
      | inr old ↦ rw old wf
    ]

    abbrev pub changed : ResourceAttribute → MappedAttribute → ResourceAttribute
    changed e a = if differs json_diff e.value a.value then record e { value = a.value } else e

    scope_kept :
        (e : ResourceAttribute) (v : Value) → in_scope s (record e { value = v }) ≡ in_scope s e
    unfolding in_scope
    scope_kept e v = refl

    key_kept :
        (e : ResourceAttribute) (v : Value) (k : Option String) (n : String)
        → at_key k n (record e { value = v }) ≡ at_key k n e
    unfolding at_key
    key_kept e v k n = refl

    pub change_attr_at :
        (e : ResourceAttribute) (a : MappedAttribute) (db : Db)
        → IsWellFormed s db.attributes
        → row_at s a.attr_type a.name db.attributes.rows ≡ some e
        → (k : Option String) (n : String)
        → row_at s k n (change_attr json_diff s d e a db).attributes.rows
          ≡ (if at_key k n e then some (changed e a) else row_at s k n db.attributes.rows)
    unfolding change_attr row_at
    change_attr_at e a db wf found k n = elim (Bool-cases (differs json_diff e.value a.value)) [
      | inl new ↦ rw new (
          row_at-update (λ r. record r { value = a.value }) s a.attr_type k a.name n e
            db.attributes.rows (scope_kept e a.value ∙ in_scope_found)
            (λ k n. key_kept e a.value k n) wf.ids found)
      | inr old ↦
          rw old
            (ground (arith, row_at_same s k a.attr_type n a.name e db.attributes.rows, e_at_key))
    ]
      where
        e_hits : hits s a.attr_type a.name e ≡ true
        e_hits = find-true (hits s a.attr_type a.name) db.attributes.rows e found

        in_scope_found : in_scope s e ≡ true
        in_scope_found = ground (arith, e_hits)

        e_at_key : at_key a.attr_type a.name e ≡ true
        e_at_key = ground (arith, e_hits)

    pub sync_attrs_miss :
        (a : MappedAttribute) (attrs : List MappedAttribute) (es : List ResourceAttribute) (db : Db)
        → find_existing_attr es a ≡ none
        → sync_attrs json_diff s d (a ∷ attrs) es db
          ≡ sync_attrs json_diff s d attrs es (add_attr json_diff s d a db)
    unfolding sync_attrs
    sync_attrs_miss a attrs es db h = ground arith

    pub sync_attrs_hit :
        (a : MappedAttribute) (attrs : List MappedAttribute) (es : List ResourceAttribute) (db : Db)
        (e : ResourceAttribute)
        → find_existing_attr es a ≡ some e
        → sync_attrs json_diff s d (a ∷ attrs) es db
          ≡ sync_attrs json_diff s d attrs (forget e es) (change_attr json_diff s d e a db)
    unfolding sync_attrs
    sync_attrs_hit a attrs es db e h = ground arith
