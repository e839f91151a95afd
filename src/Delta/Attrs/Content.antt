-- ===== src/Delta/Attrs/Content.antt =====
-- introspector/delta/attrs.py: what the attribute rows of the scope hold after the two loops.
use introspector.Delta.Attrs.Steps.{
  changed, left_over, drop_attrs_at, change_attr-IsWellFormed, change_attr_at, sync_attrs_miss,
  sync_attrs_hit,
}
use introspector.Prelude.{
  ℕ, ◌≡◌, refl, sym, ◌∙◌, ◌⊎◌, inl, inr, String, Bool, true, false, Option, none, some, List, [],
  ◌∷◌, arith, if◌then◌else◌, find, All, Bool-cases, Option-cases, eq_iff, opt_eq_iff,
}
use introspector.Prelude.Dict.{Dict}
use introspector.Value.{Value}
use introspector.Store.{Db}
use introspector.Store.Rows.{ResourceAttribute}
use introspector.Delta.Attrs.{
  MappedAttribute, Scope, in_scope, at_key, find_existing_attr, forget, attribute_row, differs,
  add_attr, change_attr, sync_attrs,
}
use introspector.Delta.Attrs.Keys.{row_at, value_of, row_at-append, at_key_refl}
use introspector.Delta.Attrs.Tracking.{
  IsTracked, SameKey, NodupAttrs, mapped_at, find_mapped, miss-IsTracked, hit-IsTracked, e_key,
  forget_other, forget_same,
}

find_mapped_absent :
    (k : Option String) (n : String) (a : MappedAttribute) (attrs : List MappedAttribute)
    → mapped_at k n a ≡ true
    → All (λ b. ¬ SameKey a b) attrs
    → find_mapped k n attrs ≡ none
unfolding find_mapped
find_mapped_absent k n a [] here h = refl
find_mapped_absent k n a (b ∷ attrs) here (other, h) = ground (
  arith,
  find_mapped_absent k n a attrs here h,
  other,
  eq_iff a.name n,
  eq_iff b.name n,
  opt_eq_iff a.attr_type k,
  opt_eq_iff b.attr_type k,
)

mapped_key :
    (k : Option String) (n : String) (a : MappedAttribute)
    → mapped_at k n a ≡ true
    → (k ≡ a.attr_type) × (n ≡ a.name)
mapped_key k n a h = ground (arith, eq_iff a.name n, opt_eq_iff a.attr_type k)

mapped_self : (a : MappedAttribute) → mapped_at a.attr_type a.name a ≡ true
mapped_self a = ground (arith, eq_iff a.name a.name, opt_eq_iff a.attr_type a.attr_type)

-- At a key that `a` has not, no row of its key is.
mapped_other :
    (k : Option String) (n : String) (a : MappedAttribute) (e : ResourceAttribute)
    → mapped_at k n a ≡ false
    → at_key a.attr_type a.name e ≡ true
    → at_key k n e ≡ false
unfolding at_key
mapped_other k n a e there h = ground (
  arith,
  eq_iff e.name a.name,
  opt_eq_iff e.attr_type a.attr_type,
  eq_iff e.name n,
  opt_eq_iff e.attr_type k,
  eq_iff a.name n,
  opt_eq_iff a.attr_type k,
)

row_in_scope : (s : Scope) (a : MappedAttribute) (i : ℕ) → in_scope s (attribute_row s a i) ≡ true
unfolding in_scope attribute_row
row_in_scope s a i = ground (arith, eq_iff s.source s.source)

row_at_key :
    (s : Scope) (a : MappedAttribute) (i : ℕ)
    → at_key a.attr_type a.name (attribute_row s a i) ≡ true
unfolding attribute_row
row_at_key s a i = at_key_refl (attribute_row s a i)

module _ (json_diff : Value → Value → Dict Value) where
  -- The value stored at a key, against what the mapper found there: the mapped value, or a value
  -- that does not differ from it; if it found none, `other`.
  abbrev pub Settled : Option MappedAttribute → Option Value → Option Value → Type 0
  Settled (some a) other stored =
      (v : Value) × (stored ≡ some v) × ((v ≡ a.value) ⊎ (differs json_diff v a.value ≡ false))
  Settled none other stored = stored ≡ other

  -- One round of the loop, at the key of `a` and at any other key.
  module _ (s : Scope) (a : MappedAttribute) (attrs : List MappedAttribute)
      (es : List ResourceAttribute) (k : Option String) (n : String) (u stored : Option Value)
      (later : Settled (find_mapped k n attrs) (left_over (find (at_key k n) es) u) stored) where
    round_here :
        (other : Option Value) (v : Value)
        → mapped_at k n a ≡ true
        → All (λ b. ¬ SameKey a b) attrs
        → find (at_key k n) es ≡ none
        → u ≡ some v
        → (v ≡ a.value) ⊎ (differs json_diff v a.value ≡ false)
        → Settled (find_mapped k n (a ∷ attrs)) other stored
    unfolding find_mapped
    round_here other v here fresh gone now good = rw here (v, ended ∙ now, good)
      where
        ended : stored ≡ u
        ended = unfold find_mapped in rw (find_mapped_absent k n a attrs here fresh, gone) at later

    round_there :
        (other : Option Value)
        → mapped_at k n a ≡ false
        → left_over (find (at_key k n) es) u ≡ other
        → Settled (find_mapped k n (a ∷ attrs)) other stored
    unfolding find_mapped
    round_there other there same = rw there (rw same at later)

  module _ (s : Scope) (d : ℕ) where
    add_attr_at :
        (a : MappedAttribute) (db : Db) (k : Option String) (n : String)
        → row_at s k n (add_attr json_diff s d a db).attributes.rows
          ≡ elim (row_at s k n db.attributes.rows) [
            | none ↦
                (if at_key k n (attribute_row s a db.attributes.next)
                  then some (attribute_row s a db.attributes.next)
                  else none)
            | some e ↦ some e
          ]
    unfolding add_attr
    add_attr_at a db k n = ground (
      arith,
      row_at-append s k n db.attributes.rows (attribute_row s a db.attributes.next),
      row_in_scope s a db.attributes.next,
    )

    pub add_attr-IsTracked :
        (a : MappedAttribute) (attrs : List MappedAttribute) (es : List ResourceAttribute) (db : Db)
        → IsTracked s (a ∷ attrs) es db.attributes
        → NodupAttrs (a ∷ attrs)
        → find_existing_attr es a ≡ none
        → IsTracked s attrs es (add_attr json_diff s d a db).attributes
    unfolding add_attr
    add_attr-IsTracked a attrs es db = miss-IsTracked s a attrs es db.attributes

    value_changed :
        (e : ResourceAttribute) (a : MappedAttribute)
        → ((changed json_diff s d e a).value ≡ a.value)
          ⊎ (differs json_diff (changed json_diff s d e a).value a.value ≡ false)
    value_changed e a = value_kept (differs json_diff e.value a.value) refl
      where
        value_kept :
            (b : Bool)
            → differs json_diff e.value a.value ≡ b
            → let v = (if b then record e { value = a.value } else e).value in
              (v ≡ a.value) ⊎ (differs json_diff v a.value ≡ false)
        value_kept true new = inl refl
        value_kept false old = inr old

    key_of_mapped :
        (a : MappedAttribute) (e : ResourceAttribute) (k : Option String) (n : String)
        → mapped_at k n a ≡ true
        → at_key a.attr_type a.name e ≡ true
        → at_key k n e ≡ true
    key_of_mapped a e k n here h = let (pk, pn) = mapped_key k n a here in rw (pk, pn) h

    -- A miss, at the key of `a`.
    miss_gone :
        (a : MappedAttribute) (es : List ResourceAttribute) (k : Option String) (n : String)
        → mapped_at k n a ≡ true
        → find_existing_attr es a ≡ none
        → find (at_key k n) es ≡ none
    unfolding find_existing_attr
    miss_gone a es k n here miss = let (pk, pn) = mapped_key k n a here in rw (pk, pn) miss

    pub miss_now :
        (a : MappedAttribute) (db : Db) (k : Option String) (n : String)
        → mapped_at k n a ≡ true
        → row_at s a.attr_type a.name db.attributes.rows ≡ none
        → value_of (row_at s k n (add_attr json_diff s d a db).attributes.rows) ≡ some a.value
    unfolding attribute_row
    miss_now a db k n here empty =
        let (pk, pn) = mapped_key k n a here in
        rw (pk, pn, add_attr_at a db, empty, row_at_key s a db.attributes.next) refl

    -- A miss, at any other key.
    pub miss_other :
        (a : MappedAttribute) (db : Db) (k : Option String) (n : String)
        → mapped_at k n a ≡ false
        → row_at s k n (add_attr json_diff s d a db).attributes.rows
          ≡ row_at s k n db.attributes.rows
    miss_other a db k n there = ground (
      arith,
      add_attr_at a db k n,
      row_at_key s a db.attributes.next,
      mapped_other k n a (attribute_row s a db.attributes.next) there,
    )

    -- From a tracked state, each key ends with what the mapper found there.
    pub sync_attrs-Settled :
        (attrs : List MappedAttribute) (es : List ResourceAttribute) (db : Db)
        → IsTracked s attrs es db.attributes
        → NodupAttrs attrs
        → (k : Option String) (n : String)
        → Settled
            (find_mapped k n attrs)
            (left_over (find (at_key k n) es) (value_of (row_at s k n db.attributes.rows)))
            (value_of (row_at s k n (sync_attrs json_diff s d attrs es db).attributes.rows))
    unfolding find_mapped
    sync_attrs-Settled [] es db tr nd k n =
        unfold sync_attrs in
        rw (drop_attrs_at json_diff s d k n es db tr.wf tr.live tr.distinct) (ground arith)
    sync_attrs-Settled (a ∷ attrs) es db tr nd k n = elim (Option-cases (find_existing_attr es a)) [
      | inl miss ↦
          let later =
            sync_attrs-Settled attrs es (add_attr json_diff s d a db)
              (add_attr-IsTracked a attrs es db tr nd miss) nd.1 k n in
          rw (sync_attrs_miss json_diff s d a attrs es db miss)
            (elim (Bool-cases (mapped_at k n a)) [
              | inl here ↦
                  round_here s a attrs es k n _ _ later _ a.value here nd.0
                    (miss_gone a es k n here miss) (miss_now a db k n here (sym tr.cover.0 ∙ miss))
                    (inl refl)
              | inr there ↦
                  round_there s a attrs es k n _ _ later _ there (rw (miss_other a db k n there))
            ])
      | inr (e, hit) ↦
          let after = change_attr_at json_diff s d e a db tr.wf (sym tr.cover.0 ∙ hit) in
          let wf = change_attr-IsWellFormed json_diff s d e a db tr.wf in
          let u = (change_attr json_diff s d e a db).attributes in
          let later =
            sync_attrs-Settled attrs (forget e es) (change_attr json_diff s d e a db)
              (hit-IsTracked s a attrs es db.attributes u e (changed json_diff s d e a) tr hit wf
                after nd)
              nd.1 k n in
          let key =
            e_key s a attrs es db.attributes u e (changed json_diff s d e a) tr hit wf after in
          rw (sync_attrs_hit json_diff s d a attrs es db e hit)
            (elim (Bool-cases (mapped_at k n a)) [
              | inl here ↦
                  let same = key_of_mapped a e k n here key in
                  round_here s a attrs (forget e es) k n _ _ later _
                    (changed json_diff s d e a).value here nd.0
                    (forget_same s a attrs es db.attributes u e (changed json_diff s d e a) tr hit
                      wf after k n same)
                    (rw (after k n, same)) (value_changed e a)
              | inr there ↦
                  let other = mapped_other k n a e there key in
                  round_there s a attrs (forget e es) k n _ _ later _ there (
                    rw (
                      forget_other s a attrs es db.attributes u e (changed json_diff s d e a) tr hit
                          wf after k n other,
                      after k n,
                      other,
                    ))
            ])
    ]
