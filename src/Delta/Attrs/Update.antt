-- ===== src/Delta/Attrs/Update.antt =====
-- introspector/delta/attrs.py: `diff_attrs` as a whole.
use mathlib.Core.Path.{subst}
use introspector.Prelude.{
  ℕ, ◌≡◌, refl, ap, inl, inr, String, Bool, true, false, Option, none, some, List, [], ◌∷◌, arith,
  if◌then◌else◌, find, filter, All, All-map, Bool-cases,
}
use introspector.Prelude.Dict.{Dict}
use introspector.Value.{Value}
use introspector.Store.{Db}
use introspector.Store.Tables.{Table}
use introspector.Store.Rows.{ResourceAttribute}
use introspector.Delta.Attrs.{
  MappedAttribute, Scope, in_scope, at_key, find_existing_attr, needs_update, add_delta, sync_attrs,
  diff_attrs,
}
use introspector.Delta.Attrs.Keys.{row_at, value_of, row_at_same, at_key_refl, NodupKeys}
use introspector.Delta.Attrs.WellFormed.{IsWellFormed}
use introspector.Delta.Attrs.Tracking.{IsTracked, DistinctKeys, NodupAttrs, find_mapped}
use introspector.Delta.Attrs.Steps.{left_over}
use introspector.Delta.Attrs.Content.{Settled, sync_attrs-Settled}

module _ (s : Scope) where
  find-in_scope :
      (k : Option String) (n : String) (rs : List ResourceAttribute)
      → find (at_key k n) (filter (in_scope s) rs) ≡ row_at s k n rs
  unfolding row_at
  find-in_scope k n [] = refl
  find-in_scope k n (r ∷ rs) = ground (arith, find-in_scope k n rs)

  abbrev Live : List ResourceAttribute → List ResourceAttribute → Type 0
  Live rs es = All (λ e. row_at s e.attr_type e.name rs ≡ some e) es

  other_key :
      (r e : ResourceAttribute) (rs : List ResourceAttribute)
      → row_at s r.attr_type r.name rs ≡ none
      → row_at s e.attr_type e.name rs ≡ some e
      → at_key e.attr_type e.name r ≡ false
  other_key r e rs once live =
      ground (arith, row_at_same s e.attr_type r.attr_type e.name r.name r rs, at_key_refl r)

  Live-cons :
      (r : ResourceAttribute) (rs es : List ResourceAttribute)
      → (in_scope s r ≡ true → row_at s r.attr_type r.name rs ≡ none)
      → Live rs es
      → Live (r ∷ rs) es
  unfolding row_at
  Live-cons r rs [] once live = tt
  Live-cons r rs (e ∷ es) once (le, live) =
      (ground (arith, le, once, other_key r e rs), Live-cons r rs es once live)

  Live-filter : (rs : List ResourceAttribute) → NodupKeys s rs → Live rs (filter (in_scope s) rs)
  Live-filter [] nk = tt
  Live-filter (r ∷ rs) (once, nk) = elim (Bool-cases (in_scope s r)) [
    | inl in' ↦ rw in' (
      unfold row_at in ground (arith, in', at_key_refl r),
      Live-cons r rs _ once (Live-filter rs nk),
    )
    | inr out ↦ rw out (Live-cons r rs _ once (Live-filter rs nk))
  ]

  DistinctKeys-filter :
      (rs : List ResourceAttribute) → NodupKeys s rs → DistinctKeys (filter (in_scope s) rs)
  DistinctKeys-filter [] nk = tt
  DistinctKeys-filter (r ∷ rs) (once, nk) = elim (Bool-cases (in_scope s r)) [
    | inl in' ↦ rw in' (
      All-map _ _ _ (λ e live. other_key r e rs (once in') live) (Live-filter rs nk),
      DistinctKeys-filter rs nk,
    )
    | inr out ↦ rw out (DistinctKeys-filter rs nk)
  ]

  pub start-IsTracked :
      (attrs : List MappedAttribute) (t : Table ResourceAttribute)
      → IsWellFormed s t
      → IsTracked s attrs (filter (in_scope s) t.rows) t
  unfolding find_existing_attr
  start-IsTracked attrs t wf = record {
    wf = wf;
    live = Live-filter t.rows wf.keys;
    distinct = DistinctKeys-filter t.rows wf.keys;
    cover = covers attrs;
  }
    where
      covers :
          (bs : List MappedAttribute)
          → All
              (λ b.
                find_existing_attr (filter (in_scope s) t.rows) b
                ≡ row_at s b.attr_type b.name t.rows)
              bs
      covers [] = tt
      covers (b ∷ bs) = (find-in_scope b.attr_type b.name t.rows, covers bs)

left_over_same : (o : Option ResourceAttribute) → left_over o (value_of o) ≡ none
left_over_same none = refl
left_over_same (some r) = refl

pick_true {ℓ} :
    {A : Type ℓ} (b : Bool) (x y z : A)
    → ◌≡◌ {A = Bool × A} (if b then (true, x) else (false, y)) (true, z)
    → x ≡ z
pick_true {A} true x y z h = ap (λ (p : Bool × A). p.1) h
pick_true false x y z h = cc

module _ (json_diff : Value → Value → Dict Value) where
  pub diff_attrs-true :
      (s : Scope) (job : ℕ) (previous current : Value) (attrs : List MappedAttribute) (db db' : Db)
      → diff_attrs json_diff s job previous current attrs db ≡ (true, db')
      → sync_attrs json_diff s db.deltas.next attrs
          (filter (in_scope s) db.attributes.rows)
          (add_delta json_diff s job previous current db)
        ≡ db'
  unfolding diff_attrs
  diff_attrs-true s job previous current attrs db db' h =
      pick_true (needs_update json_diff s previous current attrs db.attributes.rows) _ db db' h

  -- Where `diff_attrs` finds a change, the rows of its scope end as the mapper found the attributes:
  -- at a key that the mapper found the stored value is the mapped one, or one that does not differ
  -- from it, and at any other key there is no row. It is assumed that row ids are distinct and below
  -- the sequence, that no two rows of the scope have one key and that the mapper found no key twice.
  pub diff_attrs-Settled :
      (s : Scope) (job : ℕ) (previous current : Value) (attrs : List MappedAttribute) (db db' : Db)
      (k : Option String) (n : String)
      → IsWellFormed s db.attributes
      → NodupAttrs attrs
      → diff_attrs json_diff s job previous current attrs db ≡ (true, db')
      → Settled json_diff (find_mapped k n attrs) none (value_of (row_at s k n db'.attributes.rows))
  unfolding add_delta
  diff_attrs-Settled s job previous current attrs db db' k n wf nd h =
      subst
        (λ (e : Db).
          Settled json_diff (find_mapped k n attrs) none
            (value_of (row_at s k n e.attributes.rows)))
        (diff_attrs-true s job previous current attrs db db' h)
        (rw (find-in_scope s k n db.attributes.rows, left_over_same) at
          (sync_attrs-Settled json_diff s db.deltas.next attrs
            (filter (in_scope s) db.attributes.rows) (add_delta json_diff s job previous current db)
            (start-IsTracked s attrs db.attributes wf) nd k n))
