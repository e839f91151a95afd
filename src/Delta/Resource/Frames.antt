-- ===== src/Delta/Resource/Frames.antt =====
-- introspector/delta/resource.py: what the attributes' part of an import leaves as it is, the resources
-- and the raw documents.
use introspector.Prelude.{
  ℕ, ◌≡◌, refl, sym, ◌∙◌, ap, ◌⊎◌, inl, inr, true, false, List, [], ◌∷◌, arith, filter, Bool-cases,
  Option-cases,
}
use introspector.Prelude.Dict.{Dict}
use introspector.Outcome.{ok}
use introspector.Value.{Value}
use introspector.Store.{Db}
use introspector.Store.Rows.{ResourceAttribute}
use introspector.Delta.Attrs.{
  in_scope, add_delta, MappedAttribute, Scope, differs, find_existing_attr, forget, add_attr,
  change_attr, drop_attr, drop_attrs, sync_attrs, needs_update, diff_attrs,
}
use introspector.Delta.Attrs.Steps.{sync_attrs_miss, sync_attrs_hit}
use introspector.Delta.Resource.{add_attrs}

-- The resources and the raw documents of one database are those of another.
pub record SameRaws (db db' : Db) : Type 0 where
  pub resources : db'.resources ≡ db.resources
  pub raws : db'.raws ≡ db.raws

pub SameRaws-trans : {a b c : Db} → SameRaws a b → SameRaws b c → SameRaws a c
SameRaws-trans h k = record { resources = k.resources ∙ h.resources; raws = k.raws ∙ h.raws }

pub SameRaws-ends : {a b c d : Db} → a ≡ b → c ≡ d → SameRaws b c → SameRaws a d
SameRaws-ends first last k = record {
  resources =
      ap (λ (x : Db). x.resources) (sym last)
      ∙ (k.resources ∙ ap (λ (x : Db). x.resources) (sym first));
  raws = ap (λ (x : Db). x.raws) (sym last) ∙ (k.raws ∙ ap (λ (x : Db). x.raws) (sym first));
}

pub ok-injective {ℓ} : {A : Type ℓ} (a b : A) → ok a ≡ ok b → a ≡ b
ok-injective a b h = cc

module _ (json_diff : Value → Value → Dict Value) (s : Scope) (d : ℕ) where
  add_attr-SameRaws : (a : MappedAttribute) (db : Db) → SameRaws db (add_attr json_diff s d a db)
  unfolding add_attr
  add_attr-SameRaws a db = record { resources = refl; raws = refl }

  change_attr-SameRaws :
      (e : ResourceAttribute) (a : MappedAttribute) (db : Db)
      → SameRaws db (change_attr json_diff s d e a db)
  unfolding change_attr
  change_attr-SameRaws e a db = elim (Bool-cases (differs json_diff e.value a.value)) [
    | inl new ↦ rw new (record { resources = refl; raws = refl })
    | inr old ↦ rw old (record { resources = refl; raws = refl })
  ]

  drop_attrs-SameRaws :
      (es : List ResourceAttribute) (db : Db) → SameRaws db (drop_attrs json_diff s d es db)
  unfolding drop_attrs drop_attr
  drop_attrs-SameRaws [] db = record { resources = refl; raws = refl }
  drop_attrs-SameRaws (e ∷ es) db =
      let k = drop_attrs-SameRaws es (drop_attr json_diff s d e db) in
      record { resources = k.resources; raws = k.raws }

  sync_attrs-SameRaws :
      (attrs : List MappedAttribute) (es : List ResourceAttribute) (db : Db)
      → SameRaws db (sync_attrs json_diff s d attrs es db)
  sync_attrs-SameRaws [] es db = unfold sync_attrs in drop_attrs-SameRaws es db
  sync_attrs-SameRaws (a ∷ attrs) es db = elim (Option-cases (find_existing_attr es a)) [
    | inl miss ↦
        rw (sync_attrs_miss json_diff s d a attrs es db miss)
          (SameRaws-trans (add_attr-SameRaws a db) (sync_attrs-SameRaws attrs es _))
    | inr (e, hit) ↦
        rw (sync_attrs_hit json_diff s d a attrs es db e hit)
          (SameRaws-trans (change_attr-SameRaws e a db) (sync_attrs-SameRaws attrs (forget e es) _))
  ]

  pub add_attrs-SameRaws :
      (attrs : List MappedAttribute) (db : Db) → SameRaws db (add_attrs json_diff s d attrs db)
  unfolding add_attrs
  add_attrs-SameRaws [] db = record { resources = refl; raws = refl }
  add_attrs-SameRaws (a ∷ attrs) db =
      SameRaws-trans (add_attr-SameRaws a db) (add_attrs-SameRaws attrs _)

module _ (json_diff : Value → Value → Dict Value) where
  -- `diff_attrs` leaves the resources and the raw documents, and where it finds no change the documents
  -- do not differ.
  pub diff_attrs-cases :
      (s : Scope) (job : ℕ) (previous current : Value) (attrs : List MappedAttribute) (db : Db)
      → ((db' : Db) × (diff_attrs json_diff s job previous current attrs db ≡ (true, db'))
          × SameRaws db db')
        ⊎ ((diff_attrs json_diff s job previous current attrs db ≡ (false, db))
            × (differs json_diff previous current ≡ false))
  unfolding diff_attrs
  diff_attrs-cases s job previous current attrs db =
      elim (Bool-cases (needs_update json_diff s previous current attrs db.attributes.rows)) [
        | inl new ↦
            let k =
              sync_attrs-SameRaws json_diff s db.deltas.next attrs
                (filter (in_scope s) db.attributes.rows)
                (add_delta json_diff s job previous current db) in
            inl (
              sync_attrs json_diff s db.deltas.next attrs (filter (in_scope s) db.attributes.rows)
                  (add_delta json_diff s job previous current db),
              rw new refl,
              same db k,
            )
        | inr old ↦ inr (rw old refl, no_change old)
      ]
    where
      same :
          (db : Db) {db' : Db}
          → SameRaws (add_delta json_diff s job previous current db) db'
          → SameRaws db db'
      same db k = unfold add_delta in record { resources = k.resources; raws = k.raws }

      no_change :
          needs_update json_diff s previous current attrs db.attributes.rows ≡ false
          → differs json_diff previous current ≡ false
      no_change old = unfold needs_update in ground (arith, old)
