-- ===== src/Delta/Relations/Logs.antt =====
-- introspector/delta/resource.py: where `_apply_relation` fails on a relation that is stored, and what
-- it logs of its attributes.
use introspector.Prelude.{
  map, ◌∙◌, true, sym, filter-append, ◌+◌, any, arith, ◌==◌, ℕ, ◌≡◌, refl, ap, inl, inr, String,
  Bool, false, not, none, some, List, [], ◌∷◌, filter, find, is_empty, Bool-cases, Option-cases,
}
use introspector.Store.Rows.{
  related, RelationAttributeChange, ResourceRelationAttributeDelta, ChangeType, ImportJob,
  ResourceRelation, ResourceRelationAttribute,
}
use introspector.Delta.Deletes.{log_relation}
use introspector.Store.Tables.{insert, Table}
use introspector.Outcome.{>>=-returns, ok-eq, raise_ok, ok, raise, type_error}
use introspector.Delta.Relations.Apply.{
  first_relation, set_relation_raw, drop_relation_attrs, add_relation_attrs, log_new_attrs,
  add_relation, log_relation_attr, same_ends, is_relation, is_named, attrs_of, change_relation_attr,
  sync_relation_attrs, later_relation, apply_relation,
}
use introspector.Delta.Relations.Stored.{sync_miss, sync_hit}
use mathlib.Core.List.{append-nil}
use mathlib.Core.Path.{subst}
use introspector.Prelude.Dict.{Dict}
use introspector.Value.{Value}
use introspector.Store.{Db}
use introspector.Store.Removal.{Within}
use introspector.Delta.Resource.{one_or_none}

find-none-filter :
    (name : String) (p : ResourceRelationAttribute → Bool) (es : List ResourceRelationAttribute)
    → find (is_named name) es ≡ none
    → find (is_named name) (filter p es) ≡ none
find-none-filter name p [] h = refl
find-none-filter name p (e ∷ es) h = elim (Bool-cases (is_named name e)) [
  | inl here ↦ ground (arith, here, h)
  | inr not_here ↦ elim (Bool-cases (p e)) [
    | inl kept ↦ rw (kept, not_here) (find-none-filter name p es (rw not_here at h))
    | inr gone ↦ rw gone (find-none-filter name p es (rw not_here at h))
  ]
]

module _ (json_diff : Value → Value → Dict Value) where
  sync_relation_attrs-fails :
      (job : ImportJob) (d : ℕ) (name : String) (value : Value) (attrs : Dict Value)
      (es : List ResourceRelationAttribute) (db : Db)
      → Within (name, value) attrs
      → find (is_named name) es ≡ none
      → sync_relation_attrs json_diff job d attrs es db ≡ raise type_error
  unfolding sync_relation_attrs
  sync_relation_attrs-fails job d name value [] es db w miss = absurd w
  sync_relation_attrs-fails job d name value ((n, v) ∷ attrs) es db (inl here) miss =
      let miss' =
        subst (λ m. find (is_named m) es ≡ none) (ap (λ (q : String × Value). q.0) here) miss in
      rw (sync_relation_attrs, miss') refl
  sync_relation_attrs-fails job d name value ((n, v) ∷ attrs) es db (inr later) miss =
      elim (Option-cases (find (is_named n) es)) [
        | inl none' ↦ rw (sync_relation_attrs, none') refl
        | inr (e, hit) ↦
            rw (sync_relation_attrs, hit)
              (sync_relation_attrs-fails job d name value attrs
                (filter (λ a. not (a.id == e.id)) es) (change_relation_attr json_diff job d e v db)
                later (find-none-filter name (λ a. not (a.id == e.id)) es miss))
      ]

  -- `_apply_relation` raises a `TypeError` where the stored relation differs from the new one, and the
  -- new one has an attribute whose name none of the stored attributes of the relation has.
  pub apply_relation-fails :
      (job : ImportJob) (x p : ResourceRelation) (parent_uri target_uri : String)
      (attrs : Dict Value) (db : Db) (name : String) (value : Value)
      → one_or_none (
          filter
            (is_relation job.provider_account_id x.relation parent_uri target_uri db.resources.rows)
            db.relations.rows)
        ≡ ok (some p)
      → is_empty (json_diff p.raw x.raw) ≡ false
      → Within (name, value) attrs
      → find (is_named name) (attrs_of p.id db) ≡ none
      → apply_relation json_diff job x parent_uri target_uri attrs db ≡ raise type_error
  unfolding apply_relation later_relation
  apply_relation-fails job x p parent_uri target_uri attrs db name value query new w miss =
      rw
        (
          query,
          new,
          sync_relation_attrs-fails job db.relation_deltas.next name value attrs (attrs_of p.id db)
              _ w miss,
        )
        refl

abbrev pub is_deletion : ChangeType → Bool
is_deletion ChangeType.delete = true
is_deletion _ = false

-- The log of the deleted attributes of relations.
abbrev pub deletions : Db → List ResourceRelationAttributeDelta
deletions db = filter (λ d. is_deletion d.change_type) db.relation_attribute_deltas.rows

log_relation_attr-deletions :
    (job : ImportJob) (d i : ℕ) (change : ChangeType) (details : RelationAttributeChange) (db : Db)
    → is_deletion change ≡ false
    → deletions (log_relation_attr job d i change details db) ≡ deletions db
unfolding log_relation_attr insert
log_relation_attr-deletions job d i change details db other =
    filter-append (λ x. is_deletion x.change_type) db.relation_attribute_deltas.rows _
    ∙ rw other (append-nil (deletions db))

add_relation-logs :
    (x : ResourceRelation) (db db' : Db)
    → add_relation x db ≡ ok db'
    → db'.relation_attribute_deltas ≡ db.relation_attribute_deltas
unfolding add_relation
add_relation-logs x db db' h = elim (Bool-cases (any (same_ends x) db.relations.rows)) [
  | inl there ↦ absurd (raise_ok (rw there at h))
  | inr fresh ↦ ap (λ (d : Db). d.relation_attribute_deltas) (sym (ok-eq _ _ (rw fresh at h)))
]

log_new_attrs-deletions :
    (job : ImportJob) (d i : ℕ) (attrs : Dict Value) (db : Db)
    → deletions (log_new_attrs job d i attrs db) ≡ deletions db
unfolding log_new_attrs
log_new_attrs-deletions job d i [] db = refl
log_new_attrs-deletions job d i ((name, value) ∷ attrs) db =
    log_new_attrs-deletions job d (i + 1) attrs _
    ∙ log_relation_attr-deletions job d i ChangeType.add
        (RelationAttributeChange.current name value) db refl

add_relation_attrs-deletions :
    (job : ImportJob) (i : ℕ) (attrs : Dict Value) (db : Db)
    → deletions (add_relation_attrs job i attrs db) ≡ deletions db
unfolding add_relation_attrs
add_relation_attrs-deletions job i [] db = refl
add_relation_attrs-deletions job i ((name, value) ∷ attrs) db =
    add_relation_attrs-deletions job i attrs _

module _ (json_diff : Value → Value → Dict Value) where
  drop_relation_attrs-deletions :
      (es : List ResourceRelationAttribute) (db : Db)
      → deletions (drop_relation_attrs json_diff es db) ≡ deletions db
  unfolding drop_relation_attrs
  drop_relation_attrs-deletions [] db = refl
  drop_relation_attrs-deletions (e ∷ es) db = drop_relation_attrs-deletions es _

  change_relation_attr-deletions :
      (job : ImportJob) (d : ℕ) (e : ResourceRelationAttribute) (value : Value) (db : Db)
      → deletions (change_relation_attr json_diff job d e value db) ≡ deletions db
  unfolding change_relation_attr
  change_relation_attr-deletions job d e value db =
      elim (Bool-cases (is_empty (json_diff e.value value))) [
        | inl same ↦ rw same refl
        | inr new ↦ rw new (
            log_relation_attr-deletions job d e.id ChangeType.update
              (RelationAttributeChange.replaced e.name e.value value (json_diff e.value value)) db
              refl)
      ]

  sync_relation_attrs-deletions :
      (job : ImportJob) (d : ℕ) (attrs : Dict Value) (es : List ResourceRelationAttribute)
      (db db' : Db)
      → sync_relation_attrs json_diff job d attrs es db ≡ ok db'
      → deletions db' ≡ deletions db
  unfolding sync_relation_attrs
  sync_relation_attrs-deletions job d [] es db db' h =
      ap (λ (x : Db). deletions x) (sym (ok-eq _ _ h)) ∙ drop_relation_attrs-deletions es db
  sync_relation_attrs-deletions job d ((name, value) ∷ attrs) es db db' h =
      elim (Option-cases (find (is_named name) es)) [
        | inl miss ↦
            absurd (raise_ok (sym (sync_miss json_diff job d name value attrs es db miss) ∙ h))
        | inr (e, hit) ↦
            sync_relation_attrs-deletions job d attrs (filter (λ a. not (a.id == e.id)) es)
              (change_relation_attr json_diff job d e value db) db'
              (sym (sync_hit json_diff job d name value attrs es db e hit) ∙ h)
            ∙ change_relation_attr-deletions job d e value db
      ]

  later_relation-deletions :
      (job : ImportJob) (p x : ResourceRelation) (parent_uri target_uri : String)
      (attrs : Dict Value) (db db' : Db) (i : ℕ)
      → later_relation json_diff job p x parent_uri target_uri attrs db ≡ ok (i, db')
      → deletions db' ≡ deletions db
  unfolding later_relation set_relation_raw
  later_relation-deletions job p x parent_uri target_uri attrs db db' i h =
      elim (Bool-cases (is_empty (json_diff p.raw x.raw))) [
        | inl same ↦ ap (λ (q : ℕ × Db). deletions q.1) (sym (ok-eq _ _ (rw same at h)))
        | inr new ↦
            let (synced, first, end) =
              >>=-returns
                (sync_relation_attrs json_diff job db.relation_deltas.next attrs (attrs_of p.id db)
                  (log_relation job p.id ChangeType.update
                    (related x.relation parent_uri target_uri
                      (map (λ a. (a.name, a.value)) (attrs_of p.id db)))
                    db))
                (λ d. ok (p.id, set_relation_raw json_diff p.id x.raw d)) (rw new at h) in
            ap (λ (q : ℕ × Db). deletions q.1) (sym (ok-eq _ _ end))
            ∙ (unfold log_relation in sync_relation_attrs-deletions job _ attrs _ _ synced first)
      ]

  first_relation-deletions :
      (job : ImportJob) (x : ResourceRelation) (parent_uri target_uri : String) (attrs : Dict Value)
      (db db' : Db) (i : ℕ)
      → first_relation job x parent_uri target_uri attrs db ≡ ok (i, db')
      → deletions db' ≡ deletions db
  unfolding first_relation log_relation
  first_relation-deletions job x parent_uri target_uri attrs db db' i h =
      let (added, first, end) = >>=-returns (add_relation x db) _ h in
      ap (λ (q : ℕ × Db). deletions q.1) (sym (ok-eq _ _ end))
      ∙ (log_new_attrs-deletions job _ db.relation_attributes.next attrs _
          ∙ (add_relation_attrs-deletions job db.relations.next attrs added
              ∙ ap
                  (λ (t : Table ResourceRelationAttributeDelta).
                    filter (λ d. is_deletion d.change_type) t.rows)
                  (add_relation-logs x db added first)))

  -- `_apply_relation` logs no deletion of a relation's attribute, also where it deletes attributes.
  pub apply_relation-deletions :
      (job : ImportJob) (x : ResourceRelation) (parent_uri target_uri : String) (attrs : Dict Value)
      (db db' : Db) (i : ℕ)
      → apply_relation json_diff job x parent_uri target_uri attrs db ≡ ok (i, db')
      → deletions db' ≡ deletions db
  unfolding apply_relation
  apply_relation-deletions job x parent_uri target_uri attrs db db' i h =
      let p =
        is_relation job.provider_account_id x.relation parent_uri target_uri db.resources.rows in
      let (previous, query, rest) = >>=-returns (one_or_none (filter p db.relations.rows)) _ h in
      elim (Option-cases previous) [
        | inl absent ↦
            first_relation-deletions job x parent_uri target_uri attrs db db' i (rw absent at rest)
        | inr (w, stored) ↦
            later_relation-deletions job w x parent_uri target_uri attrs db db' i
              (rw stored at rest)
      ]
