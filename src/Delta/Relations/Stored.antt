-- ===== src/Delta/Relations/Stored.antt =====
-- introspector/delta/resource.py: the relation that is stored after `_apply_relation`, and how it fails.
use introspector.Outcome.{ok-eq, raise_ok, ok, raise, type_error, >>=-returns}
use introspector.Prelude.{
  map, ◌==◌, filter, none, not, ℕ, ◌+◌, ◌<◌, ◌≡◌, refl, sym, ◌∙◌, ap, ◌⊎◌, inl, inr, String, true,
  Option, some, List, [], ◌∷◌, any, find, is_empty, All, Bool-cases, Option-cases,
}
use introspector.Delta.Relations.Apply.{
  attrs_of, is_relation, set_relation_raw, apply_relation, later_relation, same_ends, add_relation,
  add_relation_attrs, log_new_attrs, log_relation_attr, first_relation, is_named,
  change_relation_attr, drop_relation_attrs, sync_relation_attrs,
}
use mathlib.Core.Path.{subst}
use introspector.Store.Removal.{
  by_id-update, filter-Within, by_id-Within, NodupBy, Within, by_id-append,
}
use introspector.Store.Tables.{update, Table, insert, by_id}
use introspector.Prelude.Dict.{Dict}
use introspector.Value.{Value}
use introspector.Store.{Db}
use introspector.Store.Rows.{
  ImportJob, ResourceRelation, ResourceRelationAttribute, ChangeType, related,
}
use introspector.Delta.Resource.{one_or_none}
use introspector.Delta.Deletes.{log_relation}

-- No two relations have one id, and all ids are below the sequence.
pub record HasIds (t : Table ResourceRelation) : Type 0 where
  pub ids : NodupBy (λ x. x.id) t.rows
  pub below : All (λ x. x.id < t.next) t.rows

add_relation_attrs-relations :
    (job : ImportJob) (i : ℕ) (attrs : Dict Value) (db : Db)
    → (add_relation_attrs job i attrs db).relations ≡ db.relations
unfolding add_relation_attrs
add_relation_attrs-relations job i [] db = refl
add_relation_attrs-relations job i ((name, value) ∷ attrs) db =
    add_relation_attrs-relations job i attrs _

log_new_attrs-relations :
    (job : ImportJob) (d i : ℕ) (attrs : Dict Value) (db : Db)
    → (log_new_attrs job d i attrs db).relations ≡ db.relations
unfolding log_new_attrs
log_new_attrs-relations job d i [] db = refl
log_new_attrs-relations job d i ((name, value) ∷ attrs) db =
    log_new_attrs-relations job d (i + 1) attrs _

add_relation_lem :
    (x : ResourceRelation) (db db' : Db)
    → add_relation x db ≡ ok db'
    → db'.relations ≡ insert (λ i. record x { id = i }) db.relations
unfolding add_relation
add_relation_lem x db db' h = elim (Bool-cases (any (same_ends x) db.relations.rows)) [
  | inl there ↦ absurd (raise_ok (rw there at h))
  | inr fresh ↦ ap (λ (d : Db). d.relations) (sym (ok-eq _ _ (rw fresh at h)))
]

-- A relation that is stored with a new document, or with one that does not differ from it.
abbrev pub StoresRelation : (Value → Value → Dict Value) → Value → Option ResourceRelation → Type 0
StoresRelation json_diff raw o =
    (r : ResourceRelation) × (o ≡ some r)
    × ((r.raw ≡ raw) ⊎ (is_empty (json_diff r.raw raw) ≡ true))

first_relation_lem :
    (job : ImportJob) (x : ResourceRelation) (parent_uri target_uri : String) (attrs : Dict Value)
    (db db' : Db) (i : ℕ)
    → HasIds db.relations
    → first_relation job x parent_uri target_uri attrs db ≡ ok (i, db')
    → by_id (λ r. r.id) i db'.relations.rows ≡ some (record x { id = i })
unfolding first_relation
first_relation_lem job x parent_uri target_uri attrs db db' i ids h =
    let (added, first, end) = >>=-returns (add_relation x db) _ h in
    let same = ok-eq _ _ end in
    let now : db'.relations ≡ insert (λ n. record x { id = n }) db.relations =
      ap (λ (p : ℕ × Db). p.1.relations) (sym same)
      ∙ (logged added ∙ add_relation_lem x db added first) in
    let next_id : i ≡ db.relations.next = ap (λ (p : ℕ × Db). p.0) (sym same) in
    rw (now, next_id)
      (unfold insert in
        by_id-append (λ r. r.id) db.relations.next (record x { id = db.relations.next })
          db.relations.rows ids.below refl)
  where
    logged :
        (added : Db)
        → (log_new_attrs job
            (add_relation_attrs job db.relations.next attrs added).relation_deltas.next
            db.relation_attributes.next
            attrs
            (log_relation job db.relations.next ChangeType.add
              (related x.relation parent_uri target_uri attrs)
              (add_relation_attrs job db.relations.next attrs added))).relations
          ≡ added.relations
    logged added =
        log_new_attrs-relations job _ _ attrs _
        ∙ (unfold log_relation in add_relation_attrs-relations job db.relations.next attrs added)

one_or_none-Within :
    (xs : List ResourceRelation) (y : ResourceRelation) → one_or_none xs ≡ ok (some y) → Within y xs
unfolding one_or_none
one_or_none-Within [] y h = cc
one_or_none-Within (x ∷ []) y h = inl (cc)
one_or_none-Within (x ∷ (z ∷ xs)) y h = cc

module _ (json_diff : Value → Value → Dict Value) where
  change_relation_attr-relations :
      (job : ImportJob) (d : ℕ) (e : ResourceRelationAttribute) (value : Value) (db : Db)
      → (change_relation_attr json_diff job d e value db).relations ≡ db.relations
  unfolding change_relation_attr log_relation_attr
  change_relation_attr-relations job d e value db =
      elim (Bool-cases (is_empty (json_diff e.value value))) [
        | inl same ↦ rw same refl
        | inr new ↦ rw new refl
      ]

  drop_relation_attrs-relations :
      (es : List ResourceRelationAttribute) (db : Db)
      → (drop_relation_attrs json_diff es db).relations ≡ db.relations
  unfolding drop_relation_attrs
  drop_relation_attrs-relations [] db = refl
  drop_relation_attrs-relations (e ∷ es) db = drop_relation_attrs-relations es _

  pub sync_miss :
      (job : ImportJob) (d : ℕ) (name : String) (value : Value) (attrs : Dict Value)
      (es : List ResourceRelationAttribute) (db : Db)
      → find (is_named name) es ≡ none
      → sync_relation_attrs json_diff job d ((name, value) ∷ attrs) es db ≡ raise type_error
  unfolding sync_relation_attrs
  sync_miss job d name value attrs es db h = rw (sync_relation_attrs, h) refl

  pub sync_hit :
      (job : ImportJob) (d : ℕ) (name : String) (value : Value) (attrs : Dict Value)
      (es : List ResourceRelationAttribute) (db : Db) (e : ResourceRelationAttribute)
      → find (is_named name) es ≡ some e
      → sync_relation_attrs json_diff job d ((name, value) ∷ attrs) es db
        ≡ sync_relation_attrs json_diff job d attrs
            (filter (λ a. not (a.id == e.id)) es)
            (change_relation_attr json_diff job d e value db)
  unfolding sync_relation_attrs
  sync_hit job d name value attrs es db e h = rw (sync_relation_attrs, h) refl

  sync_relation_attrs-relations :
      (job : ImportJob) (d : ℕ) (attrs : Dict Value) (es : List ResourceRelationAttribute)
      (db db' : Db)
      → sync_relation_attrs json_diff job d attrs es db ≡ ok db'
      → db'.relations ≡ db.relations
  unfolding sync_relation_attrs
  sync_relation_attrs-relations job d [] es db db' h =
      ap (λ (x : Db). x.relations) (sym (ok-eq _ _ h)) ∙ drop_relation_attrs-relations es db
  sync_relation_attrs-relations job d ((name, value) ∷ attrs) es db db' h =
      elim (Option-cases (find (is_named name) es)) [
        | inl miss ↦ absurd (raise_ok (sym (sync_miss job d name value attrs es db miss) ∙ h))
        | inr (e, hit) ↦
            sync_relation_attrs-relations job d attrs (filter (λ a. not (a.id == e.id)) es)
              (change_relation_attr json_diff job d e value db) db'
              (sym (sync_hit job d name value attrs es db e hit) ∙ h)
            ∙ change_relation_attr-relations job d e value db
      ]

  later_relation_lem :
      (job : ImportJob) (p x : ResourceRelation) (parent_uri target_uri : String)
      (attrs : Dict Value) (db db' : Db) (i : ℕ)
      → by_id (λ r. r.id) p.id db.relations.rows ≡ some p
      → later_relation json_diff job p x parent_uri target_uri attrs db ≡ ok (i, db')
      → StoresRelation json_diff x.raw (by_id (λ r. r.id) i db'.relations.rows)
  unfolding later_relation
  later_relation_lem job p x parent_uri target_uri attrs db db' i found h =
      elim (Bool-cases (is_empty (json_diff p.raw x.raw))) [
        | inl same ↦
            let end = ok-eq _ _ (rw same at h) in
            subst
              (λ (q : ℕ × Db).
                StoresRelation json_diff x.raw (by_id (λ r. r.id) q.0 q.1.relations.rows))
              end (p, found, inr same)
        | inr new ↦
            let (synced, first, end) =
              >>=-returns
                (sync_relation_attrs json_diff job db.relation_deltas.next attrs (attrs_of p.id db)
                  (log_relation job p.id ChangeType.update
                    (related x.relation parent_uri target_uri
                      (map (λ a. (a.name, a.value)) (attrs_of p.id db)))
                    db))
                (λ d. ok (p.id, set_relation_raw json_diff p.id x.raw d)) (rw new at h) in
            subst
              (λ (q : ℕ × Db).
                StoresRelation json_diff x.raw (by_id (λ r. r.id) q.0 q.1.relations.rows))
              (ok-eq _ _ end)
              (
                record p { raw = x.raw },
                stored synced (
                    unfold log_relation in
                    sync_relation_attrs-relations job _ attrs _ _ synced first),
                inl refl,
              )
      ]
    where
      stored :
          (synced : Db)
          → synced.relations ≡ db.relations
          → by_id (λ r. r.id) p.id (set_relation_raw json_diff p.id x.raw synced).relations.rows
            ≡ some (record p { raw = x.raw })
      stored synced same =
          unfold set_relation_raw in
          unfold update in
          rw same (
            by_id-update (λ r. r.id) (λ r. record r { raw = x.raw }) p.id p db.relations.rows
              (λ r. refl) found)

  -- Where `_apply_relation` returns an id, the relation with that id is stored, with the new document or
  -- with one that does not differ from it. It is assumed that the ids of the stored relations are
  -- distinct and below the sequence.
  pub apply_relation-StoresRelation :
      (job : ImportJob) (x : ResourceRelation) (parent_uri target_uri : String) (attrs : Dict Value)
      (db db' : Db) (i : ℕ)
      → HasIds db.relations
      → apply_relation json_diff job x parent_uri target_uri attrs db ≡ ok (i, db')
      → StoresRelation json_diff x.raw (by_id (λ r. r.id) i db'.relations.rows)
  unfolding apply_relation
  apply_relation-StoresRelation job x parent_uri target_uri attrs db db' i ids h =
      let p =
        is_relation job.provider_account_id x.relation parent_uri target_uri db.resources.rows in
      let (previous, query, rest) = >>=-returns (one_or_none (filter p db.relations.rows)) _ h in
      elim (Option-cases previous) [
        | inl absent ↦ (
          record x { id = i },
          first_relation_lem job x parent_uri target_uri attrs db db' i ids (rw absent at rest),
          inl refl,
        )
        | inr (y, there) ↦
            let here = one_or_none-Within (filter p db.relations.rows) y (rw there at query) in
            later_relation_lem job y x parent_uri target_uri attrs db db' i
              (by_id-Within (λ r. r.id) y db.relations.rows ids.ids
                (filter-Within p y db.relations.rows here).0)
              (rw there at rest)
      ]
