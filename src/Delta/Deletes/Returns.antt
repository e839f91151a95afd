-- ===== src/Delta/Deletes/Returns.antt =====
-- introspector/delta/resource.py: `map_resource_deletes` finds the resource at either end of every
-- relation that it deletes.
use introspector.Store.Rows.{
  ChangeType, resource_deleted, ResourceRaw, ResourceAttribute, ImportJob, Resource,
  ResourceRelation, ResourceRelationAttribute, unrelated,
}
use introspector.Delta.Deletes.{
  raw_by_source, is_deleted, log_attrs, delete_raws, log_deleted, drop_raws, drop_resource,
  related_to, delete_resource, delete_resources, map_resource_deletes, uri_of, log_relation_attrs,
  log_relation, delete_relation, delete_relations,
}
use introspector.Delta.Resource.{log_resource}
use introspector.Delta.Deletes.Laws.{drop_raws-Keeps, log_deleted_lem, delete_relation-Keeps}
use introspector.Spec.{ImportSpec}
use introspector.Prelude.{
  false, ℕ, ◌≡◌, refl, sym, ◌∙◌, ap, inl, inr, String, Bool, true, some, List, [], ◌∷◌, ◌==◌,
  filter, All, Bool-cases,
}
use introspector.Outcome.{ok}
use introspector.Store.{Db}
use introspector.Store.Tables.{Table, delete_rows, by_id}
use introspector.Store.Removal.{remove_all}
use introspector.Delta.Deletes.Removal.{
  stored, HasEnds, touches, remove_relations-All, Spared-filter, HasEnds-delete,
}

by_id-stored :
    (i : ℕ) (rs : List Resource)
    → stored rs i ≡ true
    → (r : Resource) × (by_id (λ x. x.id) i rs ≡ some r)
unfolding by_id
by_id-stored i [] h = cc
by_id-stored i (r ∷ rs) h = elim (Bool-cases (r.id == i)) [
  | inl here ↦ (r, rw here refl)
  | inr there ↦ let (x, found) = by_id-stored i rs (rw there at h) in (x, rw there found)
]

pub uri_of-returns :
    (i : ℕ) (db : Db) → stored db.resources.rows i ≡ true → (uri : String) × (uri_of i db ≡ ok uri)
unfolding uri_of
uri_of-returns i db h =
    let (r, found) = by_id-stored i db.resources.rows h in (r.uri, rw (uri_of, found) refl)

module _ (job : ImportJob) where
  log_relation_attrs-relations :
      (d : ℕ) (attrs : List ResourceRelationAttribute) (db : Db)
      → (log_relation_attrs job d attrs db).relations ≡ db.relations
  unfolding log_relation_attrs
  log_relation_attrs-relations d [] db = refl
  log_relation_attrs-relations d (a ∷ attrs) db = log_relation_attrs-relations d attrs _

  pub delete_relation-relations :
      (x : ResourceRelation) (parent target : String) (db : Db)
      → (delete_relation job x parent target db).relations.rows
        ≡ delete_rows (λ y. y.id) x.id db.relations.rows
  unfolding delete_relation
  delete_relation-relations x parent target db =
      ap (λ (t : Table ResourceRelation). delete_rows (λ y. y.id) x.id t.rows)
        (log_relation_attrs-relations db.relation_deltas.next
          (filter (λ a. a.relation_id == x.id) db.relation_attributes.rows)
          (log_relation job x.id ChangeType.delete (unrelated x.relation parent target x.raw) db))

  delete_relations-returns :
      (deleted : Resource) (xs : List ResourceRelation) (db : Db)
      → All (HasEnds db.resources.rows) xs
      → (db' : Db) × (delete_relations job deleted xs db ≡ ok db')
        × (db'.resources ≡ db.resources)
        × (db'.relations.rows ≡ remove_all (λ y. y.id) xs db.relations.rows)
  unfolding delete_relations remove_all
  delete_relations-returns deleted [] db h = (db, refl, refl, refl)
  delete_relations-returns deleted (x ∷ xs) db ((from, to), h) =
      elim (Bool-cases (x.target_id == deleted.id)) [
        | inl is_target ↦
            let (uri, found) = uri_of-returns x.resource_id db from in
            let k = delete_relation-Keeps job x uri deleted.uri db in
            let (db', end, same, rows) =
              delete_relations-returns deleted xs (delete_relation job x uri deleted.uri db)
                (rw (sym k.resources) at h) in
            (
              db',
              rw (is_target, found) end,
              same ∙ k.resources,
              rows
                  ∙ ap (remove_all (λ y. y.id) xs) (delete_relation-relations x uri deleted.uri db),
            )
        | inr is_parent ↦
            let (uri, found) = uri_of-returns x.target_id db to in
            let k = delete_relation-Keeps job x deleted.uri uri db in
            let (db', end, same, rows) =
              delete_relations-returns deleted xs (delete_relation job x deleted.uri uri db)
                (rw (sym k.resources) at h) in
            (
              db',
              rw (is_parent, found) end,
              same ∙ k.resources,
              rows
                  ∙ ap (remove_all (λ y. y.id) xs) (delete_relation-relations x deleted.uri uri db),
            )
      ]

-- The ends of every relation are stored resources.
abbrev pub EndsStored : Db → Type 0
EndsStored db = All (HasEnds db.resources.rows) db.relations.rows

delete_raws-relations :
    (ws : List ResourceRaw) (db : Db) → (delete_raws ws db).relations ≡ db.relations
unfolding delete_raws
delete_raws-relations [] db = refl
delete_raws-relations (w ∷ ws) db = delete_raws-relations ws _

drop_raws-relations : (r : Resource) (db : Db) → (drop_raws r db).relations ≡ db.relations
unfolding drop_raws
drop_raws-relations r db =
    delete_raws-relations (filter (λ w. w.resource_id == r.id) db.raws.rows) db

ends-filter :
    (p : ResourceRelation → Bool) (rs : List Resource) (xs : List ResourceRelation)
    → All (HasEnds rs) xs
    → All (HasEnds rs) (filter p xs)
ends-filter p rs [] h = tt
ends-filter p rs (x ∷ xs) (ends, h) = elim (Bool-cases (p x)) [
  | inl in' ↦ rw in' (ends, ends-filter p rs xs h)
  | inr out ↦ rw out (ends-filter p rs xs h)
]

module _ (job : ImportJob) where
  log_attrs-relations :
      (d : ℕ) (attrs : List ResourceAttribute) (db : Db)
      → (log_attrs job d attrs db).relations ≡ db.relations
  unfolding log_attrs
  log_attrs-relations d [] db = refl
  log_attrs-relations d (a ∷ attrs) db = log_attrs-relations d attrs _

  log_deleted-relations : (r : Resource) (db : Db) → (log_deleted job r db).relations ≡ db.relations
  unfolding log_deleted
  log_deleted-relations r db =
      log_attrs-relations db.deltas.next (filter (λ a. a.resource_id == r.id) db.attributes.rows) (
        log_resource job r.id ChangeType.delete
          (resource_deleted r.path r.uri r.name
            (raw_by_source (filter (λ w. w.resource_id == r.id) db.raws.rows) []))
          db)

  drop_resource-EndsStored :
      (r : Resource) (db db' : Db)
      → EndsStored db
      → db'.resources ≡ db.resources
      → db'.relations.rows ≡ remove_all (λ y. y.id) (related_to r db) db.relations.rows
      → EndsStored (drop_resource r db')
  unfolding drop_resource related_to
  drop_resource-EndsStored r db db' ends same rows =
      rw (same, rows)
        (HasEnds-delete r db.resources.rows _ (
          remove_relations-All (λ x. (touches r x ≡ false) × HasEnds db.resources.rows x)
            (related_to r db) db.relations.rows
            (Spared-filter r db.resources.rows db.relations.rows db.relations.rows ends
              (λ x f. f))))

  delete_resource-returns :
      (r : Resource) (db : Db)
      → EndsStored db
      → (db' : Db) × (delete_resource job r db ≡ ok db') × EndsStored db'
  unfolding delete_resource
  delete_resource-returns r db ends =
      let (db', end, same, rows) = delete_relations-returns job r (related_to r start) start (
        unfold related_to in
        ends-filter (touches r) start.resources.rows start.relations.rows ends') in
      (drop_resource r db', rw end refl, drop_resource-EndsStored r start db' ends' same rows)
    where
      start : Db
      start = drop_raws r (log_deleted job r db)

      ends' : EndsStored start
      ends' =
          rw
            (
              (drop_raws-Keeps r (log_deleted job r db)).resources,
              (log_deleted_lem job r db).0,
              drop_raws-relations r (log_deleted job r db),
              log_deleted-relations r db,
            )
            ends

  delete_resources-returns :
      (rs : List Resource) (db : Db)
      → EndsStored db
      → (db' : Db) × (delete_resources job rs db ≡ ok db') × EndsStored db'
  unfolding delete_resources
  delete_resources-returns [] db ends = (db, refl, ends)
  delete_resources-returns (r ∷ rs) db ends =
      let (db', first, ends') = delete_resource-returns r db ends in
      let (db'', rest, ends'') = delete_resources-returns rs db' ends' in
      (db'', rw first rest, ends'')

  -- `map_resource_deletes` returns, whatever it deletes, where the ends of every relation are stored
  -- resources, and it leaves a database where they are.
  pub map_resource_deletes-returns :
      (path_prefix : String) (spec : ImportSpec) (db : Db)
      → EndsStored db
      → (db' : Db) × (map_resource_deletes job path_prefix spec db ≡ ok db') × EndsStored db'
  unfolding map_resource_deletes
  map_resource_deletes-returns path_prefix spec db ends =
      delete_resources-returns
        (filter (is_deleted job path_prefix spec db.mapped_uris) db.resources.rows) db ends
