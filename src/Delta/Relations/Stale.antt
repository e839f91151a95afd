-- ===== src/Delta/Relations/Stale.antt =====
-- introspector/delta/resource.py: the relations that are left after `map_relation_deletes`.
use introspector.Prelude.{sym, ℕ, ◌≡◌, refl, ◌∙◌, ap, String, not, List, [], ◌∷◌, filter, All}
use introspector.Outcome.{ok}
use introspector.Store.{Db}
use introspector.Store.Removal.{NodupBy, All-filter, remove_all, remove_all-filter}
use introspector.Store.Rows.{ImportJob, ResourceRelation}
use introspector.Spec.{ImportSpec}
use introspector.Delta.Deletes.{delete_relation}
use introspector.Delta.Deletes.Laws.{delete_relation-Keeps}
use introspector.Delta.Deletes.Removal.{HasEnds}
use introspector.Delta.Deletes.Returns.{EndsStored, uri_of-returns, delete_relation-relations}
use introspector.Delta.Relations.Loops.{is_stale, delete_stale, map_relation_deletes}

delete_stale-returns :
    (job : ImportJob) (xs : List ResourceRelation) (db : Db)
    → All (HasEnds db.resources.rows) xs
    → (db' : Db) × (delete_stale job xs db ≡ ok db')
      × (db'.resources ≡ db.resources)
      × (db'.relations.rows ≡ remove_all (λ y. y.id) xs db.relations.rows)
unfolding delete_stale remove_all
delete_stale-returns job [] db h = (db, refl, refl, refl)
delete_stale-returns job (x ∷ xs) db ((from, to), h) =
    let (parent, found) = uri_of-returns x.resource_id db from in
    let (target, found') = uri_of-returns x.target_id db to in
    let k = delete_relation-Keeps job x parent target db in
    let (db', end, same, rows) =
      delete_stale-returns job xs (delete_relation job x parent target db)
        (rw (sym k.resources) at h) in
    (
      db',
      rw (found, found') end,
      same ∙ k.resources,
      rows ∙ ap (remove_all (λ y. y.id) xs) (delete_relation-relations job x parent target db),
    )

-- `map_relation_deletes` returns, keeps the resources, and leaves exactly the relations that its query
-- does not select, where the ends of every relation are stored resources and no two relations have
-- one id.
pub map_relation_deletes-returns :
    (job : ImportJob) (path_prefix : String) (found : List ℕ) (spec : ImportSpec) (db : Db)
    → EndsStored db
    → NodupBy (λ x. x.id) db.relations.rows
    → (db' : Db) × (map_relation_deletes job path_prefix found spec db ≡ ok db')
      × (db'.resources ≡ db.resources)
      × (db'.relations.rows
          ≡ filter
              (λ x. not (is_stale job path_prefix found spec db.resources.rows x))
              db.relations.rows)
unfolding map_relation_deletes
map_relation_deletes-returns job path_prefix found spec db ends nd =
    let p = is_stale job path_prefix found spec db.resources.rows in
    let (db', end, same, rows) =
      delete_stale-returns job (filter p db.relations.rows) db
        (All-filter (λ y. y.id) (HasEnds db.resources.rows) p db.relations.rows ends) in
    (db', end, same, rows ∙ remove_all-filter (λ y. y.id) p db.relations.rows nd)
