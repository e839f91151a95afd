-- ===== src/Delta/Deletes/Laws.antt =====
-- introspector/delta/resource.py: which resources `map_resource_deletes` leaves, and what it logs.
use mathlib.Core.Path.{subst}
use mathlib.Core.List.{map-append, append_assoc, append-nil}
use introspector.Prelude.{
  ℕ, ◌≡◌, refl, sym, ◌∙◌, ap, inl, inr, String, not, List, [], ◌∷◌, ◌++◌, map, ◌==◌, filter,
  Bool-cases,
}
use introspector.Outcome.{ok, >>=-returns}
use introspector.Spec.{ImportSpec}
use introspector.Store.{Db}
use introspector.Store.Tables.{delete_rows}
use introspector.Store.Rows.{
  ImportJob, Resource, ResourceRaw, ResourceAttribute, ResourceRelation, ResourceRelationAttribute,
  ResourceDelta, ChangeType, unrelated,
}
use introspector.Store.Removal.{NodupBy, remove_all, remove_all-filter}
use introspector.Delta.Deletes.{
  is_deleted, uri_of, log_relation_attrs, delete_relation, delete_relations, log_attrs, delete_raws,
  log_relation, log_deleted, drop_raws, related_to, drop_resource, delete_resource,
  delete_resources, map_resource_deletes,
}

ok-injective {ℓ} : {A : Type ℓ} (a b : A) → ok a ≡ ok b → a ≡ b
ok-injective a b h = cc

-- The resources and the resource deltas of one database are those of another.
pub record Keeps (db db' : Db) : Type 0 where
  pub resources : db'.resources ≡ db.resources
  pub deltas : db'.deltas ≡ db.deltas

Keeps-trans : {a b c : Db} → Keeps a b → Keeps b c → Keeps a c
Keeps-trans h k = record { resources = k.resources ∙ h.resources; deltas = k.deltas ∙ h.deltas }

module _ (job : ImportJob) where
  log_relation_attrs-Keeps :
      (d : ℕ) (attrs : List ResourceRelationAttribute) (db : Db)
      → Keeps db (log_relation_attrs job d attrs db)
  unfolding log_relation_attrs
  log_relation_attrs-Keeps d [] db = record { resources = refl; deltas = refl }
  log_relation_attrs-Keeps d (a ∷ attrs) db =
      let k = log_relation_attrs-Keeps d attrs _ in
      record { resources = k.resources; deltas = k.deltas }

  pub delete_relation-Keeps :
      (r : ResourceRelation) (parent target : String) (db : Db)
      → Keeps db (delete_relation job r parent target db)
  unfolding delete_relation
  delete_relation-Keeps r parent target db =
      let k =
        log_relation_attrs-Keeps db.relation_deltas.next
          (filter (λ a. a.relation_id == r.id) db.relation_attributes.rows)
          (log_relation job r.id ChangeType.delete (unrelated r.relation parent target r.raw) db) in
      record { resources = k.resources; deltas = k.deltas }

  delete_relations-Keeps :
      (deleted : Resource) (rs : List ResourceRelation) (db db' : Db)
      → delete_relations job deleted rs db ≡ ok db'
      → Keeps db db'
  unfolding delete_relations
  delete_relations-Keeps deleted [] db db' h =
      let same = ok-injective db db' h in
      record {
        resources = ap (λ (x : Db). x.resources) (sym same);
        deltas = ap (λ (x : Db). x.deltas) (sym same);
      }
  delete_relations-Keeps deleted (r ∷ rs) db db' h = elim (Bool-cases (r.target_id == deleted.id)) [
    | inl from ↦
        let (uri, found, rest) = >>=-returns (uri_of r.resource_id db) _ (rw from at h) in
        Keeps-trans (delete_relation-Keeps r uri deleted.uri db)
          (delete_relations-Keeps deleted rs _ db' rest)
    | inr to ↦
        let (uri, found, rest) = >>=-returns (uri_of r.target_id db) _ (rw to at h) in
        Keeps-trans (delete_relation-Keeps r deleted.uri uri db)
          (delete_relations-Keeps deleted rs _ db' rest)
  ]

  log_attrs-Keeps :
      (d : ℕ) (attrs : List ResourceAttribute) (db : Db) → Keeps db (log_attrs job d attrs db)
  unfolding log_attrs
  log_attrs-Keeps d [] db = record { resources = refl; deltas = refl }
  log_attrs-Keeps d (a ∷ attrs) db =
      let k = log_attrs-Keeps d attrs _ in record { resources = k.resources; deltas = k.deltas }

delete_raws-Keeps : (ws : List ResourceRaw) (db : Db) → Keeps db (delete_raws ws db)
unfolding delete_raws
delete_raws-Keeps [] db = record { resources = refl; deltas = refl }
delete_raws-Keeps (w ∷ ws) db =
    let k = delete_raws-Keeps ws _ in record { resources = k.resources; deltas = k.deltas }

-- The resource and the kind of change that an entry of the log names.
abbrev pub entry : ResourceDelta → ℕ × ChangeType
entry d = (d.resource_id, d.change_type)

abbrev pub deleted_entry : Resource → ℕ × ChangeType
deleted_entry r = (r.id, ChangeType.delete)

pub drop_raws-Keeps : (r : Resource) (db : Db) → Keeps db (drop_raws r db)
unfolding drop_raws
drop_raws-Keeps r db = delete_raws-Keeps (filter (λ w. w.resource_id == r.id) db.raws.rows) db

module _ (job : ImportJob) where
  pub log_deleted_lem :
      (r : Resource) (db : Db)
      → ((log_deleted job r db).resources ≡ db.resources)
        × (map entry (log_deleted job r db).deltas.rows
            ≡ map entry db.deltas.rows ++ deleted_entry r ∷ [])
  unfolding log_deleted
  log_deleted_lem r db =
      let k =
        log_attrs-Keeps job db.deltas.next (filter (λ a. a.resource_id == r.id) db.attributes.rows)
          _ in
      (k.resources, rw k.deltas (map-append entry db.deltas.rows _))

  delete_resource_lem :
      (r : Resource) (db db' : Db)
      → delete_resource job r db ≡ ok db'
      → (db'.resources.rows ≡ delete_rows (λ x. x.id) r.id db.resources.rows)
        × (map entry db'.deltas.rows ≡ map entry db.deltas.rows ++ deleted_entry r ∷ [])
  unfolding delete_resource
  delete_resource_lem r db db' h =
      let (rest, related, end) =
        >>=-returns
          (delete_relations job r (related_to r (drop_raws r (log_deleted job r db)))
            (drop_raws r (log_deleted job r db)))
          (λ x. ok (drop_resource r x)) h in
      let (same, logged) = log_deleted_lem r db in
      let k = Keeps-trans (drop_raws-Keeps r (log_deleted job r db)) (
        delete_relations-Keeps job r (related_to r (drop_raws r (log_deleted job r db))) _ rest
          related) in
      let end' : drop_resource r rest ≡ db' = ok-injective _ _ end in
      subst
        (λ (x : Db).
          (x.resources.rows ≡ delete_rows (λ y. y.id) r.id db.resources.rows)
          × (map entry x.deltas.rows ≡ map entry db.deltas.rows ++ deleted_entry r ∷ []))
        end' (unfold drop_resource in (rw (k.resources, same), rw k.deltas logged))

-- No two resources have one id.
abbrev pub NodupResources : List Resource → Type 0
NodupResources = NodupBy (λ r. r.id)

delete_resources_lem :
    (job : ImportJob) (xs : List Resource) (db db' : Db)
    → delete_resources job xs db ≡ ok db'
    → (db'.resources.rows ≡ remove_all (λ r. r.id) xs db.resources.rows)
      × (map entry db'.deltas.rows ≡ map entry db.deltas.rows ++ map deleted_entry xs)
unfolding delete_resources remove_all
delete_resources_lem job [] db db' h =
    let same = ok-injective db db' h in
    (
      ap (λ (x : Db). x.resources.rows) (sym same),
      ap (λ (x : Db). map entry x.deltas.rows) (sym same)
          ∙ sym (append-nil (map entry db.deltas.rows)),
    )
delete_resources_lem job (x ∷ xs) db db' h =
    let (next, first, rest) =
      >>=-returns (delete_resource job x db) (λ d. delete_resources job xs d) h in
    let (rows, log) = delete_resource_lem job x db next first in
    let (rows', log') = delete_resources_lem job xs next db' rest in
    (
      rows' ∙ ap (remove_all (λ r. r.id) xs) rows,
      log'
          ∙ (ap (λ (l : List (ℕ × ChangeType)). l ++ map deleted_entry xs) log
              ∙ append_assoc (map entry db.deltas.rows) (deleted_entry x ∷ [])
                  (map deleted_entry xs)),
    )

-- Where `map_resource_deletes` returns, the resources left are those, in their order, that its query
-- did not select, and the log of resource changes has grown by one `delete` entry for each selected
-- resource, in their order. It is assumed that no two resources have one id.
pub map_resource_deletes_lem :
    (job : ImportJob) (path_prefix : String) (spec : ImportSpec) (db db' : Db)
    → NodupResources db.resources.rows
    → map_resource_deletes job path_prefix spec db ≡ ok db'
    → (db'.resources.rows
        ≡ filter (λ r. not (is_deleted job path_prefix spec db.mapped_uris r)) db.resources.rows)
      × (map entry db'.deltas.rows
          ≡ map entry db.deltas.rows
            ++ map deleted_entry
                (filter (is_deleted job path_prefix spec db.mapped_uris) db.resources.rows))
unfolding map_resource_deletes
map_resource_deletes_lem job path_prefix spec db db' nd h =
    let (rows, log) =
      delete_resources_lem job
        (filter (is_deleted job path_prefix spec db.mapped_uris) db.resources.rows) db db' h in
    (
      rows
          ∙ remove_all-filter (λ r. r.id) (is_deleted job path_prefix spec db.mapped_uris)
              db.resources.rows nd,
      log,
    )
