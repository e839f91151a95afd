-- ===== src/Delta/Deletes.antt =====
-- introspector/delta/resource.py: map_resource_deletes and _delete_relation.
pub mod Laws
pub mod Gates
pub mod Removal
pub mod Returns
use introspector.Prelude.{
  ℕ, String, Bool, true, false, not, ◌&&◌, ◌||◌, Option, none, some, List, [], ◌∷◌, map, str_eq,
  ◌==◌, if◌then◌else◌, filter, any, is_empty, ◌<>◌,
}
use introspector.Prelude.Dict.{Dict, put}
use introspector.Prelude.Like.{like}
use introspector.Outcome.{Outcome, ok, raise, attribute_error, ◌>>=◌}
use introspector.Value.{Value}
use introspector.Spec.{ServiceSpec, ImportSpec}
use introspector.Store.{Db}
use introspector.Store.Tables.{Table, insert, delete, delete_rows, by_id}
use introspector.Store.Rows.{
  ImportJob, Resource, ResourceRaw, ResourceAttribute, ResourceRelation, ResourceRelationAttribute,
  MappedUri, ChangeType, AttributeChange, RelationAttributeChange, RelationChange, resource_deleted,
  unrelated,
}
use introspector.Delta.Attrs.{log_attribute}
use introspector.Delta.Resource.{log_resource}

-- The clauses of the query that the import specification adds.
unfoldable pub in_service : String × ServiceSpec → Resource → Bool
in_service (service, resources) r =
    str_eq r.service service
    && (is_empty resources
        || elim r.provider_type [ none ↦ false | some t ↦ any (λ x. str_eq t x) resources ])

-- A specification of no service, which `parse_import_spec` never gives, selects nothing here.
unfoldable pub in_spec : ImportSpec → Resource → Bool
unfolding in_service
in_spec none r = true
in_spec (some spec) r = any (λ c. in_service c r) spec

unfoldable pub is_mapped : ImportJob → Resource → List MappedUri → Bool
is_mapped job r mapped =
    any
      (λ m.
        str_eq m.uri r.uri
        && ((m.import_job_id == job.id)
            && (str_eq m.source "base" && (m.provider_account_id == job.provider_account_id))))
      mapped

-- The query for the resources to delete.
unfoldable pub is_deleted : ImportJob → String → ImportSpec → List MappedUri → Resource → Bool
unfolding in_spec is_mapped like
is_deleted job path_prefix spec mapped r =
    (r.provider_account_id == job.provider_account_id)
    && (not (is_mapped job r mapped)
        && ((like r.path (path_prefix <> "$%") || str_eq r.path path_prefix) && in_spec spec r))

-- db.query(Resource).get(id).uri
unfoldable pub uri_of : ℕ → Db → Outcome String
unfolding by_id
uri_of i db = elim (by_id (λ r. r.id) i db.resources.rows) [
  | none ↦ raise attribute_error
  | some r ↦ ok r.uri
]

unfoldable pub log_relation_attrs : ImportJob → ℕ → List ResourceRelationAttribute → Db → Db
unfolding insert
log_relation_attrs job delta_id [] db = db
log_relation_attrs job delta_id (a ∷ attrs) db = log_relation_attrs job delta_id attrs (record db {
  relation_attribute_deltas =
      insert
        (λ i. record {
          id = i;
          provider_account_id = job.provider_account_id;
          resource_relation_delta_id = delta_id;
          resource_relation_attribute_id = a.id;
          change_type = ChangeType.delete;
          change_details = RelationAttributeChange.current a.name a.value;
        })
        db.relation_attribute_deltas;
})

unfoldable pub log_relation : ImportJob → ℕ → ChangeType → RelationChange → Db → Db
unfolding insert
log_relation job relation_id change details db = record db {
  relation_deltas =
      insert
        (λ i. record {
          id = i;
          import_job_id = job.id;
          provider_account_id = job.provider_account_id;
          resource_relation_id = relation_id;
          change_type = change;
          change_details = details;
        })
        db.relation_deltas;
}

-- db.delete(deleted); the attributes of the relation go with it by cascade='delete'
unfoldable pub drop_relation : ResourceRelation → Db → Db
unfolding delete
drop_relation deleted db = record db {
  relations = delete (λ r. r.id) deleted.id db.relations;
  relation_attributes = record db.relation_attributes {
    rows = filter (λ a. not (a.relation_id == deleted.id)) db.relation_attributes.rows;
  };
}

unfoldable pub delete_relation : ImportJob → ResourceRelation → String → String → Db → Db
unfolding log_relation log_relation_attrs drop_relation
delete_relation job deleted parent_uri target_uri db = drop_relation deleted (
    log_relation_attrs job db.relation_deltas.next
      (filter (λ a. a.relation_id == deleted.id) db.relation_attributes.rows)
      (log_relation job deleted.id ChangeType.delete
        (unrelated deleted.relation parent_uri target_uri deleted.raw) db))

-- The loop over the relations from or to a deleted resource.
unfoldable pub delete_relations : ImportJob → Resource → List ResourceRelation → Db → Outcome Db
unfolding uri_of delete_relation
delete_relations job deleted [] db = ok db
delete_relations job deleted (r ∷ rs) db =
    if r.target_id == deleted.id
    then (do
      parent_uri ← uri_of r.resource_id db
      delete_relations job deleted rs (delete_relation job r parent_uri deleted.uri db))
    else (do
      target_uri ← uri_of r.target_id db
      delete_relations job deleted rs (delete_relation job r deleted.uri target_uri db))

unfoldable pub log_attrs : ImportJob → ℕ → List ResourceAttribute → Db → Db
unfolding log_attribute
log_attrs job delta_id [] db = db
log_attrs job delta_id (a ∷ attrs) db = log_attrs job delta_id attrs (
    log_attribute job.provider_account_id delta_id a.id ChangeType.delete
      (AttributeChange.current a.attr_type a.name a.value) db)

unfoldable pub delete_raws : List ResourceRaw → Db → Db
unfolding delete
delete_raws [] db = db
delete_raws (w ∷ ws) db = delete_raws ws (record db { raws = delete (λ x. x.id) w.id db.raws })

-- {raw.source: raw.raw for raw in raws}
unfoldable pub raw_by_source : List ResourceRaw → Dict Value → Dict Value
unfolding put
raw_by_source [] d = d
raw_by_source (w ∷ ws) d = raw_by_source ws (put w.source w.raw d)

-- db.delete(deleted); the attributes go with it by cascade='delete'
unfoldable pub drop_resource : Resource → Db → Db
unfolding delete
drop_resource deleted db = record db {
  resources = delete (λ r. r.id) deleted.id db.resources;
  attributes = record db.attributes {
    rows = filter (λ a. not (a.resource_id == deleted.id)) db.attributes.rows;
  };
}

-- The body of the loop over the resources to delete: the log, then the rows that hang on the
-- resource, then the resource.
unfoldable pub log_deleted : ImportJob → Resource → Db → Db
unfolding log_resource log_attrs raw_by_source
log_deleted job deleted db =
    log_attrs job db.deltas.next (filter (λ a. a.resource_id == deleted.id) db.attributes.rows) (
      log_resource job deleted.id ChangeType.delete
        (resource_deleted deleted.path deleted.uri deleted.name
          (raw_by_source (filter (λ w. w.resource_id == deleted.id) db.raws.rows) []))
        db)

unfoldable pub drop_raws : Resource → Db → Db
unfolding delete_raws
drop_raws deleted db = delete_raws (filter (λ w. w.resource_id == deleted.id) db.raws.rows) db

unfoldable pub related_to : Resource → Db → List ResourceRelation
related_to deleted db =
    filter (λ r. (r.target_id == deleted.id) || (r.resource_id == deleted.id)) db.relations.rows

unfoldable pub delete_resource : ImportJob → Resource → Db → Outcome Db
unfolding log_deleted drop_raws related_to delete_relations drop_resource
delete_resource job deleted db = do
  let without_raws = drop_raws deleted (log_deleted job deleted db)
  rest ← delete_relations job deleted (related_to deleted without_raws) without_raws
  ok (drop_resource deleted rest)

unfoldable pub delete_resources : ImportJob → List Resource → Db → Outcome Db
unfolding delete_resource
delete_resources job [] db = ok db
delete_resources job (r ∷ rs) db = do next ← delete_resource job r db; delete_resources job rs next

unfoldable pub map_resource_deletes : ImportJob → String → ImportSpec → Db → Outcome Db
unfolding is_deleted delete_resources
map_resource_deletes job path_prefix spec db =
    delete_resources job (filter (is_deleted job path_prefix spec db.mapped_uris) db.resources.rows)
      db
