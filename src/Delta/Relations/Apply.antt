-- ===== src/Delta/Relations/Apply.antt =====
-- introspector/delta/resource.py: _apply_relation. A log entry that is built but not added to the
-- session is no row.
use introspector.Prelude.{
  ◌+◌, ℕ, String, Bool, not, ◌&&◌, none, some, List, [], ◌∷◌, map, str_eq, ◌==◌, if◌then◌else◌,
  filter, any, find, is_empty,
}
use introspector.Prelude.Dict.{Dict}
use introspector.Outcome.{Outcome, ok, raise, integrity_error, type_error, ◌>>=◌}
use introspector.Value.{Value, str, arr, dict, to_items, to_fields}
use introspector.Store.{Db}
use introspector.Store.Tables.{insert, update, delete}
use introspector.Store.Rows.{
  ImportJob, Resource, ResourceRelation, ResourceRelationAttribute, ChangeType,
  RelationAttributeChange, related,
}
use introspector.Uri.{Uri}
use introspector.Delta.Resource.{one_or_none}
use introspector.Delta.Deletes.{log_relation}
use introspector.Delta.Lookup.{ResourceId}

-- What `map_relations` yields. The attributes are the pairs of a name and a value, in order.
pub record MappedRelation : Type 0 where
  pub parent : Uri
  pub relation : String
  pub target : Uri
  pub attributes : Dict Value

-- {'name': attr['name'], 'value': attr['value']}
unfoldable pub attribute_value : String × Value → Value
unfolding to_fields
attribute_value (name, value) = dict (to_fields (("name", str name) ∷ ("value", value) ∷ []))

-- The `raw` of a relation.
unfoldable pub relation_raw : String → String → String → Dict Value → Value
unfolding to_fields to_items attribute_value
relation_raw parent_uri relation target_uri attrs = dict (
    to_fields (
      ("resource", str parent_uri)
      ∷ ("target", str target_uri)
      ∷ ("relation", str relation)
      ∷ ("attributes", arr (to_items (map attribute_value attrs)))
      ∷ []))

-- ResourceRelation(…): the id is given when the row is added.
unfoldable pub relation_row :
    ImportJob → ResourceId → String → ResourceId → Dict Value → ResourceRelation
unfolding relation_raw
relation_row job parent relation target attrs = record {
  id = 0;
  resource_id = parent.id;
  relation = relation;
  target_id = target.id;
  raw = relation_raw parent.uri relation target.uri attrs;
  provider_account_id = job.provider_account_id;
}

unfoldable pub has_uri : ℕ → String → Resource → Bool
has_uri i uri r = (r.id == i) && str_eq r.uri uri

-- The query for the stored relation: the joins go by the ids, the conditions by the uris.
unfoldable pub is_relation : ℕ → String → String → String → List Resource → ResourceRelation → Bool
unfolding has_uri
is_relation account relation parent_uri target_uri resources x =
    str_eq x.relation relation
    && ((x.provider_account_id == account)
        && (any (has_uri x.resource_id parent_uri) resources
            && any (has_uri x.target_id target_uri) resources))

-- The constraint `relation_uc`.
unfoldable pub same_ends : ResourceRelation → ResourceRelation → Bool
same_ends x y =
    (y.resource_id == x.resource_id)
    && (str_eq y.relation x.relation && (y.target_id == x.target_id))

unfoldable pub add_relation : ResourceRelation → Db → Outcome Db
unfolding insert same_ends
add_relation x db =
    if any (same_ends x) db.relations.rows
    then raise integrity_error
    else ok (record db { relations = insert (λ i. record x { id = i }) db.relations })

unfoldable pub add_relation_attrs : ImportJob → ℕ → Dict Value → Db → Db
unfolding insert
add_relation_attrs job relation_id [] db = db
add_relation_attrs job relation_id ((name, value) ∷ attrs) db =
    add_relation_attrs job relation_id attrs (record db {
      relation_attributes =
          insert
            (λ i. record {
              id = i;
              relation_id = relation_id;
              name = name;
              value = value;
              provider_account_id = job.provider_account_id;
            })
            db.relation_attributes;
    })

-- ResourceRelationAttributeDelta(…), added to the session
unfoldable pub log_relation_attr :
    ImportJob → ℕ → ℕ → ChangeType → RelationAttributeChange → Db → Db
unfolding insert
log_relation_attr job delta_id attribute_id change details db = record db {
  relation_attribute_deltas =
      insert
        (λ i. record {
          id = i;
          provider_account_id = job.provider_account_id;
          resource_relation_delta_id = delta_id;
          resource_relation_attribute_id = attribute_id;
          change_type = change;
          change_details = details;
        })
        db.relation_attribute_deltas;
}

-- The log of the new attributes, whose ids follow one another.
unfoldable pub log_new_attrs : ImportJob → ℕ → ℕ → Dict Value → Db → Db
unfolding log_relation_attr
log_new_attrs job delta_id i [] db = db
log_new_attrs job delta_id i ((name, value) ∷ attrs) db = log_new_attrs job delta_id (i + 1) attrs (
    log_relation_attr job delta_id i ChangeType.add (RelationAttributeChange.current name value) db)

unfoldable pub attrs_of : ℕ → Db → List ResourceRelationAttribute
attrs_of relation_id db = filter (λ a. a.relation_id == relation_id) db.relation_attributes.rows

-- The branch of `_apply_relation` for a relation that is not stored.
unfoldable pub first_relation :
    ImportJob → ResourceRelation → String → String → Dict Value → Db → Outcome (ℕ × Db)
unfolding add_relation add_relation_attrs log_relation log_new_attrs
first_relation job x parent_uri target_uri attrs db = do
  let i = db.relations.next
  with_relation ← add_relation x db
  let with_attrs = add_relation_attrs job i attrs with_relation
  ok (
    i,
    log_new_attrs job with_attrs.relation_deltas.next db.relation_attributes.next attrs (
        log_relation job i ChangeType.add (related x.relation parent_uri target_uri attrs)
          with_attrs),
  )

-- The test of `_find_existing_relation_attr`.
unfoldable pub is_named : String → ResourceRelationAttribute → Bool
is_named name a = str_eq a.name name

module _ (json_diff : Value → Value → Dict Value) where
  unfoldable pub change_relation_attr : ImportJob → ℕ → ResourceRelationAttribute → Value → Db → Db
  unfolding update log_relation_attr
  change_relation_attr job delta_id e value db =
      if is_empty (json_diff e.value value)
      then db
      else log_relation_attr job delta_id e.id ChangeType.update
          (RelationAttributeChange.replaced e.name e.value value (json_diff e.value value))
          (record db {
            relation_attributes =
                update (λ a. a.id) e.id (λ a. record a { value = value }) db.relation_attributes;
          })

  -- The leftover attributes: the log entries of the deletions are not added to the session.
  unfoldable pub drop_relation_attrs : List ResourceRelationAttribute → Db → Db
  unfolding delete
  drop_relation_attrs [] db = db
  drop_relation_attrs (e ∷ es) db =
      drop_relation_attrs es
        (record db { relation_attributes = delete (λ a. a.id) e.id db.relation_attributes })

  -- The loop over the new attributes, then the one over the leftover rows. A new attribute of a stored
  -- relation is a `TypeError`: its log entry is built with a keyword that the model does not have.
  unfoldable pub sync_relation_attrs :
      ImportJob → ℕ → Dict Value → List ResourceRelationAttribute → Db → Outcome Db
  unfolding change_relation_attr drop_relation_attrs is_named
  sync_relation_attrs job delta_id [] existing db = ok (drop_relation_attrs existing db)
  sync_relation_attrs job delta_id ((name, value) ∷ attrs) existing db =
      elim (find (is_named name) existing) [
        | none ↦ raise type_error
        | some e ↦
            sync_relation_attrs job delta_id attrs (filter (λ a. not (a.id == e.id)) existing)
              (change_relation_attr job delta_id e value db)
      ]

  -- previous.raw = relation.raw
  unfoldable pub set_relation_raw : ℕ → Value → Db → Db
  unfolding update
  set_relation_raw i raw db = record db {
    relations = update (λ x. x.id) i (λ x. record x { raw = raw }) db.relations;
  }

  unfoldable pub later_relation :
      ImportJob
      → ResourceRelation
      → ResourceRelation
      → String
      → String
      → Dict Value
      → Db
      → Outcome (ℕ × Db)
  unfolding log_relation attrs_of sync_relation_attrs set_relation_raw
  later_relation job previous x parent_uri target_uri attrs db =
      if is_empty (json_diff previous.raw x.raw) then ok (previous.id, db) else (do
        let existing = attrs_of previous.id db
        synced ← sync_relation_attrs job db.relation_deltas.next attrs existing (
            log_relation job previous.id ChangeType.update
              (related x.relation parent_uri target_uri (map (λ a. (a.name, a.value)) existing)) db)
        ok (previous.id, set_relation_raw previous.id x.raw synced))

  unfoldable pub apply_relation :
      ImportJob → ResourceRelation → String → String → Dict Value → Db → Outcome (ℕ × Db)
  unfolding is_relation one_or_none first_relation later_relation
  apply_relation job x parent_uri target_uri attrs db = do
    previous ← one_or_none (
        filter
          (is_relation job.provider_account_id x.relation parent_uri target_uri db.resources.rows)
          db.relations.rows)
    elim previous [
      | none ↦ first_relation job x parent_uri target_uri attrs db
      | some p ↦ later_relation job p x parent_uri target_uri attrs db
    ]
