-- ===== src/Delta/Relations/Loops.antt =====
-- introspector/delta/resource.py: map_resource_relations and map_relation_deletes. What the mapper finds
-- is the parameter `map_relations`: it takes the path, the resources of a raw import, the context, the
-- service and the name of the resource.
use introspector.Prelude.{
  Option, ℕ, String, ◌<>◌, Bool, not, ◌&&◌, List, [], ◌∷◌, ◌==◌, filter, any,
}
use introspector.Store.Responses.{raw_resources}
use introspector.Delta.Prefix.{import_resource_name}
use introspector.Prelude.Dict.{Dict}
use introspector.Prelude.Like.{like}
use introspector.Outcome.{Outcome, ok, ◌>>=◌}
use introspector.Value.{Value}
use introspector.Spec.{ImportSpec}
use introspector.Store.{Db}
use introspector.Store.Rows.{ImportJob, Resource, ResourceRelation, RawImport}
use introspector.Delta.Deletes.{in_spec, uri_of, delete_relation}
use introspector.Delta.Lookup.{Formats, ResourceId, get_by_uri}
use introspector.Delta.Relations.Apply.{MappedRelation, relation_row, apply_relation}

module _ (json_diff : Value → Value → Dict Value) where
  -- The loops of `map_resource_relations`, from the innermost: `found` is the set of the relations
  -- found so far, the last one first.
  unfoldable pub relate_targets :
      ImportJob
      → MappedRelation
      → ResourceId
      → List ResourceId
      → List ℕ
      → Db
      → Outcome (List ℕ × Db)
  unfolding relation_row apply_relation
  relate_targets job m parent [] found db = ok (found, db)
  relate_targets job m parent (target ∷ targets) found db = do
    (i, next) ←
        apply_relation json_diff job (relation_row job parent m.relation target m.attributes)
          parent.uri target.uri m.attributes db
    relate_targets job m parent targets (i ∷ found) next

  module _ (fmt : Formats) where
    unfoldable pub relate_parents :
        ImportJob → MappedRelation → List ResourceId → List ℕ → Db → Outcome (List ℕ × Db)
    unfolding get_by_uri relate_targets
    relate_parents job m [] found db = ok (found, db)
    relate_parents job m (parent ∷ parents) found db = do
      targets ← get_by_uri fmt job.provider_account_id m.target db
      (found', next) ← relate_targets job m parent targets found db
      relate_parents job m parents found' next

    unfoldable pub relate_all :
        ImportJob → List MappedRelation → List ℕ → Db → Outcome (List ℕ × Db)
    unfolding get_by_uri relate_parents
    relate_all job [] found db = ok (found, db)
    relate_all job (m ∷ ms) found db = do
      parents ← get_by_uri fmt job.provider_account_id m.parent db
      (found', next) ← relate_parents job m parents found db
      relate_all job ms found' next

    module _
        (map_relations : String
          → Value
          → Option (Dict Value)
          → String
          → String
          → Outcome (List MappedRelation))
        (resource_name : Option String) where
      unfoldable pub relate_imports :
          ImportJob → List RawImport → List ℕ → Db → Outcome (List ℕ × Db)
      unfolding raw_resources import_resource_name relate_all
      relate_imports job [] found db = ok (found, db)
      relate_imports job (r ∷ rs) found db = do
        resources ← raw_resources r
        relations ←
            map_relations r.path resources r.context r.service
              (import_resource_name resource_name r)
        (found', next) ← relate_all job relations found db
        relate_imports job rs found' next

      unfoldable pub map_resource_relations : ImportJob → String → Db → Outcome (List ℕ × Db)
      unfolding like relate_imports
      map_resource_relations job path_prefix db =
          relate_imports job
            (filter
              (λ r.
                (r.import_job_id == job.id)
                && (like r.path (path_prefix <> "%")
                    && (r.provider_account_id == job.provider_account_id)))
              db.raw_imports.rows)
            [] db

-- The query of `map_relation_deletes`, joined with the resource that the relation starts from.
unfoldable pub is_stale :
    ImportJob → String → List ℕ → ImportSpec → List Resource → ResourceRelation → Bool
unfolding like in_spec
is_stale job path_prefix found spec resources x =
    not (any (λ i. i == x.id) found)
    && any
        (λ r.
          (r.id == x.resource_id)
          && ((r.provider_account_id == job.provider_account_id)
              && (like r.path (path_prefix <> "%") && in_spec spec r)))
        resources

unfoldable pub delete_stale : ImportJob → List ResourceRelation → Db → Outcome Db
unfolding uri_of delete_relation
delete_stale job [] db = ok db
delete_stale job (x ∷ xs) db = do
  parent_uri ← uri_of x.resource_id db
  target_uri ← uri_of x.target_id db
  delete_stale job xs (delete_relation job x parent_uri target_uri db)

unfoldable pub map_relation_deletes : ImportJob → String → List ℕ → ImportSpec → Db → Outcome Db
unfolding is_stale delete_stale
map_relation_deletes job path_prefix found spec db =
    delete_stale job
      (filter (is_stale job path_prefix found spec db.resources.rows) db.relations.rows) db
