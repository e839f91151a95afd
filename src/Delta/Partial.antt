-- ===== src/Delta/Partial.antt =====
-- introspector/delta/partial.py: what a source of its own adds to a resource that is mapped already. What
-- the mapper finds is the parameter `map_partials`: it takes the resources of a raw import, the context,
-- the service and the name of the resource.
pub mod Stored
pub mod Removed
use introspector.Prelude.{
  ℕ, ◌+◌, String, ◌<>◌, Bool, not, ◌&&◌, none, some, List, [], ◌∷◌, ◌++◌, map, str_eq, ◌==◌, filter,
  any,
}
use introspector.Prelude.Dict.{Dict, put}
use introspector.Prelude.Like.{like}
use introspector.Outcome.{Outcome, ok, raise, syntax_error, ◌>>=◌}
use introspector.Value.{Value, str}
use introspector.Spec.{ImportSpec}
use introspector.Store.{Db}
use introspector.Store.Tables.{insert, delete}
use introspector.Store.Rows.{
  ImportJob, Resource, ResourceRaw, RawImport, ChangeType, AttributeChange, source_added,
  source_deleted,
}
use introspector.Store.Responses.{raw_resources}
use introspector.Uri.{Uri}
use introspector.Delta.Attrs.{
  MappedAttribute, Scope, in_scope, attribute_row, log_attribute, diff_attrs, drop_attrs,
}
use introspector.Delta.Resource.{
  one_or_none, raws_at, scope_of, add_raw, log_resource, finish_diff, merge_uri,
}
use introspector.Delta.Deletes.{in_spec}
use introspector.Delta.Lookup.{Formats, ResourceId, get_by_uri}

-- introspector/mapper.py: Partial
pub record Partial : Type 0 where
  pub target_uri : Uri
  pub raw : Value
  pub attrs : List MappedAttribute

-- The loop that adds the attributes, and the one that logs them: their ids follow one another.
unfoldable pub add_attribute_rows : Scope → List MappedAttribute → Db → Db
unfolding insert attribute_row
add_attribute_rows s [] db = db
add_attribute_rows s (a ∷ attrs) db =
    add_attribute_rows s attrs (record db { attributes = insert (attribute_row s a) db.attributes })

unfoldable pub log_added : ImportJob → ℕ → ℕ → List MappedAttribute → Db → Db
unfolding log_attribute
log_added job delta_id i [] db = db
log_added job delta_id i (a ∷ attrs) db = log_added job delta_id (i + 1) attrs (
    log_attribute job.provider_account_id delta_id i ChangeType.add
      (AttributeChange.current a.attr_type a.name a.value) db)

unfoldable pub first_partial :
    ImportJob → String → ℕ → Value → List MappedAttribute → Db → Outcome Db
unfolding add_raw add_attribute_rows log_resource log_added scope_of
first_partial job source target_id raw attrs db = do
  with_raw ← add_raw job.provider_account_id source target_id raw db
  ok (
      log_added job with_raw.deltas.next with_raw.attributes.next attrs (
        log_resource job target_id ChangeType.update (source_added source raw)
          (add_attribute_rows (scope_of job source target_id) attrs with_raw)))

-- raw_import.context or {}
unfoldable pub context_of : RawImport → Dict Value
context_of r = elim r.context [ none ↦ [] | some context ↦ context ]

module _ (json_diff : Value → Value → Dict Value) (job : ImportJob) (source : String) where
  unfoldable pub later_partial : ResourceRaw → ℕ → Value → List MappedAttribute → Db → Db
  unfolding finish_diff diff_attrs scope_of
  later_partial previous target_id raw attrs db =
      finish_diff json_diff previous raw
        (diff_attrs json_diff (scope_of job source target_id) job.id previous.raw raw attrs db)

  unfoldable pub apply_partial : String → ℕ → Value → List MappedAttribute → Db → Outcome Db
  unfolding one_or_none raws_at first_partial later_partial
  apply_partial target_uri target_id raw attrs db = do
    previous ← one_or_none (raws_at job.provider_account_id source target_uri db)
    elim previous [
      | none ↦ first_partial job source target_id raw attrs db
      | some w ↦ ok (later_partial w target_id raw attrs db)
    ]

  -- The loops of `map_partial_prefix`, from the innermost.
  unfoldable pub apply_targets : ℕ → Partial → List ResourceId → Db → Outcome Db
  unfolding merge_uri apply_partial
  apply_targets raw_import_id p [] db = ok db
  apply_targets raw_import_id p (target ∷ targets) db = do
    next ← apply_partial target.uri target.id p.raw p.attrs (record db {
      mapped_uris =
          merge_uri json_diff
            (record {
              uri = target.uri;
              source = source;
              import_job_id = job.id;
              provider_account_id = job.provider_account_id;
              raw_import_id = some raw_import_id;
            })
            db.mapped_uris;
    })
    apply_targets raw_import_id p targets next

  module _ (fmt : Formats) where
    unfoldable pub apply_partials : ℕ → List Partial → Db → Outcome Db
    unfolding get_by_uri apply_targets
    apply_partials raw_import_id [] db = ok db
    apply_partials raw_import_id (p ∷ ps) db = do
      targets ← get_by_uri fmt job.provider_account_id p.target_uri db
      next ← apply_targets raw_import_id p targets db
      apply_partials raw_import_id ps next

    module _ (map_partials : Value → Dict Value → String → String → Outcome (List Partial)) where
      unfoldable pub apply_imports : List RawImport → Db → Outcome Db
      unfolding context_of raw_resources put apply_partials
      apply_imports [] db = ok db
      apply_imports (r ∷ rs) db = do
        resources ← raw_resources r
        partials ←
            map_partials resources (put "source" (str source) (context_of r)) r.service
              r.resource_name
        next ← apply_partials r.id partials db
        apply_imports rs next

      unfoldable pub map_partial_prefix : String → Db → Outcome Db
      unfolding like apply_imports
      map_partial_prefix path_prefix db =
          apply_imports
            (filter
              (λ r.
                (r.import_job_id == job.id)
                && (like r.path (path_prefix <> "%")
                    && (not r.mapped
                        && (str_eq r.source source
                            && (r.provider_account_id == job.provider_account_id)))))
              db.raw_imports.rows)
            db

  -- The rows of the query of `map_partial_deletes`: a resource that the import did not map from the
  -- source, with its raw document of the source.
  unfoldable pub is_unmapped : String → ImportSpec → Db → Resource → Bool
  unfolding like in_spec
  is_unmapped path spec db r =
      (r.provider_account_id == job.provider_account_id)
      && (like r.path (path <> "%")
          && (in_spec spec r
              && not (
                  any
                    (λ m.
                      str_eq m.source source && ((m.import_job_id == job.id) && str_eq m.uri r.uri))
                    db.mapped_uris)))

  unfoldable pub with_raws : List ResourceRaw → List Resource → List (Resource × ResourceRaw)
  with_raws raws [] = []
  with_raws raws (r ∷ rs) =
      map (λ w. (r, w)) (filter (λ w. (w.resource_id == r.id) && str_eq w.source source) raws)
      ++ with_raws raws rs

  -- The body of the loop: the log, then the raw document and the attributes of the source.
  unfoldable pub delete_partial : Resource × ResourceRaw → Db → Db
  unfolding log_resource delete drop_attrs scope_of in_scope
  delete_partial (r, w) db =
      let logged = log_resource job r.id ChangeType.update (source_deleted source) db in
      drop_attrs json_diff (scope_of job source r.id) db.deltas.next
        (filter (in_scope (scope_of job source r.id)) db.attributes.rows)
        (record logged { raws = delete (λ x. x.id) w.id logged.raws })

  unfoldable pub delete_partials : List (Resource × ResourceRaw) → Db → Db
  unfolding delete_partial
  delete_partials [] db = db
  delete_partials (d ∷ ds) db = delete_partials ds (delete_partial d db)

  -- A specification without any service makes `AND () AND` of the query.
  unfoldable pub map_partial_deletes : String → ImportSpec → Db → Outcome Db
  unfolding is_unmapped with_raws delete_partials
  map_partial_deletes path (some []) db = raise syntax_error
  map_partial_deletes path spec db = ok (
      delete_partials (with_raws db.raws.rows (filter (is_unmapped path spec db) db.resources.rows))
        db)
