-- ===== src/Delta/Prefix/Imports.antt =====
-- introspector/delta/resource.py: what is mapped leaves the raw imports as they are.
use introspector.Delta.Resource.{
  merge_uri, MappedResource, add_attrs, add_resource, add_raw, log_resource, finish_diff,
  first_import, later_import, one_or_none, raws_at, scope_of, apply_resource, apply_mapped_attrs,
  set_raw, is_uri, resource_row,
}
use introspector.Prelude.{
  opt_eq, ℕ, ◌≡◌, refl, sym, ◌∙◌, ap, inl, inr, String, Bool, true, false, ◌&&◌, ◌||◌, Option, none,
  some, List, [], ◌∷◌, filter, any, Bool-cases, Option-cases,
}
use introspector.Delta.Resource.First.{add_raw_lem, with_raw}
use introspector.Prelude.Dict.{Dict}
use introspector.Outcome.{ok, ok-eq, raise_ok, >>=-returns}
use introspector.Value.{Value}
use introspector.Store.{Db}
use introspector.Store.Rows.{
  ImportJob, Resource, ResourceRaw, ResourceAttribute, ChangeType, raw_added,
}
use introspector.Uri.{Uri}
use introspector.Delta.Attrs.{
  MappedAttribute, Scope, find_existing_attr, forget, add_attr, change_attr, drop_attr, drop_attrs,
  sync_attrs, needs_update, add_delta, in_scope, diff_attrs, differs,
}
use introspector.Delta.Attrs.Steps.{sync_attrs_miss, sync_attrs_hit}
use introspector.Delta.Prefix.{column_uri, with_uri, apply_results}

module _ (json_diff : Value → Value → Dict Value) where
  module _ (s : Scope) (d : ℕ) where
    drop_attrs-imports :
        (es : List ResourceAttribute) (db : Db)
        → (drop_attrs json_diff s d es db).raw_imports ≡ db.raw_imports
    unfolding drop_attrs drop_attr
    drop_attrs-imports [] db = refl
    drop_attrs-imports (e ∷ es) db = drop_attrs-imports es (drop_attr json_diff s d e db)

    change_attr-imports :
        (e : ResourceAttribute) (a : MappedAttribute) (db : Db)
        → (change_attr json_diff s d e a db).raw_imports ≡ db.raw_imports
    unfolding change_attr
    change_attr-imports e a db = elim (Bool-cases (differs json_diff e.value a.value)) [
      | inl new ↦ rw new refl
      | inr old ↦ rw old refl
    ]

    sync_attrs-imports :
        (attrs : List MappedAttribute) (es : List ResourceAttribute) (db : Db)
        → (sync_attrs json_diff s d attrs es db).raw_imports ≡ db.raw_imports
    sync_attrs-imports [] es db = unfold sync_attrs in drop_attrs-imports es db
    sync_attrs-imports (a ∷ attrs) es db = elim (Option-cases (find_existing_attr es a)) [
      | inl miss ↦
          rw (sync_attrs_miss json_diff s d a attrs es db miss)
            (sync_attrs-imports attrs es (add_attr json_diff s d a db) ∙ (unfold add_attr in refl))
      | inr (e, hit) ↦ rw (sync_attrs_hit json_diff s d a attrs es db e hit) (
          sync_attrs-imports attrs (forget e es) (change_attr json_diff s d e a db)
          ∙ change_attr-imports e a db)
    ]

    add_attrs-imports :
        (attrs : List MappedAttribute) (db : Db)
        → (add_attrs json_diff s d attrs db).raw_imports ≡ db.raw_imports
    unfolding add_attrs add_attr
    add_attrs-imports [] db = refl
    add_attrs-imports (a ∷ attrs) db = add_attrs-imports attrs (add_attr json_diff s d a db)

  diff_attrs-imports :
      (s : Scope) (job : ℕ) (previous current : Value) (attrs : List MappedAttribute) (db : Db)
      → (diff_attrs json_diff s job previous current attrs db).1.raw_imports ≡ db.raw_imports
  unfolding diff_attrs add_delta
  diff_attrs-imports s job previous current attrs db =
      elim (Bool-cases (needs_update json_diff s previous current attrs db.attributes.rows)) [
        | inl new ↦ rw new (
            sync_attrs-imports s db.deltas.next attrs (filter (in_scope s) db.attributes.rows)
              (add_delta json_diff s job previous current db))
        | inr old ↦ rw old refl
      ]

  finish_diff-imports :
      (previous : ResourceRaw) (raw : Value) (q : Bool × Db)
      → (finish_diff json_diff previous raw q).raw_imports ≡ q.1.raw_imports
  unfolding finish_diff set_raw
  finish_diff-imports previous raw (true, db) = refl
  finish_diff-imports previous raw (false, db) = refl

  add_resource-imports :
      (r : Resource) (db db' : Db) → add_resource r db ≡ ok db' → db'.raw_imports ≡ db.raw_imports
  unfolding add_resource
  add_resource-imports r db db' h =
      elim (Bool-cases (
        any (is_uri r.provider_account_id r.uri) db.resources.rows
        || (opt_eq r.category none && opt_eq r.provider_type none))) [
          | inl bad ↦ absurd (raise_ok (rw bad at h))
          | inr good ↦ ap (λ (d : Db). d.raw_imports) (sym (ok-eq _ _ (rw good at h)))
        ]

  module _ (job : ImportJob) where
    first_import-imports :
        (source : String) (resource : Resource) (raw : Value) (attrs : List MappedAttribute)
        (db db' : Db)
        → first_import json_diff job source resource raw attrs db ≡ ok db'
        → db'.raw_imports ≡ db.raw_imports
    unfolding first_import with_raw log_resource
    first_import-imports source resource raw attrs db db' h =
        let (added, first, rest) = >>=-returns (add_resource resource db) _ h in
        let (stored, second, end) =
          >>=-returns (add_raw job.provider_account_id source db.resources.next raw added) _ rest in
        let same =
          (add_raw_lem job.provider_account_id source db.resources.next raw added stored
            second).1 in
        ap (λ (d : Db). d.raw_imports) (sym (ok-eq _ _ end))
        ∙ (add_attrs-imports (scope_of job source db.resources.next) stored.deltas.next attrs
              (log_resource job db.resources.next ChangeType.add (raw_added raw) stored)
            ∙ (ap (λ (d : Db). d.raw_imports) (sym same)
                ∙ add_resource-imports resource db added first))

    apply_resource-imports :
        (source : String) (resource : Resource) (raw : Value) (attrs : List MappedAttribute)
        (db db' : Db)
        → apply_resource json_diff job source resource raw attrs db ≡ ok db'
        → db'.raw_imports ≡ db.raw_imports
    unfolding apply_resource later_import
    apply_resource-imports source resource raw attrs db db' h =
        let (previous, query, rest) =
          >>=-returns (one_or_none (raws_at job.provider_account_id source resource.uri db)) _ h in
        elim (Option-cases previous) [
          | inl absent ↦ first_import-imports source resource raw attrs db db' (rw absent at rest)
          | inr (w, present) ↦
              ap (λ (d : Db). d.raw_imports) (sym (ok-eq _ _ (rw present at rest)))
              ∙ (finish_diff-imports w raw (
                    diff_attrs json_diff (scope_of job source w.resource_id) job.id w.raw raw attrs
                      db)
                  ∙ diff_attrs-imports (scope_of job source w.resource_id) job.id w.raw raw attrs
                      db)
        ]

    apply_mapped_attrs-imports :
        (path : String) (mapped : MappedResource (Option String)) (attrs : List MappedAttribute)
        (source : String) (raw_import_id : Option ℕ) (db db' : Db)
        → apply_mapped_attrs json_diff job path mapped attrs source raw_import_id db ≡ ok db'
        → db'.raw_imports ≡ db.raw_imports
    unfolding apply_mapped_attrs
    apply_mapped_attrs-imports path mapped attrs source raw_import_id db db' h =
        elim (Option-cases mapped.uri) [
          | inl missing ↦ absurd (raise_ok (rw missing at h))
          | inr (uri, there) ↦
              apply_resource-imports source (resource_row json_diff job path mapped uri) mapped.raw
                attrs
                (record db {
                  mapped_uris =
                      merge_uri json_diff
                        (record {
                          uri = uri;
                          source = source;
                          import_job_id = job.id;
                          provider_account_id = job.provider_account_id;
                          raw_import_id = raw_import_id;
                        })
                        db.mapped_uris;
                })
                db' (rw there at h)
        ]

    pub apply_results-imports :
        (path : String) (raw_import_id : ℕ)
        (results : List (MappedResource Uri × List MappedAttribute)) (db db' : Db)
        → apply_results json_diff job path raw_import_id results db ≡ ok db'
        → db'.raw_imports ≡ db.raw_imports
    unfolding apply_results
    apply_results-imports path raw_import_id [] db db' h =
        ap (λ (d : Db). d.raw_imports) (sym (ok-eq _ _ h))
    apply_results-imports path raw_import_id ((mapped, attrs) ∷ results) db db' h =
        let (uri, _, applied) = >>=-returns (column_uri mapped.uri) _ h in
        let (next, first, rest) =
          >>=-returns
            (apply_mapped_attrs json_diff job path (with_uri mapped uri) attrs "base"
              (some raw_import_id) db)
            _ applied in
        apply_results-imports path raw_import_id results next db' rest
        ∙ apply_mapped_attrs-imports path (with_uri mapped uri) attrs "base" (some raw_import_id) db
            next first
