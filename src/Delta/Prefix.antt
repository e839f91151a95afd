-- ===== src/Delta/Prefix.antt =====
-- introspector/delta/resource.py: map_resource_prefix. What the mapper finds is the parameter
-- `map_resources`: it takes the resources of a raw import, the context, the service and the name of the
-- resource.
pub mod Imports
pub mod Again
use introspector.Prelude.{
  ℕ, String, ◌<>◌, Bool, true, not, ◌&&◌, Option, none, some, List, [], ◌∷◌, str_eq, ◌==◌, filter,
}
use introspector.Prelude.Dict.{Dict, put}
use introspector.Prelude.Like.{like}
use introspector.Outcome.{Outcome, ok, raise, type_error, ◌>>=◌}
use introspector.Value.{Value, null, str}
use introspector.Store.{Db}
use introspector.Store.Tables.{update}
use introspector.Store.Rows.{ImportJob, RawImport}
use introspector.Store.Responses.{raw_resources}
use introspector.Uri.{Uri, exact}
use introspector.Delta.Attrs.{MappedAttribute}
use introspector.Delta.Resource.{MappedResource, apply_mapped_attrs}
use introspector.Delta.Partial.{context_of}

-- The uri as the column takes it: a pattern or a function is no value of a column.
unfoldable pub column_uri : Uri → Outcome (Option String)
column_uri (exact null) = ok none
column_uri (exact (str uri)) = ok (some uri)
column_uri uri = raise type_error

unfoldable pub with_uri : MappedResource Uri → Option String → MappedResource (Option String)
with_uri mapped uri = record {
  name = mapped.name;
  provider_type = mapped.provider_type;
  raw = mapped.raw;
  uri = uri;
  category = mapped.category;
  service = mapped.service;
}

-- The query for the raw imports that are not mapped yet.
unfoldable pub is_pending : ImportJob → String → RawImport → Bool
unfolding like
is_pending job path_prefix r =
    (r.import_job_id == job.id)
    && (like r.path (path_prefix <> "%")
        && (not r.mapped
            && (str_eq r.source "base" && (r.provider_account_id == job.provider_account_id))))

-- raw_import.mapped = True
unfoldable pub set_mapped : ℕ → Db → Db
unfolding update
set_mapped i db = record db {
  raw_imports = update (λ r. r.id) i (λ r. record r { mapped = true }) db.raw_imports;
}

unfoldable pub import_resource_name : Option String → RawImport → String
import_resource_name none r = r.resource_name
import_resource_name (some name) r = name

module _ (json_diff : Value → Value → Dict Value) (job : ImportJob) where
  unfoldable pub apply_results :
      String → ℕ → List (MappedResource Uri × List MappedAttribute) → Db → Outcome Db
  unfolding column_uri with_uri apply_mapped_attrs
  apply_results path raw_import_id [] db = ok db
  apply_results path raw_import_id ((mapped, attrs) ∷ results) db = do
    uri ← column_uri mapped.uri
    next ←
        apply_mapped_attrs json_diff job path (with_uri mapped uri) attrs "base"
          (some raw_import_id) db
    apply_results path raw_import_id results next

  module _
      (map_resources : Value
        → Dict Value
        → String
        → String
        → Outcome (List (MappedResource Uri × List MappedAttribute)))
      (resource_name : Option String) where
    unfoldable pub map_import : RawImport → Db → Outcome Db
    unfolding context_of put raw_resources apply_results set_mapped import_resource_name
    map_import r db = do
      resources ← raw_resources r
      results ←
          map_resources resources (put "path" (str r.path) (context_of r)) r.service
            (import_resource_name resource_name r)
      applied ← apply_results r.path r.id results db
      ok (set_mapped r.id applied)

    unfoldable pub map_imports : List RawImport → Db → Outcome Db
    unfolding map_import
    map_imports [] db = ok db
    map_imports (r ∷ rs) db = do next ← map_import r db; map_imports rs next

    unfoldable pub map_resource_prefix : String → Db → Outcome Db
    unfolding is_pending map_imports
    map_resource_prefix path_prefix db =
        map_imports (filter (is_pending job path_prefix) db.raw_imports.rows) db
