-- ===== src/Delta/Resource.antt =====
-- introspector/delta/resource.py: the resources and their raw documents. The mapper and the query of
-- the raw imports are in the functions that call these.
pub mod Unique
pub mod Frames
pub mod First
pub mod Stored
use introspector.Prelude.{
  ℕ, ◌+◌, String, Bool, true, false, not, ◌&&◌, ◌||◌, Option, none, some, List, [], ◌∷◌, ◌++◌, map,
  str_eq, opt_eq, ◌==◌, if◌then◌else◌, filter, any, ◌<>◌,
}
use introspector.Prelude.Dict.{Dict}
use introspector.Prelude.Like.{like}
use introspector.Outcome.{
  Outcome, ok, raise, gf_internal, integrity_error, multiple_results, attribute_error, ◌>>=◌,
}
use introspector.Value.{Value}
use introspector.Store.{Db}
use introspector.Store.Tables.{Table, insert, update, delete}
use introspector.Store.Rows.{
  ImportJob, Resource, ResourceRaw, ResourceAttribute, ResourceDelta, ResourceChange, ChangeType,
  MappedUri, raw_added,
}
use introspector.Delta.Attrs.{MappedAttribute, Scope, add_attr, diff_attrs}

-- introspector/mapper.py: what the mapper found for one resource, over the type of its uri
pub record MappedResource (U : Type 0) : Type 0 where
  pub name : Value
  pub provider_type : Option String
  pub raw : Value
  pub uri : U
  pub category : Option String
  pub service : String

unfoldable pub is_uri : ℕ → String → Resource → Bool
is_uri account uri r = str_eq r.uri uri && (r.provider_account_id == account)

-- query.one_or_none()
unfoldable pub one_or_none {ℓ} : {A : Type ℓ} → List A → Outcome (Option A)
one_or_none [] = ok none
one_or_none (x ∷ []) = ok (some x)
one_or_none (x ∷ (y ∷ xs)) = raise multiple_results

-- The raw document of a source, joined with the resource of the uri.
unfoldable pub raws_at : ℕ → String → String → Db → List ResourceRaw
unfolding is_uri
raws_at account source uri db =
    filter
      (λ w.
        str_eq w.source source
        && any (λ r. (r.id == w.resource_id) && is_uri account uri r) db.resources.rows)
      db.raws.rows

unfoldable pub scope_of : ImportJob → String → ℕ → Scope
scope_of job source resource_id = record {
  resource_id = resource_id;
  source = source;
  provider_account_id = job.provider_account_id;
}

-- db.add(resource) with the constraints `provider_uri` and `type_exists`; the row gets its id here
unfoldable pub add_resource : Resource → Db → Outcome Db
unfolding is_uri insert
add_resource r db =
    if any (is_uri r.provider_account_id r.uri) db.resources.rows
      || (opt_eq r.category none && opt_eq r.provider_type none)
    then raise integrity_error
    else ok (record db { resources = insert (λ i. record r { id = i }) db.resources })

-- db.add(ResourceRaw(…)) with the constraint `payload_source`
unfoldable pub add_raw : ℕ → String → ℕ → Value → Db → Outcome Db
unfolding insert
add_raw account source resource_id raw db =
    if any (λ w. str_eq w.source source && (w.resource_id == resource_id)) db.raws.rows
    then raise integrity_error
    else ok (record db {
      raws =
          insert
            (λ i. record {
              id = i;
              source = source;
              resource_id = resource_id;
              provider_account_id = account;
              raw = raw;
            })
            db.raws;
    })

-- db.add(ResourceDelta(…))
unfoldable pub log_resource : ImportJob → ℕ → ChangeType → ResourceChange → Db → Db
unfolding insert
log_resource job resource_id change details db = record db {
  deltas =
      insert
        (λ i. record {
          id = i;
          provider_account_id = job.provider_account_id;
          import_job_id = job.id;
          resource_id = resource_id;
          change_type = change;
          change_details = details;
        })
        db.deltas;
}

-- previous.raw = raw
unfoldable pub set_raw : ResourceRaw → Value → Db → Db
unfolding update
set_raw previous raw db = record db {
  raws = update (λ w. w.id) previous.id (λ w. record w { raw = raw }) db.raws;
}

module _ (json_diff : Value → Value → Dict Value) where
  unfoldable pub add_attrs : Scope → ℕ → List MappedAttribute → Db → Db
  unfolding add_attr
  add_attrs s delta_id [] db = db
  add_attrs s delta_id (a ∷ attrs) db =
      add_attrs s delta_id attrs (add_attr json_diff s delta_id a db)

  unfoldable pub finish_diff : ResourceRaw → Value → Bool × Db → Db
  unfolding set_raw
  finish_diff previous raw (true, db) = set_raw previous raw db
  finish_diff previous raw (false, db) = db

  module _ (job : ImportJob) (source : String) where
    -- The two branches of `apply_resource`: a first import, and a later one.
    unfoldable pub first_import : Resource → Value → List MappedAttribute → Db → Outcome Db
    unfolding add_resource add_raw log_resource add_attrs scope_of
    first_import resource raw attrs db = do
      let i = db.resources.next
      with_resource ← add_resource resource db
      with_raw ← add_raw job.provider_account_id source i raw with_resource
      ok (
          add_attrs (scope_of job source i) with_raw.deltas.next attrs
            (log_resource job i ChangeType.add (raw_added raw) with_raw))

    unfoldable pub later_import : ResourceRaw → Value → List MappedAttribute → Db → Db
    unfolding finish_diff diff_attrs scope_of
    later_import previous raw attrs db = finish_diff previous raw (
        diff_attrs json_diff (scope_of job source previous.resource_id) job.id previous.raw raw
          attrs db)

    unfoldable pub apply_resource : Resource → Value → List MappedAttribute → Db → Outcome Db
    unfolding one_or_none raws_at first_import later_import
    apply_resource resource raw attrs db = do
      previous ← one_or_none (raws_at job.provider_account_id source resource.uri db)
      elim previous [
        | none ↦ first_import resource raw attrs db
        | some w ↦ ok (later_import w raw attrs db)
      ]

  -- db.merge(MappedURI(…)): the primary key is the uri, the source and the job
  unfoldable pub merge_uri : MappedUri → List MappedUri → List MappedUri
  merge_uri m [] = m ∷ []
  merge_uri m (x ∷ xs) =
      let rest = merge_uri m xs in
      if str_eq x.uri m.uri && (str_eq x.source m.source && (x.import_job_id == m.import_job_id))
      then m ∷ xs
      else x ∷ rest

  -- Resource(…): the id is given when the row is added.
  unfoldable pub resource_row :
      ImportJob → String → MappedResource (Option String) → String → Resource
  resource_row job path mapped uri = record {
    id = 0;
    path = path;
    uri = uri;
    name = mapped.name;
    provider_account_id = job.provider_account_id;
    provider_type = mapped.provider_type;
    service = mapped.service;
    category = mapped.category;
  }

  unfoldable pub apply_mapped_attrs :
      ImportJob
      → String
      → MappedResource (Option String)
      → List MappedAttribute
      → String
      → Option ℕ
      → Db
      → Outcome Db
  unfolding merge_uri resource_row apply_resource
  apply_mapped_attrs job path mapped attrs source raw_import_id db = elim mapped.uri [
    | none ↦ raise gf_internal
    | some uri ↦
        apply_resource job source (resource_row job path mapped uri) mapped.raw attrs (record db {
          mapped_uris =
              merge_uri
                (record {
                  uri = uri;
                  source = source;
                  import_job_id = job.id;
                  provider_account_id = job.provider_account_id;
                  raw_import_id = raw_import_id;
                })
                db.mapped_uris;
        })
  ]
