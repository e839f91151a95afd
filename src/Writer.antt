-- ===== src/Writer.antt =====
-- introspector/__init__.py: ImportWriter, which saves a response as a raw import.
use Prim.Native.Char.{code}
use introspector.Prelude.{
  ℕ, ◌≡◌, refl, ◌∙◌, ap, String, ◌<>◌, true, false, Option, List, [], ◌∷◌, ◌++◌, arith, filter,
  filter-append,
}
use introspector.Prelude.Dict.{Dict}
use introspector.Prelude.Like.{codes, begins, like, IsPlain, like_codes-prefix}
use introspector.Value.{Value}
use introspector.Store.{Db}
use introspector.Store.Tables.{insert}
use introspector.Store.Rows.{ImportJob, RawImport}
use introspector.Delta.Prefix.{is_pending}
use text.Mathlib.TextLemmas.{nil-append, cons-append}

pub record ImportWriter : Type 0 where
  pub import_job_id : ℕ
  pub provider_account_id : ℕ
  pub service : String
  pub phase : ℕ
  pub source : String

unfoldable pub db_import_writer : (job_id account : ℕ) → String → ℕ → String → ImportWriter
db_import_writer job_id account service phase source = record {
  import_job_id = job_id;
  provider_account_id = account;
  service = service;
  phase = phase;
  source = source;
}

unfoldable pub for_source : String → ImportWriter → ImportWriter
for_source source w = record w { source = source }

-- RawImport(…): `mapped` is false by default.
unfoldable pub raw_import_row :
    ImportWriter → String → String → Value → Option (Dict Value) → ℕ → RawImport
raw_import_row w path resource_name raw context i = record {
  id = i;
  import_job_id = w.import_job_id;
  provider_account_id = w.provider_account_id;
  source = w.source;
  service = w.service;
  path = path;
  resource_name = resource_name;
  raw = raw;
  context = context;
  phase = w.phase;
  mapped = false;
}

-- writer(path, resource_name, raw, context)
unfoldable pub write : ImportWriter → String → String → Value → Option (Dict Value) → Db → Db
unfolding raw_import_row insert
write w path resource_name raw context db = record db {
  raw_imports = insert (raw_import_row w path resource_name raw context) db.raw_imports;
}

pub codes-append : (p q : String) → codes (p <> q) ≡ codes p ++ codes q
codes-append String.[] q = rw nil-append refl
codes-append (String.◌∷◌ c p) q = rw cons-append (ap (◌∷◌ (code c)) (codes-append p q))

begins-append : (p s : List ℕ) → begins p (p ++ s) ≡ true
unfolding begins
begins-append [] s = refl
begins-append (c ∷ p) s = ground (arith, begins-append p s)

pub like-prefix : (p s : String) → IsPlain (codes p) → like (p <> s) (p <> "%") ≡ true
unfolding like
like-prefix p s plain =
    rw
      (codes-append p "%", codes-append p s, like_codes-prefix (codes p) (codes p ++ codes s) plain)
      (begins-append (codes p) (codes s))

-- What a writer of the job writes for the base source below a path is what `map_resource_prefix` of that
-- path has left to map, after what it had before. It is assumed that the path has no character that
-- is special to `LIKE`.
pub write-is_pending :
    (job : ImportJob) (service : String) (phase : ℕ) (prefix rest resource_name : String)
    (raw : Value) (context : Option (Dict Value)) (db : Db)
    → IsPlain (codes prefix)
    → filter
        (is_pending job prefix)
        (write
          (db_import_writer job.id job.provider_account_id service phase "base")
          (prefix <> rest)
          resource_name
          raw
          context
          db).raw_imports.rows
      ≡ filter (is_pending job prefix) db.raw_imports.rows
        ++ raw_import_row
            (db_import_writer job.id job.provider_account_id service phase "base")
            (prefix <> rest)
            resource_name
            raw
            context
            db.raw_imports.next
          ∷ []
unfolding write db_import_writer is_pending insert raw_import_row
write-is_pending job service phase prefix rest resource_name raw context db plain =
    filter-append (is_pending job prefix) db.raw_imports.rows _
    ∙ rw (is_pending, like-prefix prefix rest plain) (ground arith)
