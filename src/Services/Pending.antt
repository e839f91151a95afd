-- ===== src/Services/Pending.antt =====
-- introspector/aws/svc.py and map.py: which of the responses that an import writes `map_import` finds below
-- the path of an account.
use text.Mathlib.TextLemmas.{append_assoc}
use introspector.Paths.{scope, path, from_import_job}
use introspector.Writer.{db_import_writer, like-prefix}
use introspector.Services.Order.{Fetched, forget_id, fetched_row, write_all-rows}
use introspector.Services.Region.{answer, region_row, region_rows_lem}
use introspector.Prelude.{
  some, map, filter, filter-append, true, refl, sym, String, ◌<>◌, Option, List, [], ◌∷◌, ◌++◌, ◌≡◌,
  ◌∙◌, ap, arith,
}
use introspector.Outcome.{ok, >>=-returns}
use introspector.Services.Accounts.{load_boto_session_from_config, Botocore}
use introspector.Services.Pool.{async_proxy, task_args}
use introspector.Spec.{ServiceSpec}
use introspector.Services.{RegionalImportFn, Responses, write_all, call_region}
use introspector.Store.{Db}
use introspector.Store.Rows.{ProviderCredential, ImportJob, RawImport}
use introspector.Prelude.Text.{join}
use introspector.Prelude.Like.{codes, like, IsPlain}
use introspector.Value.{str}
use introspector.Delta.Prefix.{is_pending}

-- The path of an account of the import.
abbrev pub account_path : ImportJob → String → String
account_path job account = path (scope account (from_import_job job))

like_below : (p region : String) → IsPlain (codes p) → like (p <> ("$" <> region)) (p <> "%") ≡ true
like_below p region plain = like-prefix p ("$" <> region) plain

region_path :
    (job : ImportJob) (account region : String)
    → path (scope region (scope account (from_import_job job)))
      ≡ account_path job account <> ("$" <> region)
unfolding path join scope from_import_job
region_path job account region = sym (
    append_assoc job.path_prefix ("$" <> account) ("$" <> region)
    ∙ ap (◌<>◌ job.path_prefix) (append_assoc "$" account ("$" <> region)))

-- The id of a row plays no part in what is to map.
filter-forget_id :
    (job : ImportJob) (p : String) (rows : List RawImport)
    → filter (is_pending job p) (map forget_id rows)
      ≡ map forget_id (filter (is_pending job p) rows)
unfolding is_pending
filter-forget_id job p [] = refl
filter-forget_id job p (r ∷ rows) = ground (arith, filter-forget_id job p rows)

region_rows-is_pending :
    (job : ImportJob) (svc_name region : String) (cred : ProviderCredential) (found : Responses)
    → IsPlain (codes (account_path job cred.scope))
    → filter
        (is_pending job (account_path job cred.scope))
        (map (region_row job svc_name region cred) found)
      ≡ map (region_row job svc_name region cred) found
unfolding is_pending path join scope from_import_job
region_rows-is_pending job svc_name region cred [] plain = refl
region_rows-is_pending job svc_name region cred ((resource_name, raw) ∷ found) plain =
    let there = like_below (account_path job cred.scope) region plain in
    let at : account_path job cred.scope <> ("$" <> region)
        ≡ job.path_prefix <> ("$" <> (cred.scope <> ("$" <> region))) =
      sym (region_path job cred.scope region) ∙ (unfold path join scope from_import_job in refl) in
    ground (arith, (rw at at there), region_rows-is_pending job svc_name region cred found plain)

-- Where the service answers, `_async_proxy` for a region of an account returns, and then
-- `map_resource_prefix` of the path of the account has to map, after what it had before, one row for each
-- response and in their order: of the base source and the first phase, of the service, at the path of
-- the account and the region. It is assumed that the account's path has no character that is special
-- to `LIKE`.
pub async_proxy-is_pending :
    {S P : Type 0} (botocore : Botocore S) (service_proxy : S → String → Option String → P)
    (job : ImportJob) (cred : ProviderCredential) (svc_name region : String)
    (service_spec : ServiceSpec) (fn : RegionalImportFn P) (found : Responses) (db : Db)
    → IsPlain (codes (account_path job cred.scope))
    → answer botocore service_proxy job svc_name service_spec fn region cred ≡ ok found
    → (db' : Db) × (async_proxy botocore service_proxy
          (task_args job.id job.provider_account_id
            (from_import_job job)
            service_spec
            svc_name
            cred)
          region
          fn
          db
        ≡ ok db')
      × (map forget_id (filter (is_pending job (account_path job cred.scope)) db'.raw_imports.rows)
          ≡ map forget_id
              (filter (is_pending job (account_path job cred.scope)) db.raw_imports.rows)
            ++ map (region_row job svc_name region cred) found)
unfolding async_proxy task_args call_region
async_proxy-is_pending botocore service_proxy job cred svc_name region service_spec fn found db
      plain answered =
    let (boto, loaded, fetches) =
      >>=-returns (load_boto_session_from_config botocore cred.config) _ answered in
    let p = account_path job cred.scope in
    let f : Fetched = record {
      writer = db_import_writer job.id job.provider_account_id svc_name 0 "base";
      ps = scope region (scope cred.scope (from_import_job job));
      context = some (("region", str region) ∷ []);
      responses = found;
    } in
    (
      write_all f.writer f.ps f.context found db,
      rw (loaded, fetches) refl,
      sym (filter-forget_id job p (write_all f.writer f.ps f.context found db).raw_imports.rows)
          ∙ (ap (filter (is_pending job p)) (write_all-rows f found db)
              ∙ (filter-append (is_pending job p) (map forget_id db.raw_imports.rows)
                    (map (fetched_row f) found)
                  ∙ rw
                      (
                        filter-forget_id job p db.raw_imports.rows,
                        region_rows_lem botocore service_proxy job svc_name service_spec fn region
                            cred found,
                        region_rows-is_pending job svc_name region cred found plain,
                      )
                      refl)),
    )
