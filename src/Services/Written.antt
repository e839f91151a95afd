-- ===== src/Services/Written.antt =====
-- introspector/aws/svc.py: the rows that the import of a global service within one session writes.
use introspector.Services.Direct.{job_writer, import_accounts, call_specs}
use introspector.Prelude.{
  none, some, map, sym, String, Option, List, [], ◌∷◌, ◌++◌, ◌≡◌, refl, ◌∙◌, ap,
}
use introspector.Services.Accounts.{load_boto_session, Botocore}
use introspector.Services.{call_spec, spec_writer, GlobalResourceSpec, Responses}
use introspector.Services.Order.{Fetched, fetched_row, forget_id, gather, write_all-rows}
use introspector.Outcome.{ok, raise, ◌>>=◌, >>=-returns, ok-eq}
use introspector.Spec.{ServiceSpec}
use introspector.Store.Rows.{ProviderCredential, RawImport, ImportJob}
use introspector.Prelude.Text.{join}
use introspector.Value.{Value, str}
use introspector.Store.{Db}
use introspector.Paths.{path, from_import_job}
use introspector.Writer.{raw_import_row}
use mathlib.Core.List.{append-nil, append_assoc}

module _ {S P : Type 0} (botocore : Botocore S) (service_proxy : S → String → Option String → P)
    (job : ImportJob) (svc_name : String) (service_spec : ServiceSpec) where
  -- The raw import of a response, at the path of the import and without its id.
  abbrev pub spec_row : GlobalResourceSpec P → ProviderCredential → String × Value → RawImport
  spec_row fn cred (resource_name, raw) =
      raw_import_row (spec_writer fn (job_writer job svc_name)) job.path_prefix resource_name raw
        (some (("account_id", str cred.scope) ∷ [])) 0

  abbrev pub spec_rows : ProviderCredential → GlobalResourceSpec P → List RawImport
  spec_rows cred fn =
      elim (load_boto_session botocore cred >>= λ boto.
      fn.fetch (service_proxy boto svc_name none) service_spec) [
        | raise e ↦ []
        | ok found ↦ map (spec_row fn cred) found
      ]

  spec_rows_lem :
      (fn : GlobalResourceSpec P) (cred : ProviderCredential) (found : Responses)
      → map
          (fetched_row (record {
            writer = spec_writer fn (job_writer job svc_name);
            ps = from_import_job job;
            context = some (("account_id", str cred.scope) ∷ []);
            responses = found;
          }))
          found
        ≡ map (spec_row fn cred) found
  unfolding fetched_row path join from_import_job
  spec_rows_lem fn cred found = refl

  call_specs-rows :
      (fns : List (GlobalResourceSpec P)) (cred : ProviderCredential) (boto : S) (db db' : Db)
      → load_boto_session botocore cred ≡ ok boto
      → call_specs botocore service_proxy fns
          (service_proxy boto svc_name none)
          (job_writer job svc_name)
          cred.scope
          (from_import_job job)
          service_spec
          db
        ≡ ok db'
      → map forget_id db'.raw_imports.rows
        ≡ map forget_id db.raw_imports.rows ++ gather (spec_rows cred) fns
  unfolding call_specs gather
  call_specs-rows [] cred boto db db' loaded h =
      ap (λ (db : Db). map forget_id db.raw_imports.rows) (sym (ok-eq _ _ h))
      ∙ sym (append-nil (map forget_id db.raw_imports.rows))
  call_specs-rows (fn ∷ fns) cred boto db db' loaded h =
      let proxy = service_proxy boto svc_name none in
      let (next, first, rest) =
        >>=-returns
          (call_spec fn proxy (job_writer job svc_name) cred.scope (from_import_job job)
            service_spec db)
          _ h in
      let (found, fetches, written) =
        >>=-returns (fn.fetch proxy service_spec) _ (unfold call_spec in first) in
      let f : Fetched = record {
        writer = spec_writer fn (job_writer job svc_name);
        ps = from_import_job job;
        context = some (("account_id", str cred.scope) ∷ []);
        responses = found;
      } in
      let here : spec_rows cred fn ≡ map (fetched_row f) found =
        rw (spec_rows, loaded, fetches) (sym (spec_rows_lem fn cred found)) in
      call_specs-rows fns cred boto next db' loaded rest
      ∙ (ap (λ (d : Db). map forget_id d.raw_imports.rows ++ gather (spec_rows cred) fns)
            (sym (ok-eq _ _ written))
          ∙ (ap (λ rows. rows ++ gather (spec_rows cred) fns) (write_all-rows f found db)
              ∙ (append_assoc (map forget_id db.raw_imports.rows) (map (fetched_row f) found)
                    (gather (spec_rows cred) fns)
                  ∙ ap
                      (λ rows.
                        map forget_id db.raw_imports.rows ++ (rows ++ gather (spec_rows cred) fns))
                      (sym here))))

  abbrev pub account_rows :
      List (GlobalResourceSpec P) → String × ProviderCredential → List RawImport
  account_rows fns (p, cred) = gather (spec_rows cred) fns

  pub import_accounts-rows :
      (fns : List (GlobalResourceSpec P)) (accounts : List (String × ProviderCredential))
      (db db' : Db)
      → import_accounts botocore service_proxy job svc_name service_spec fns accounts db ≡ ok db'
      → map forget_id db'.raw_imports.rows
        ≡ map forget_id db.raw_imports.rows ++ gather (account_rows fns) accounts
  unfolding import_accounts gather
  import_accounts-rows fns [] db db' h =
      ap (λ (db : Db). map forget_id db.raw_imports.rows) (sym (ok-eq _ _ h))
      ∙ sym (append-nil (map forget_id db.raw_imports.rows))
  import_accounts-rows fns ((p, cred) ∷ accounts) db db' h =
      let (boto, loaded, rest) = >>=-returns (load_boto_session botocore cred) _ h in
      let (next, first, later) =
        >>=-returns
          (call_specs botocore service_proxy fns (service_proxy boto svc_name none)
            (job_writer job svc_name) cred.scope (from_import_job job) service_spec db)
          _ rest in
      import_accounts-rows fns accounts next db' later
      ∙ (ap (λ rows. rows ++ gather (account_rows fns) accounts)
            (call_specs-rows fns cred boto db next loaded first)
          ∙ append_assoc (map forget_id db.raw_imports.rows) (gather (spec_rows cred) fns)
              (gather (account_rows fns) accounts))
