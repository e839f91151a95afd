-- ===== src/Services/Missed.antt =====
-- introspector/aws/svc.py and map.py: what a global service that is imported within one session writes.
use introspector.Services.Direct.{job_writer, import_accounts, call_specs}
use introspector.Prelude.{
  none, map, sym, ℕ, String, ◌<>◌, false, Option, List, [], ◌∷◌, ◌++◌, ◌≡◌, refl, ◌∙◌, ap, arith,
  filter, filter-append,
}
use introspector.Services.Accounts.{load_boto_session, Botocore}
use introspector.Services.{call_spec, GlobalResourceSpec, ServiceSpec, Responses, write_all}
use introspector.Services.Order.{forget_id, gather}
use introspector.Services.Written.{account_rows, import_accounts-rows}
use introspector.Outcome.{ok, >>=-returns, ok-eq}
use introspector.Store.Rows.{ProviderCredential, RawImport, ImportJob}
use introspector.Prelude.Text.{join}
use introspector.Prelude.Like.{codes, begins, like, IsPlain, like_codes-prefix}
use introspector.Prelude.Dict.{Dict}
use introspector.Value.{Value}
use introspector.Store.{Db}
use introspector.Store.Tables.{insert}
use introspector.Delta.Prefix.{is_pending}
use introspector.Paths.{scope, path, from_import_job}
use introspector.Writer.{ImportWriter, write, codes-append, raw_import_row}
use mathlib.Core.List.{append-nil}
use introspector.Services.Pending.{account_path}

begins_longer : (p : List ℕ) (c : ℕ) (q : List ℕ) → begins (p ++ c ∷ q) p ≡ false
unfolding begins
begins_longer [] c q = refl
begins_longer (d ∷ p) c q = ground (arith, begins_longer p c q)

module _ (job : ImportJob) (account : String)
    (plain : IsPlain (codes (account_path job account))) where
  -- What is written at the path of the import is not below that of an account.
  not_below : like job.path_prefix (account_path job account <> "%") ≡ false
  unfolding like path scope from_import_job join
  not_below =
      let test : like job.path_prefix (account_path job account <> "%")
          ≡ begins (codes (account_path job account)) (codes job.path_prefix) =
        unfold like in
        rw (codes-append (account_path job account) "%")
          (like_codes-prefix (codes (account_path job account)) (codes job.path_prefix) plain) in
      let parts : codes (account_path job account)
          ≡ codes job.path_prefix ++ (b'$' ∷ codes account) =
        codes-append job.path_prefix ("$" <> account)
        ∙ ap (◌++◌ (codes job.path_prefix)) (codes-append "$" account) in
      test ∙ rw parts (begins_longer (codes job.path_prefix) b'$' (codes account))

  outside :
      (r : RawImport)
      → like r.path (account_path job account <> "%") ≡ false
      → is_pending job (account_path job account) r ≡ false
  unfolding is_pending
  outside r h = ground arith

  skipped :
      (writer : ImportWriter) (resource_name : String) (raw : Value) (context : Option (Dict Value))
      (db : Db)
      → filter
          (is_pending job (account_path job account))
          (write writer job.path_prefix resource_name raw context db).raw_imports.rows
        ≡ filter (is_pending job (account_path job account)) db.raw_imports.rows
  unfolding write insert raw_import_row
  skipped writer resource_name raw context db =
      filter-append (is_pending job (account_path job account)) db.raw_imports.rows _
      ∙ rw
          (outside
            (raw_import_row writer job.path_prefix resource_name raw context db.raw_imports.next)
            not_below)
          (append-nil (filter (is_pending job (account_path job account)) db.raw_imports.rows))

  skipped_all :
      (writer : ImportWriter) (context : Option (Dict Value)) (found : Responses) (db : Db)
      → filter
          (is_pending job (account_path job account))
          (write_all writer (from_import_job job) context found db).raw_imports.rows
        ≡ filter (is_pending job (account_path job account)) db.raw_imports.rows
  unfolding write_all path from_import_job join
  skipped_all writer context [] db = refl
  skipped_all writer context ((resource_name, raw) ∷ rest) db =
      skipped_all writer context rest (write writer job.path_prefix resource_name raw context db)
      ∙ skipped writer resource_name raw context db

module _ {S P : Type 0} (botocore : Botocore S) (service_proxy : S → String → Option String → P)
    (job : ImportJob) (account : String) (plain : IsPlain (codes (account_path job account)))
    (svc_name : String) (service_spec : ServiceSpec) where
  abbrev waiting : Db → List RawImport
  waiting db = filter (is_pending job (account_path job account)) db.raw_imports.rows

  call_specs-skips :
      (fns : List (GlobalResourceSpec P)) (proxy : P) (writer : ImportWriter) (account_id : String)
      (db db' : Db)
      → call_specs botocore service_proxy fns proxy writer account_id
          (from_import_job job)
          service_spec
          db
        ≡ ok db'
      → waiting db' ≡ waiting db
  unfolding call_specs
  call_specs-skips [] proxy writer account_id db db' h = ap waiting (sym (ok-eq _ _ h))
  call_specs-skips (fn ∷ fns) proxy writer account_id db db' h =
      let (next, first, rest) =
        >>=-returns (call_spec fn proxy writer account_id (from_import_job job) service_spec db) _
          h in
      let (found, _, written) =
        >>=-returns (fn.fetch proxy service_spec) _ (unfold call_spec in first) in
      call_specs-skips fns proxy writer account_id next db' rest
      ∙ (ap waiting (sym (ok-eq _ _ written)) ∙ skipped_all job account plain _ _ found db)

  import_accounts-skips :
      (fns : List (GlobalResourceSpec P)) (accounts : List (String × ProviderCredential))
      (db db' : Db)
      → import_accounts botocore service_proxy job svc_name service_spec fns accounts db ≡ ok db'
      → filter (is_pending job (account_path job account)) db'.raw_imports.rows
        ≡ filter (is_pending job (account_path job account)) db.raw_imports.rows
  unfolding import_accounts
  import_accounts-skips fns [] db db' h = ap waiting (sym (ok-eq _ _ h))
  import_accounts-skips fns ((p, cred) ∷ accounts) db db' h =
      let (boto, _, rest) = >>=-returns (load_boto_session botocore cred) _ h in
      let (next, first, later) =
        >>=-returns
          (call_specs botocore service_proxy fns (service_proxy boto svc_name none)
            (job_writer job svc_name) cred.scope (from_import_job job) service_spec db)
          _ rest in
      import_accounts-skips fns accounts next db' later
      ∙ call_specs-skips fns (service_proxy boto svc_name none) (job_writer job svc_name) cred.scope
          db next first

module _ {S P : Type 0} (botocore : Botocore S) (service_proxy : S → String → Option String → P)
    (job : ImportJob) (svc_name : String) (service_spec : ServiceSpec) where
  -- Where a service whose SVC is a GlobalService itself is imported within one session, it leaves a raw
  -- import for each response of each of its functions, for each account in order, at the path of the
  -- import and not below that of the account; what `map_resource_prefix` of an account's path has to map
  -- stays what it was. It is assumed that the account's path has no character that is special to
  -- `LIKE`.
  pub import_accounts-is_pending :
      (account : String) (fns : List (GlobalResourceSpec P))
      (accounts : List (String × ProviderCredential)) (db db' : Db)
      → IsPlain (codes (account_path job account))
      → import_accounts botocore service_proxy job svc_name service_spec fns accounts db ≡ ok db'
      → (map forget_id db'.raw_imports.rows
          ≡ map forget_id db.raw_imports.rows
            ++ gather (account_rows botocore service_proxy job svc_name service_spec fns) accounts)
        × (filter (is_pending job (account_path job account)) db'.raw_imports.rows
            ≡ filter (is_pending job (account_path job account)) db.raw_imports.rows)
  import_accounts-is_pending account fns accounts db db' plain h = (
    import_accounts-rows botocore service_proxy job svc_name service_spec fns accounts db db' h,
    import_accounts-skips botocore service_proxy job account plain svc_name service_spec fns
        accounts db db' h,
  )
