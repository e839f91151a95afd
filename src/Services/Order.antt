-- ===== src/Services/Order.antt =====
-- introspector/aws/svc.py: the order in which the tasks of the pool commit.
use introspector.Outcome.{Outcome-cases, Outcome, ok, raise, Exception, ◌>>=◌}
use introspector.Prelude.{
  inr, inl, String, none, some, Option, List, [], ◌∷◌, ◌++◌, map, ◌≡◌, refl, ◌∙◌, ap, sym, arith,
}
use mathlib.Core.Path.{subst}
use introspector.Prelude.Dict.{Dict}
use introspector.Value.{Value, str}
use introspector.Store.{Db}
use introspector.Store.Tables.{insert}
use introspector.Store.Rows.{RawImport}
use introspector.Writer.{ImportWriter, db_import_writer, write, raw_import_row}
use introspector.Paths.{PathStack, scope, path}
use introspector.Services.{Responses, write_all, spec_writer, call_spec, call_region}
use introspector.Services.Accounts.{Botocore, load_boto_session_from_config}
use introspector.Services.Pool.{Task, async_proxy, global_async_proxy, run_task, run_pool}
use mathlib.Core.List.{Permᴰ, append_assoc, append-nil}
use mathlib.Core.List.Permᴰ as Permutation

-- What a task writes, and as what.
pub record Fetched : Type 0 where
  pub writer : ImportWriter
  pub ps : PathStack
  pub context : Option (Dict Value)
  pub responses : Responses

-- A row without its id, which depends on what has been written before.
abbrev pub forget_id : RawImport → RawImport
forget_id r = record r { id = 0 }

unfoldable pub fetched_row : Fetched → String × Value → RawImport
fetched_row f (resource_name, raw) =
    raw_import_row f.writer (path f.ps) resource_name raw f.context 0

map-append : {A B : Type 0} (f : A → B) (xs ys : List A) → map f (xs ++ ys) ≡ map f xs ++ map f ys
map-append f [] ys = refl
map-append f (x ∷ xs) ys = ap (◌∷◌ (f x)) (map-append f xs ys)

-- What the items give, one after another.
unfoldable pub gather : {A B : Type 0} → (A → List B) → List A → List B
gather f [] = []
gather f (x ∷ xs) = f x ++ gather f xs

-- The order of the items is that of what they give.
gather-Perm :
    {A B : Type 0} (f : A → List B) (xs ys : List A)
    → Permᴰ xs ys
    → Permᴰ (gather f xs) (gather f ys)
unfolding gather
gather-Perm f _ _ Permᴰ.nil = Permᴰ.nil
gather-Perm f _ _ (Permᴰ.cons {b = b} {l₁ = l₁} {l₂ = l₂} same p) =
    rw same (Permutation.append_left (f b) (gather-Perm f l₁ l₂ p))
gather-Perm f _ _ (Permᴰ.swap {a' = x} {b' = y} {l = l} left right) =
    rw (left, right)
      (subst (λ t. Permᴰ t (f x ++ (f y ++ gather f l))) (append_assoc (f y) (f x) (gather f l))
        (subst (λ t. Permᴰ ((f y ++ f x) ++ gather f l) t) (append_assoc (f x) (f y) (gather f l))
          (Permutation.append_right (gather f l) (Permutation.append_comm (f y) (f x)))))
gather-Perm f _ _ (Permᴰ.trans {l₁ = a} {l₂ = b} {l₃ = c} p q) =
    Permᴰ.trans (gather-Perm f a b p) (gather-Perm f b c q)

pub write_all-rows :
    (f : Fetched) (found : Responses) (db : Db)
    → map forget_id (write_all f.writer f.ps f.context found db).raw_imports.rows
      ≡ map forget_id db.raw_imports.rows ++ map (fetched_row f) found
unfolding write_all fetched_row write insert raw_import_row
write_all-rows f [] db = sym (append-nil (map forget_id db.raw_imports.rows))
write_all-rows f ((resource_name, raw) ∷ rest) db =
    write_all-rows f rest (write f.writer (path f.ps) resource_name raw f.context db)
    ∙ (ap (λ rows. rows ++ map (fetched_row f) rest) (map-append forget_id db.raw_imports.rows _)
        ∙ append_assoc (map forget_id db.raw_imports.rows) _ (map (fetched_row f) rest))

module _ {S P : Type 0} (botocore : Botocore S)
    (service_proxy : S → String → Option String → P) where
  unfoldable pub fetched : Task P → Outcome Fetched
  fetched (Task.region_task args region fn) = do
    boto ← load_boto_session_from_config botocore args.config
    found ← fn (service_proxy boto args.svc_name (some region)) region args.service_spec
    ok (record {
      writer = db_import_writer args.import_job_id args.provider_account_id args.svc_name 0 "base";
      ps = scope region args.ps;
      context = some (("region", str region) ∷ []);
      responses = found;
    })
  fetched (Task.global_task args account_id fn) = do
    boto ← load_boto_session_from_config botocore args.config
    found ← fn.fetch (service_proxy boto args.svc_name none) args.service_spec
    ok (record {
      writer =
          spec_writer fn
            (db_import_writer args.import_job_id args.provider_account_id args.svc_name 0 "base");
      ps = args.ps;
      context = some (("account_id", str account_id) ∷ []);
      responses = found;
    })

  run_task-fetched :
      (t : Task P) (db : Db)
      → run_task botocore service_proxy t db
        ≡ (fetched t >>= λ f. ok (write_all f.writer f.ps f.context f.responses db))
  unfolding run_task async_proxy global_async_proxy call_spec call_region fetched
  run_task-fetched (Task.region_task args region fn) db = ground arith
  run_task-fetched (Task.global_task args account_id fn) db = ground arith

  -- The rows that a task commits, and the exceptions of its result.
  unfoldable pub task_rows : Task P → List RawImport
  task_rows t = elim (fetched t) [ raise e ↦ [] | ok f ↦ map (fetched_row f) f.responses ]

  unfoldable pub task_exceptions : Task P → List Exception
  task_exceptions t = elim (fetched t) [ raise e ↦ e ∷ [] | ok f ↦ [] ]

  pub run_pool_lem :
      (ts : List (Task P)) (db : Db)
      → (map forget_id (run_pool botocore service_proxy ts db).0.raw_imports.rows
          ≡ map forget_id db.raw_imports.rows ++ gather task_rows ts)
        × ((run_pool botocore service_proxy ts db).1 ≡ gather task_exceptions ts)
  unfolding run_pool gather task_rows task_exceptions
  run_pool_lem [] db = (sym (append-nil (map forget_id db.raw_imports.rows)), refl)
  run_pool_lem (t ∷ ts) db = elim (Outcome-cases (fetched t)) [
    | inl (e, fails) ↦
        let run : run_task botocore service_proxy t db ≡ raise e =
          run_task-fetched t db ∙ rw fails refl in
        rw (run, run_pool, fails, task_rows, task_exceptions)
          ((run_pool_lem ts db).0, ap (◌∷◌ e) (run_pool_lem ts db).1)
    | inr (f, done) ↦
        let next = write_all f.writer f.ps f.context f.responses db in
        let run : run_task botocore service_proxy t db ≡ ok next =
          run_task-fetched t db ∙ rw done refl in
        rw (run, run_pool, done, task_rows, task_exceptions)
          (
            (run_pool_lem ts next).0
                ∙ (ap (λ rows. rows ++ gather task_rows ts) (write_all-rows f f.responses db)
                    ∙ append_assoc (map forget_id db.raw_imports.rows)
                        (map (fetched_row f) f.responses) (gather task_rows ts)),
            (run_pool_lem ts next).1,
          )
  ]

  -- In whatever order the tasks of the pool commit, the raw imports that they leave are the same up to
  -- their order and their ids, and so are the exceptions that are collected.
  pub run_pool-Perm :
      (ts us : List (Task P)) (db : Db)
      → Permᴰ ts us
      → Permᴰ
          (map forget_id (run_pool botocore service_proxy ts db).0.raw_imports.rows)
          (map forget_id (run_pool botocore service_proxy us db).0.raw_imports.rows)
        × Permᴰ (run_pool botocore service_proxy ts db).1 (run_pool botocore service_proxy us db).1
  run_pool-Perm ts us db p =
      rw
        (
          (run_pool_lem ts db).0,
          (run_pool_lem us db).0,
          (run_pool_lem ts db).1,
          (run_pool_lem us db).1,
        )
        (
          Permutation.append_left (map forget_id db.raw_imports.rows)
              (gather-Perm task_rows ts us p),
          gather-Perm task_exceptions ts us p,
        )
