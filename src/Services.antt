-- ===== src/Services.antt =====
-- introspector/aws/svc.py: the services whose responses an import fetches, and the tasks of the pool.
-- `P` is the proxy of one service and `service_proxy` makes it from the configuration of a credential;
-- a function of a service gives the named responses that it yields, or raises.
pub mod Accounts
pub mod Direct
pub mod Pool
pub mod Order
pub mod Region
pub mod Same
pub mod Pending
pub mod Written
pub mod Missed
use introspector.Prelude.{String, none, some, Option, List, [], ◌∷◌, ◌++◌, map, ℕ}
use introspector.Prelude.Dict.{Dict}
use introspector.Value.{Value, str}
use introspector.Outcome.{Outcome, ok, ◌>>=◌}
use introspector.Store.{Db}
use introspector.Writer.{ImportWriter, write}
use introspector.Paths.{PathStack, path}
use introspector.Spec.{ServiceSpec}

-- The responses of a fetch, with the names of their resources.
abbrev pub Responses : Type 0
Responses = List (String × Value)

-- The loop over the responses: writer(ps, resource_name, raw, context).
unfoldable pub write_all : ImportWriter → PathStack → Option (Dict Value) → Responses → Db → Db
unfolding write path
write_all writer ps context [] db = db
write_all writer ps context ((resource_name, raw) ∷ rest) db =
    write_all writer ps context rest (write writer (path ps) resource_name raw context db)

module _ (P : Type 0) where
  abbrev pub RegionalImportFn : Type 0
  RegionalImportFn = P → String → ServiceSpec → Outcome Responses

  abbrev pub GlobalImportFn : Type 0
  GlobalImportFn = P → ServiceSpec → Outcome Responses

  pub record GlobalResourceSpec : Type 0 where
    pub fetch : P → ServiceSpec → Outcome Responses
    pub writer_transform : Option (ImportWriter → ImportWriter)

  pub data GlobalResourceFn : Type 0 where
    resource_spec : GlobalResourceSpec → GlobalResourceFn
    import_fn : (P → ServiceSpec → Outcome Responses) → GlobalResourceFn

  -- A single function, or a list of functions.
  pub data GlobalFns : Type 0 where
    one : GlobalResourceFn → GlobalFns
    many : List GlobalResourceFn → GlobalFns

  pub data Service : Type 0 where
    regional : (name : String) (fn : P → String → ServiceSpec → Outcome Responses) → Service
    global : (name : String) (fns : GlobalFns) → Service

module _ {P : Type 0} where
  unfoldable pub service_title : Service P → String
  service_title (Service.regional name fn) = name
  service_title (Service.global name fns) = name

  unfoldable pub as_spec : GlobalResourceFn P → GlobalResourceSpec P
  as_spec (GlobalResourceFn.resource_spec s) = s
  as_spec (GlobalResourceFn.import_fn f) = record { fetch = f; writer_transform = none }

  -- GlobalService._fns
  unfoldable pub fns_of : GlobalFns P → List (GlobalResourceSpec P)
  unfolding as_spec
  fns_of (GlobalFns.one f) = as_spec f ∷ []
  fns_of (GlobalFns.many fs) = map as_spec fs

  unfoldable pub spec_writer : GlobalResourceSpec P → ImportWriter → ImportWriter
  spec_writer spec base_writer = elim spec.writer_transform [
    | none ↦ base_writer
    | some transform ↦ transform base_writer
  ]

  -- GlobalResourceSpec.__call__
  unfoldable pub call_spec :
      GlobalResourceSpec P → P → ImportWriter → String → PathStack → ServiceSpec → Db → Outcome Db
  unfolding spec_writer write_all
  call_spec spec proxy base_writer account_id ps service_spec db = do
    found ← spec.fetch proxy service_spec
    ok (
        write_all (spec_writer spec base_writer) ps (some (("account_id", str account_id) ∷ []))
          found db)

  -- The responses of a region.
  unfoldable pub call_region :
      RegionalImportFn P → P → ImportWriter → String → PathStack → ServiceSpec → Db → Outcome Db
  unfolding write_all
  call_region fn proxy writer region ps service_spec db = do
    found ← fn proxy region service_spec
    ok (write_all writer ps (some (("region", str region) ∷ [])) found db)
