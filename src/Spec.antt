-- ===== src/Spec.antt =====
-- introspector/aws/svc.py: which services and resources an import is restricted to.
use introspector.Prelude.{
  String, Bool, ◌||◌, Option, none, some, List, [], ◌∷◌, str_eq, any, is_empty,
}
use introspector.Prelude.Text.{split}
use introspector.Prelude.Dict.{Dict, get, put}

-- An empty list stands for every resource of the service.
abbrev pub ServiceSpec : Type 0
ServiceSpec = List String

-- `None` stands for every service.
abbrev pub ImportSpec : Type 0
ImportSpec = Option (Dict ServiceSpec)

unfoldable pub parse_resources : List String → ServiceSpec
unfolding split
parse_resources [] = []
parse_resources (svc ∷ []) = []
parse_resources (svc ∷ (resources ∷ rest)) = split b',' resources

-- `split` returns no empty list, so that the first clause is not used.
unfoldable pub service_name : List String → String
service_name [] = ""
service_name (svc ∷ rest) = svc

unfoldable pub parse_services : List String → Dict ServiceSpec → Dict ServiceSpec
unfolding split put service_name parse_resources
parse_services [] spec = spec
parse_services (service_spec ∷ rest) spec =
    let parts = split b'=' service_spec in
    parse_services rest (put (service_name parts) (parse_resources parts) spec)

unfoldable pub parse_import_spec : Option String → ImportSpec
unfolding parse_services
parse_import_spec none = none
parse_import_spec (some config) = some (parse_services (split b';' config) [])

unfoldable pub service_gate : ImportSpec → String → Option ServiceSpec
unfolding get
service_gate none service = some []
service_gate (some spec) service = get service spec

unfoldable pub resource_gate : ServiceSpec → String → Bool
resource_gate spec resource_name = is_empty spec || any (λ r. str_eq r resource_name) spec
