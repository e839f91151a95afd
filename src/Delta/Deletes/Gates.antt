-- ===== src/Delta/Deletes/Gates.antt =====
-- introspector/delta/resource.py and introspector/aws/svc.py: the clauses that an import
-- specification adds to the query for the deleted resources, and the gates of the import.
use introspector.Prelude.{String, Bool, false, none, some, str_eq, any}
use introspector.Prelude.Dict.{Dict}
use introspector.Spec.{ImportSpec, service_gate, resource_gate}

-- What the import does for a service and a kind of resource: both gates let it pass.
unfoldable pub passes : ImportSpec → String → String → Bool
passes spec service resource_name = elim (service_gate spec service) [
  | none ↦ false
  | some resources ↦ resource_gate resources resource_name
]

-- The specification lists a name for a service.
unfoldable pub lists : ImportSpec → String → String → Bool
lists spec service name = elim (service_gate spec service) [
  | none ↦ false
  | some resources ↦ any (λ x. str_eq x name) resources
]
