-- ===== src/Importer/Gated.antt =====
-- introspector/aws/importer.py: an import that is restricted to some services submits no other tasks.
use introspector.Prelude.{some, ◌≡◌}
use introspector.Prelude.Dict.{Dict}
use introspector.Spec.{ImportSpec, service_gate}
use introspector.Services.Pool.{Task, TaskArgs}
use introspector.Importer.{Submitted, task, org_task}

-- The arguments of a task.
unfoldable pub args_of : {P : Type 0} → Task P → TaskArgs
args_of (Task.region_task args region fn) = args
args_of (Task.global_task args account_id fn) = args

-- The task is for a service that the specification admits, and for the resources that it lists for it.
abbrev pub IsGated : {P T : Type 0} → ImportSpec → Submitted P T → Type 0
IsGated spec (task t) = service_gate spec (args_of t).svc_name ≡ some (args_of t).service_spec
IsGated spec (org_task name service_spec t) = service_gate spec name ≡ some service_spec
