-- ===== src/Tests/Gates.antt =====
-- introspector/aws/svc.py: imports that name EC2 resources. The gate of introspector/aws/ec2.py has the name
-- `Vpcs`, and introspector/aws/transforms/ec2/Vpcs.yml the type `Vpc`.
use introspector.Prelude.{◌≡◌, refl, true, false, some}
use introspector.Spec.{parse_import_spec, service_gate, resource_gate}
use introspector.Store.Rows.{Resource}
use introspector.Delta.Deletes.Gates.{passes, lists}
use introspector.Tests.Fixtures.{vpc}

abbrev typed_vpc : Resource
typed_vpc = record vpc { provider_type = some "Vpc" }

-- By its type the kind is deleted and not fetched, by its name it is fetched and not deleted.
by_type : lists (parse_import_spec (some "ec2=Vpc;s3")) "ec2" "Vpc" ≡ true
unfolding lists parse_import_spec service_gate
by_type = refl

not_by_name : passes (parse_import_spec (some "ec2=Vpc;s3")) "ec2" "Vpcs" ≡ false
unfolding passes parse_import_spec service_gate resource_gate
not_by_name = refl

by_name : passes (parse_import_spec (some "ec2=Vpcs;s3")) "ec2" "Vpcs" ≡ true
unfolding passes parse_import_spec service_gate resource_gate
by_name = refl
