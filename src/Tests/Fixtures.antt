-- ===== src/Tests/Fixtures.antt =====
-- The data that the other tests share.
use introspector.Prelude.{none, some, List, [], ◌∷◌, str_eq, if◌then◌else◌}
use introspector.Prelude.Dict.{Dict}
use introspector.Value.{Value, str}
use introspector.Store.{Db}
use introspector.Store.Tables.{Table}
use introspector.Store.Rows.{ImportJob, Resource, ResourceRaw, ResourceAttribute, ResourceRelation}
use introspector.Delta.Attrs.{MappedAttribute, Scope}

-- A difference of two texts is named by the new text.
unfoldable pub text_diff : Value → Value → Dict Value
text_diff (str s) (str t) = if str_eq s t then [] else ("root", str t) ∷ []
text_diff _ _ = []

abbrev pub job : ImportJob
job = record {
  id = 1;
  start_date = 100;
  end_date = none;
  error_details = none;
  path_prefix = "o-1";
  provider_account_id = 7;
}

abbrev pub vpc : Resource
vpc = record {
  id = 1;
  path = "o-1$42";
  uri = "vpc-1";
  name = str "main";
  provider_account_id = 7;
  provider_type = some "Vpc";
  service = "ec2";
  category = some "Network";
}

abbrev pub subnet : Resource
subnet = record {
  id = 2;
  path = "o-1$42";
  uri = "subnet-1";
  name = str "web";
  provider_account_id = 7;
  provider_type = some "Subnets";
  service = "ec2";
  category = some "Subnet";
}

abbrev pub vpc_raw : ResourceRaw
vpc_raw = record {
  id = 1;
  source = "base";
  resource_id = 1;
  provider_account_id = 7;
  raw = str "old";
}

abbrev pub cidr_row : ResourceAttribute
cidr_row = record {
  id = 1;
  resource_id = 1;
  provider_account_id = 7;
  source = "base";
  attr_type = some "provider";
  name = "Cidr";
  value = str "10.0.0.0/16";
}

abbrev pub state_row : ResourceAttribute
state_row = record {
  id = 2;
  resource_id = 1;
  provider_account_id = 7;
  source = "base";
  attr_type = some "provider";
  name = "State";
  value = str "pending";
}

-- The subnet is in the VPC.
abbrev pub in_vpc : ResourceRelation
in_vpc = record {
  id = 1;
  resource_id = 2;
  relation = "in";
  target_id = 1;
  raw = str "in";
  provider_account_id = 7;
}

abbrev no_rows {ℓ} : {A : Type ℓ} → Table A
no_rows = record { rows = []; next = 1 }

abbrev pub db : Db
db = record {
  resources = record { rows = vpc ∷ subnet ∷ []; next = 3 };
  raws = record { rows = vpc_raw ∷ []; next = 2 };
  attributes = record { rows = cidr_row ∷ state_row ∷ []; next = 3 };
  deltas = no_rows;
  attribute_deltas = no_rows;
  relations = record { rows = in_vpc ∷ []; next = 2 };
  relation_attributes = no_rows;
  relation_deltas = no_rows;
  relation_attribute_deltas = no_rows;
  raw_imports = no_rows;
  mapped_uris = [];
}

abbrev pub vpc_scope : Scope
vpc_scope = record { resource_id = 1; source = "base"; provider_account_id = 7 }

-- The CIDR is another one, the state is gone and there is an owner.
abbrev pub mapped_attrs : List MappedAttribute
mapped_attrs =
    record { attr_type = some "provider"; name = "Cidr"; value = str "10.1.0.0/16" }
    ∷ record { attr_type = some "provider"; name = "Owner"; value = str "42" }
    ∷ []
