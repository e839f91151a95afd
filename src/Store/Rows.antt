-- ===== src/Store/Rows.antt =====
-- introspector/models/*.py: one record for each table, its columns as fields. A `change_details`
-- document is a constructor with the document's entries as its fields. A column that may be NULL and
-- that the modelled code always fills is not optional here.
use introspector.Prelude.{ℕ, String, Option, Bool, List}
use introspector.Prelude.Dict.{Dict}
use introspector.Value.{Value}

pub data ChangeType : Type 0 where
  add update delete : ChangeType

pub record ImportJob : Type 0 where
  pub id : ℕ
  pub start_date : ℕ
  pub end_date : Option ℕ
  pub error_details : Option (List String)
  pub path_prefix : String
  pub provider_account_id : ℕ

pub record Resource : Type 0 where
  pub id : ℕ
  pub path : String
  pub uri : String
  pub name : Value
  pub provider_account_id : ℕ
  pub provider_type : Option String
  pub service : String
  pub category : Option String

pub record ResourceRaw : Type 0 where
  pub id : ℕ
  pub source : String
  pub resource_id : ℕ
  pub provider_account_id : ℕ
  pub raw : Value

pub record ResourceAttribute : Type 0 where
  pub id : ℕ
  pub resource_id : ℕ
  pub provider_account_id : ℕ
  pub source : String
  pub attr_type : Option String
  pub name : String
  pub value : Value

pub data ResourceChange : Type 0 where
  raw_added : Value → ResourceChange
  stanzas : Dict Value → ResourceChange
  source_added : (source : String) (raw : Value) → ResourceChange
  source_deleted : (source : String) → ResourceChange
  resource_deleted : (path uri : String) (name : Value) (raw : Dict Value) → ResourceChange

pub record ResourceDelta : Type 0 where
  pub id : ℕ
  pub provider_account_id : ℕ
  pub import_job_id : ℕ
  pub resource_id : ℕ
  pub change_type : ChangeType
  pub change_details : ResourceChange

pub data AttributeChange : Type 0 where
  current : (attr_type : Option String) (name : String) (value : Value) → AttributeChange
  replaced :
      (attr_type : Option String) (name : String) (old_value new_value : Value) (delta : Dict Value)
      → AttributeChange

pub record ResourceAttributeDelta : Type 0 where
  pub id : ℕ
  pub provider_account_id : ℕ
  pub resource_delta_id : ℕ
  pub resource_attribute_id : ℕ
  pub change_type : ChangeType
  pub change_details : AttributeChange

pub record ResourceRelation : Type 0 where
  pub id : ℕ
  pub resource_id : ℕ
  pub relation : String
  pub target_id : ℕ
  pub raw : Value
  pub provider_account_id : ℕ

pub record ResourceRelationAttribute : Type 0 where
  pub id : ℕ
  pub relation_id : ℕ
  pub name : String
  pub value : Value
  pub provider_account_id : ℕ

pub data RelationChange : Type 0 where
  related : (relation resource target : String) (attributes : Dict Value) → RelationChange
  unrelated : (relation resource target : String) (raw : Value) → RelationChange

pub record ResourceRelationDelta : Type 0 where
  pub id : ℕ
  pub import_job_id : ℕ
  pub provider_account_id : ℕ
  pub resource_relation_id : ℕ
  pub change_type : ChangeType
  pub change_details : RelationChange

pub data RelationAttributeChange : Type 0 where
  current : (name : String) (value : Value) → RelationAttributeChange
  replaced :
      (name : String) (old_value new_value : Value) (delta : Dict Value) → RelationAttributeChange

pub record ResourceRelationAttributeDelta : Type 0 where
  pub id : ℕ
  pub provider_account_id : ℕ
  pub resource_relation_delta_id : ℕ
  pub resource_relation_attribute_id : ℕ
  pub change_type : ChangeType
  pub change_details : RelationAttributeChange

pub record RawImport : Type 0 where
  pub id : ℕ
  pub import_job_id : ℕ
  pub provider_account_id : ℕ
  pub source : String
  pub service : String
  pub path : String
  pub resource_name : String
  pub raw : Value
  pub context : Option (Dict Value)
  pub phase : ℕ
  pub mapped : Bool

pub record MappedUri : Type 0 where
  pub uri : String
  pub source : String
  pub import_job_id : ℕ
  pub provider_account_id : ℕ
  pub raw_import_id : Option ℕ

-- introspector/models/provider_account.py. The column of `provider_id` is named provider_account_id.
pub record ProviderAccount : Type 0 where
  pub id : ℕ
  pub provider : String
  pub name : String
  pub external_id : Option ℕ

pub record ProviderCredential : Type 0 where
  pub id : ℕ
  pub provider_id : ℕ
  pub principal_uri : String
  pub config : Dict Value
  pub scope : String
