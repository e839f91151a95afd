-- ===== src/Store.antt =====
-- The tables of introspector/models/*.py as far as the mapping of an import reads and writes them,
-- and the operations of the database session that the code calls on them. The database itself is
-- not code of the repository: a table is the list of its rows in the order of insertion, with the
-- next value of its id sequence, `db.add` inserts at once, and a query sees every row added so far.
pub mod Tables
pub mod Rows
pub mod Responses
pub mod Removal
pub mod Filters
use introspector.Prelude.{List}
use introspector.Store.Tables.{Table}
use introspector.Store.Rows.{
  Resource, ResourceRaw, ResourceAttribute, ResourceDelta, ResourceAttributeDelta, ResourceRelation,
  ResourceRelationAttribute, ResourceRelationDelta, ResourceRelationAttributeDelta, RawImport,
  MappedUri,
}

pub record Db : Type 0 where
  pub resources : Table Resource
  pub raws : Table ResourceRaw
  pub attributes : Table ResourceAttribute
  pub deltas : Table ResourceDelta
  pub attribute_deltas : Table ResourceAttributeDelta
  pub relations : Table ResourceRelation
  pub relation_attributes : Table ResourceRelationAttribute
  pub relation_deltas : Table ResourceRelationDelta
  pub relation_attribute_deltas : Table ResourceRelationAttributeDelta
  pub raw_imports : Table RawImport
  pub mapped_uris : List MappedUri
