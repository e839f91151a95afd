-- ===== src/Delta/Relations.antt =====
-- introspector/delta/resource.py: map_resource_relations, _apply_relation and map_relation_deletes.
mod Apply
mod Loops
pub mod Stored
pub mod Stale
pub mod Logs
unfoldable pub use Apply.*
unfoldable pub use Loops.*
