-- ===== src/Delta.antt =====
-- introspector/delta: bringing the tables up to what an import found, and logging each change.
pub mod Attrs
pub mod Resource
pub mod Deletes
pub mod Lookup
pub mod Relations
pub mod Partial
pub mod Report
pub mod Prefix
