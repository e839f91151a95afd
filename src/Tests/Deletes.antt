-- ===== src/Tests/Deletes.antt =====
-- introspector/delta/resource.py: an import that mapped the subnet only deletes the VPC.
use introspector.Delta.Deletes.Returns.{EndsStored, map_resource_deletes-returns}
use introspector.Prelude.{◌≡◌, refl, not, none, [], ◌∷◌, ◌++◌, map, arith, filter}
use introspector.Outcome.{ok}
use introspector.Store.{Db}
use introspector.Delta.Deletes.{is_deleted, map_resource_deletes}
use introspector.Delta.Deletes.Laws.{NodupResources, entry, deleted_entry, map_resource_deletes_lem}
use introspector.Tests.Fixtures.{job, db, subnet}

abbrev mapped_db : Db
mapped_db = record db {
  mapped_uris =
      record {
        uri = "subnet-1";
        source = "base";
        import_job_id = 1;
        provider_account_id = 7;
        raw_import_id = none;
      }
      ∷ [];
}

abbrev Deleted : Type 0
Deleted = (after : Db) × (map_resource_deletes job "o-1$42" none mapped_db ≡ ok after)

deleted : Deleted
unfolding map_resource_deletes
deleted = (_, refl)

distinct : NodupResources mapped_db.resources.rows
distinct = ((omega arith, tt), (tt, tt))

map_resource_deletes_lem_example :
    (deleted.0.resources.rows
      ≡ filter
          (λ r. not (is_deleted job "o-1$42" none mapped_db.mapped_uris r))
          mapped_db.resources.rows)
    × (map entry deleted.0.deltas.rows
        ≡ map entry mapped_db.deltas.rows
          ++ map deleted_entry (
              filter (is_deleted job "o-1$42" none mapped_db.mapped_uris) mapped_db.resources.rows))
map_resource_deletes_lem_example =
    map_resource_deletes_lem job "o-1$42" none mapped_db deleted.0 distinct deleted.1

-- The subnet is left, and the log has one entry.
left_rows : deleted.0.resources.rows ≡ subnet ∷ []
unfolding deleted is_deleted
left_rows = refl

ends : EndsStored mapped_db
ends = ((refl, refl), tt)

map_resource_deletes-returns_example :
    (after : Db) × (map_resource_deletes job "o-1$42" none mapped_db ≡ ok after) × EndsStored after
map_resource_deletes-returns_example = map_resource_deletes-returns job "o-1$42" none mapped_db ends
