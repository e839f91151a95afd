-- ===== src/Tests/Partial.antt =====
-- introspector/delta/partial.py: a source adds to the VPC, and a later import does not find it any more.
use introspector.Spec.{ImportSpec}
use introspector.Prelude.{◌≡◌, ◌≢◌, refl, none, some, [], ◌&&◌, not, filter, find, any, arith}
use introspector.Outcome.{ok}
use introspector.Value.{str}
use introspector.Store.{Db}
use introspector.Delta.Attrs.{in_scope}
use introspector.Delta.Resource.{is_uri, scope_of}
use introspector.Delta.Resource.Stored.{Stores}
use introspector.Delta.Resource.Unique.{is_raw, IsUnique, stored_raw}
use introspector.Delta.Partial.{apply_partial, is_unmapped, map_partial_deletes}
use introspector.Delta.Partial.Stored.{apply_partial-Stores}
use introspector.Delta.Partial.Removed.{map_partial_deletes-leaves}
use introspector.Tests.Fixtures.{text_diff, job, db, vpc, mapped_attrs}

abbrev Applied : Type 0
Applied =
    (db' : Db) × (apply_partial text_diff job "credentialreport" "vpc-1" 1 (str "row") mapped_attrs
        db
      ≡ ok db')

applied : Applied
unfolding apply_partial text_diff
applied = (_, refl)

unique : IsUnique db
unfolding is_uri
unique = record { uris = (refl, (refl, tt)); raws = (refl, tt) }

target : find (is_uri 7 "vpc-1") db.resources.rows ≡ some vpc
unfolding is_uri
target = refl

apply_partial-Stores_example :
    Stores text_diff (str "row") (stored_raw 7 "credentialreport" "vpc-1" applied.0)
apply_partial-Stores_example =
    apply_partial-Stores job "credentialreport" text_diff "vpc-1" vpc (str "row") mapped_attrs db
      applied.0 unique target applied.1

a_service : ◌≢◌ {A = ImportSpec} none (some [])
a_service h = cc

map_partial_deletes-leaves_example :
    (db' : Db) × (map_partial_deletes text_diff job "base" "o-1" none db ≡ ok db')
    × (db'.resources ≡ db.resources)
    × (db'.raws.rows
        ≡ filter
            (λ w. not (
              any
                (λ r. is_unmapped text_diff job "base" "o-1" none db r && is_raw "base" r.id w)
                db.resources.rows))
            db.raws.rows)
    × (db'.attributes.rows
        ≡ filter
            (λ a. not (
              any
                (λ r.
                  is_unmapped text_diff job "base" "o-1" none db r
                  && (any (is_raw "base" r.id) db.raws.rows
                      && in_scope (scope_of job "base" r.id) a))
                db.resources.rows))
            db.attributes.rows)
map_partial_deletes-leaves_example =
    map_partial_deletes-leaves text_diff job "base" "o-1" none db a_service (tt, tt)
      ((omega arith, tt), (tt, tt))
