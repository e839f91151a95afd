-- ===== src/Tests/Relations.antt =====
-- introspector/delta/resource.py: the subnet's relation to the VPC is imported again, and then no more.
use introspector.Prelude.{ℕ, ◌≡◌, refl, none, some, [], ◌∷◌, not, filter, find, arith, inl}
use introspector.Outcome.{ok, raise, type_error}
use introspector.Value.{str}
use introspector.Store.{Db}
use introspector.Store.Tables.{by_id}
use introspector.Store.Rows.{ResourceRelation, ResourceRelationAttribute}
use introspector.Delta.Resource.{one_or_none}
use introspector.Delta.Deletes.Returns.{EndsStored}
use introspector.Delta.Relations.{
  is_relation, is_named, attrs_of, apply_relation, is_stale, map_relation_deletes,
}
use introspector.Delta.Relations.Stored.{HasIds, StoresRelation, apply_relation-StoresRelation}
use introspector.Delta.Relations.Logs.{deletions, apply_relation-fails, apply_relation-deletions}
use introspector.Delta.Relations.Stale.{map_relation_deletes-returns}
use introspector.Tests.Fixtures.{text_diff, job, db, in_vpc}

-- The relation with another document.
abbrev moved : ResourceRelation
moved = record in_vpc { id = 0; raw = str "within" }

abbrev weight : ResourceRelationAttribute
weight = record {
  id = 1;
  relation_id = 1;
  name = "weight";
  value = str "1";
  provider_account_id = 7;
}

-- The stored relation has an attribute, which the new one lacks.
abbrev weighted_db : Db
weighted_db = record db { relation_attributes = record { rows = weight ∷ []; next = 2 } }

abbrev Applied : Type 0
Applied =
    (q : ℕ × Db) × (apply_relation text_diff job moved "subnet-1" "vpc-1" [] weighted_db ≡ ok q)

applied : Applied
unfolding apply_relation text_diff
applied = (_, refl)

-- The attribute is gone.
left_attributes : applied.0.1.relation_attributes.rows ≡ []
unfolding applied
left_attributes = refl

ids : HasIds weighted_db.relations
ids = record { ids = (tt, tt); below = (omega arith, tt) }

apply_relation-StoresRelation_example :
    StoresRelation text_diff
      (str "within")
      (by_id (λ r. r.id) applied.0.0 applied.0.1.relations.rows)
apply_relation-StoresRelation_example =
    apply_relation-StoresRelation text_diff job moved "subnet-1" "vpc-1" [] weighted_db applied.0.1
      applied.0.0 ids applied.1

apply_relation-deletions_example : deletions applied.0.1 ≡ deletions weighted_db
apply_relation-deletions_example =
    apply_relation-deletions text_diff job moved "subnet-1" "vpc-1" [] weighted_db applied.0.1
      applied.0.0 applied.1

stored :
    one_or_none (filter (is_relation 7 "in" "subnet-1" "vpc-1" db.resources.rows) db.relations.rows)
    ≡ ok (some in_vpc)
unfolding one_or_none is_relation
stored = refl

unnamed : find (is_named "weight") (attrs_of 1 db) ≡ none
unfolding attrs_of
unnamed = refl

apply_relation-fails_example :
    apply_relation text_diff job moved "subnet-1" "vpc-1" (("weight", str "1") ∷ []) db
    ≡ raise type_error
apply_relation-fails_example =
    apply_relation-fails text_diff job moved in_vpc "subnet-1" "vpc-1" (("weight", str "1") ∷ []) db
      "weight" (str "1") stored (unfold text_diff in refl) (inl refl) unnamed

ends : EndsStored db
ends = ((refl, refl), tt)

map_relation_deletes-returns_example :
    (db' : Db) × (map_relation_deletes job "o-1" [] none db ≡ ok db')
    × (db'.resources ≡ db.resources)
    × (db'.relations.rows
        ≡ filter (λ x. not (is_stale job "o-1" [] none db.resources.rows x)) db.relations.rows)
map_relation_deletes-returns_example =
    map_relation_deletes-returns job "o-1" [] none db ends (tt, tt)
