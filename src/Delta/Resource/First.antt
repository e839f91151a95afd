-- ===== src/Delta/Resource/First.antt =====
-- introspector/delta/resource.py: a first import that returns has added one resource and one raw
-- document.
use mathlib.Core.Path.{subst}
use introspector.Prelude.{
  ℕ, ◌≡◌, sym, ◌∙◌, ap, inl, inr, String, false, ◌&&◌, none, List, any, opt_eq, Bool-cases,
}
use introspector.Prelude.Dict.{Dict}
use introspector.Outcome.{ok, raise, integrity_error, >>=-returns}
use introspector.Value.{Value}
use introspector.Store.{Db}
use introspector.Store.Tables.{insert}
use introspector.Store.Rows.{ImportJob, Resource, ChangeType, raw_added}
use introspector.Delta.Attrs.{MappedAttribute}
use introspector.Delta.Resource.{
  is_uri, scope_of, add_resource, add_raw, add_attrs, log_resource, first_import,
}
use introspector.Delta.Resource.Frames.{SameRaws, SameRaws-ends, ok-injective, add_attrs-SameRaws}
use introspector.Delta.Resource.Unique.{is_raw}

unfoldable pub with_resource : Resource → Db → Db
with_resource r db = record db { resources = insert (λ i. record r { id = i }) db.resources }

unfoldable pub with_raw : ℕ → String → ℕ → Value → Db → Db
with_raw account source i raw db = record db {
  raws =
      insert
        (λ n. record {
          id = n;
          source = source;
          resource_id = i;
          provider_account_id = account;
          raw = raw;
        })
        db.raws;
}

add_resource_lem :
    (r : Resource) (db db' : Db)
    → add_resource r db ≡ ok db'
    → (any (is_uri r.provider_account_id r.uri) db.resources.rows ≡ false)
      × (with_resource r db ≡ db')
unfolding add_resource with_resource
add_resource_lem r db db' h =
    elim (Bool-cases (any (is_uri r.provider_account_id r.uri) db.resources.rows)) [
      | inl there ↦ elim (clash (rw there at h)) [ ]
      | inr fresh ↦ elim (Bool-cases (opt_eq r.category none && opt_eq r.provider_type none)) [
        | inl untyped ↦ elim (clash (rw (fresh, untyped) at h)) [ ]
        | inr typed ↦ (fresh, ok-injective _ _ (rw (fresh, typed) at h))
      ]
    ]
  where
    clash : raise integrity_error ≡ ok db' → ⊥
    clash e = cc

pub add_raw_lem :
    (account : ℕ) (source : String) (i : ℕ) (raw : Value) (db db' : Db)
    → add_raw account source i raw db ≡ ok db'
    → (any (is_raw source i) db.raws.rows ≡ false) × (with_raw account source i raw db ≡ db')
unfolding add_raw with_raw is_raw
add_raw_lem account source i raw db db' h = elim (Bool-cases (any (is_raw source i) db.raws.rows)) [
  | inl there ↦ elim (clash (rw there at h)) [ ]
  | inr fresh ↦ (fresh, ok-injective _ _ (rw fresh at h))
]
  where
    clash : raise integrity_error ≡ ok db' → ⊥
    clash e = cc

module _ (json_diff : Value → Value → Dict Value) (job : ImportJob) (source : String) where
  pub first_import_lem :
      (r : Resource) (raw : Value) (attrs : List MappedAttribute) (db db' : Db)
      → first_import json_diff job source r raw attrs db ≡ ok db'
      → (any (is_uri r.provider_account_id r.uri) db.resources.rows ≡ false)
        × (any (is_raw source db.resources.next) db.raws.rows ≡ false)
        × SameRaws
            (with_raw job.provider_account_id source db.resources.next raw (with_resource r db))
            db'
  unfolding first_import
  first_import_lem r raw attrs db db' h =
      let (a, first, rest) = >>=-returns (add_resource r db) _ h in
      let (b, second, end) =
        >>=-returns (add_raw job.provider_account_id source db.resources.next raw a) _ rest in
      let (fresh, at_a) = add_resource_lem r db a first in
      let (new, at_b) =
        add_raw_lem job.provider_account_id source db.resources.next raw a b second in
      (
        fresh,
        unfold with_resource in
            subst (λ (x : Db). any (is_raw source db.resources.next) x.raws.rows ≡ false) (sym at_a)
              new,
        SameRaws-ends
            (ap (with_raw job.provider_account_id source db.resources.next raw) at_a ∙ at_b)
            (ok-injective _ _ end) (kept b),
      )
    where
      kept :
          (b : Db)
          → SameRaws b (
              add_attrs json_diff
                (scope_of job source db.resources.next)
                b.deltas.next
                attrs
                (log_resource job db.resources.next ChangeType.add (raw_added raw) b))
      kept b =
          let k =
            add_attrs-SameRaws json_diff (scope_of job source db.resources.next) b.deltas.next attrs
              (log_resource job db.resources.next ChangeType.add (raw_added raw) b) in
          unfold log_resource in record { resources = k.resources; raws = k.raws }
