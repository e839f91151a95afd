-- ===== src/Delta/Resource/Stored.antt =====
-- introspector/delta/resource.py: `apply_resource` from the lookup of the stored raw document, and
-- what is stored after it.
use mathlib.Core.Path.{subst}
use introspector.Prelude.{
  ℕ, ◌≡◌, refl, sym, ◌∙◌, ◌⊎◌, inl, inr, String, Bool, true, false, Option, none, some, List, [],
  ◌∷◌, ◌++◌, arith, find, any, eq_iff, Option-cases,
}
use introspector.Prelude.Dict.{Dict}
use introspector.Outcome.{ok}
use introspector.Value.{Value}
use introspector.Store.{Db}
use introspector.Store.Tables.{insert, update_rows}
use introspector.Store.Rows.{ImportJob, Resource, ResourceRaw}
use introspector.Delta.Attrs.{MappedAttribute, differs}
use introspector.Delta.Resource.{
  is_uri, scope_of, set_raw, finish_diff, first_import, later_import, apply_resource,
}
use introspector.Delta.Resource.Frames.{SameRaws, ok-injective, diff_attrs-cases}
use introspector.Delta.Resource.First.{with_resource, with_raw, first_import_lem}
use introspector.Delta.Resource.Unique.{is_raw, IsUnique, stored_raw, one_or_none-raws_at}

module _ (json_diff : Value → Value → Dict Value) (job : ImportJob) (source : String) where
  -- `apply_resource` is a first import where the source has no raw document stored for the uri, and
  -- else an update of that document: its query never finds two. It is assumed that the database
  -- meets the constraints on its tables.
  pub apply_resource_lem :
      (resource : Resource) (raw : Value) (attrs : List MappedAttribute) (db : Db)
      → IsUnique db
      → apply_resource json_diff job source resource raw attrs db
        ≡ elim (stored_raw job.provider_account_id source resource.uri db) [
          | none ↦ first_import json_diff job source resource raw attrs db
          | some w ↦ ok (later_import json_diff job source w raw attrs db)
        ]
  unfolding apply_resource
  apply_resource_lem resource raw attrs db u =
      rw (one_or_none-raws_at job.provider_account_id source resource.uri db u) refl

find_update :
    (source : String) (i : ℕ) (raw : Value) (w : ResourceRaw) (ws : List ResourceRaw)
    → find (is_raw source i) ws ≡ some w
    → find (is_raw source i) (update_rows (λ x. x.id) w.id (λ x. record x { raw = raw }) ws)
      ≡ some (record w { raw = raw })
unfolding update_rows is_raw
find_update source i raw w [] h = cc
find_update source i raw w (x ∷ ws) h = ground (arith, find_update source i raw w ws)

pub set_raw-stored :
    (account : ℕ) (source uri : String) (raw : Value) (w : ResourceRaw) (db : Db)
    → stored_raw account source uri db ≡ some w
    → stored_raw account source uri (set_raw w raw db) ≡ some (record w { raw = raw })
unfolding stored_raw set_raw
set_raw-stored account source uri raw w db h =
    elim (Option-cases (find (is_uri account uri) db.resources.rows)) [
      | inl gone ↦ ground (arith, (rw (stored_raw, gone) at h))
      | inr (r, found) ↦
          rw (stored_raw, found)
            (find_update source r.id raw w db.raws.rows (rw (stored_raw, found) at h))
    ]

pub stored_raw-SameRaws :
    (account : ℕ) (source uri : String) (db db' : Db)
    → SameRaws db db'
    → stored_raw account source uri db' ≡ stored_raw account source uri db
unfolding stored_raw
stored_raw-SameRaws account source uri db db' k = rw (k.resources, k.raws) refl

-- The document that is stored is the new one, or one that does not differ from it.
abbrev pub Stores : (Value → Value → Dict Value) → Value → Option ResourceRaw → Type 0
Stores json_diff raw o =
    (w : ResourceRaw) × (o ≡ some w) × ((w.raw ≡ raw) ⊎ (differs json_diff w.raw raw ≡ false))

pub find-append :
    (p : ResourceRaw → Bool) (ws : List ResourceRaw) (w : ResourceRaw)
    → any p ws ≡ false
    → p w ≡ true
    → find p (ws ++ w ∷ []) ≡ some w
find-append p [] w h k = ground (arith, k)
find-append p (x ∷ ws) w h k = ground (arith, find-append p ws w, k)

find_resource-append :
    (p : Resource → Bool) (rs : List Resource) (r : Resource)
    → any p rs ≡ false
    → p r ≡ true
    → find p (rs ++ r ∷ []) ≡ some r
find_resource-append p [] r h k = ground (arith, k)
find_resource-append p (x ∷ rs) r h k = ground (arith, find_resource-append p rs r, k)

module _ (json_diff : Value → Value → Dict Value) where
  module _ (job : ImportJob) (source : String) where
    later_import-Stores :
        (w : ResourceRaw) (uri : String) (raw : Value) (attrs : List MappedAttribute) (db : Db)
        → stored_raw job.provider_account_id source uri db ≡ some w
        → Stores json_diff raw (
            stored_raw job.provider_account_id source uri
              (later_import json_diff job source w raw attrs db))
    unfolding later_import
    later_import-Stores w uri raw attrs db found =
        elim (diff_attrs-cases json_diff (scope_of job source w.resource_id) job.id w.raw raw attrs
          db) [
            | inl (db', h, k) ↦ rw h (
                unfold finish_diff in
                (
                  record w { raw = raw },
                  set_raw-stored job.provider_account_id source uri raw w db'
                      (stored_raw-SameRaws job.provider_account_id source uri db db' k ∙ found),
                  inl refl,
                ))
            | inr (h, same) ↦ rw h (unfold finish_diff in (w, found, inr same))
          ]

is_uri_self :
    (account : ℕ) (r : Resource) → r.provider_account_id ≡ account → is_uri account r.uri r ≡ true
unfolding is_uri
is_uri_self account r h = ground (arith, eq_iff r.uri r.uri)

stored_first :
    (account : ℕ) (source : String) (r : Resource) (raw : Value) (db : Db)
    → r.provider_account_id ≡ account
    → any (is_uri r.provider_account_id r.uri) db.resources.rows ≡ false
    → any (is_raw source db.resources.next) db.raws.rows ≡ false
    → (w : ResourceRaw) × (stored_raw account source r.uri
          (with_raw account source db.resources.next raw (with_resource r db))
        ≡ some w)
      × (w.raw ≡ raw)
unfolding stored_raw with_raw with_resource insert
stored_first account source r raw db same fresh new =
    rw
      (
        stored_raw,
        find_resource-append (is_uri account r.uri) db.resources.rows
            (record r { id = db.resources.next }) (rw same at fresh)
            (is_uri_self account (record r { id = db.resources.next }) same),
      )
      (
        record {
          id = db.raws.next;
          source = source;
          resource_id = db.resources.next;
          provider_account_id = account;
          raw = raw;
        },
        find-append (is_raw source db.resources.next) db.raws.rows _ new
            (unfold is_raw in ground (arith, eq_iff source source)),
        refl,
      )

module _ (json_diff : Value → Value → Dict Value) (job : ImportJob) (source : String) where
  -- Where `apply_resource` returns, the raw document that the source has stored for the uri is the new
  -- one, or one that does not differ from it. It is assumed that the database meets the constraints
  -- on its tables, and that the resource is of the job's account.
  pub apply_resource-Stores :
      (resource : Resource) (raw : Value) (attrs : List MappedAttribute) (db db' : Db)
      → IsUnique db
      → resource.provider_account_id ≡ job.provider_account_id
      → apply_resource json_diff job source resource raw attrs db ≡ ok db'
      → Stores json_diff raw (stored_raw job.provider_account_id source resource.uri db')
  apply_resource-Stores resource raw attrs db db' u same h =
      elim (Option-cases (stored_raw job.provider_account_id source resource.uri db)) [
        | inl none' ↦
            let (fresh, new, k) = first_import_lem json_diff job source resource raw attrs db db' (
              rw none' at
                (sym (apply_resource_lem json_diff job source resource raw attrs db u) ∙ h)) in
            let (w, found, is_new) =
              stored_first job.provider_account_id source resource raw db same fresh new in
            (
              w,
              stored_raw-SameRaws job.provider_account_id source resource.uri _ db' k ∙ found,
              inl is_new,
            )
        | inr (w, found) ↦
            subst
              (λ (x : Db).
                Stores json_diff raw (stored_raw job.provider_account_id source resource.uri x))
              (ok-injective _ _ (
                rw found at
                  (sym (apply_resource_lem json_diff job source resource raw attrs db u) ∙ h)))
              (later_import-Stores json_diff job source w resource.uri raw attrs db found)
      ]
