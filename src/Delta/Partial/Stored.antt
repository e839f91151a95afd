-- ===== src/Delta/Partial/Stored.antt =====
-- introspector/delta/partial.py: the raw document that is stored after `apply_partial`.
use introspector.Outcome.{Outcome, ◌>>=◌, ok, ok-eq, >>=-returns}
use introspector.Store.Rows.{source_added, ChangeType, ImportJob, Resource, ResourceRaw}
use introspector.Delta.Resource.Frames.{SameRaws-ends, SameRaws, SameRaws-trans, diff_attrs-cases}
use introspector.Delta.Resource.First.{add_raw_lem, with_raw}
use introspector.Delta.Partial.{
  add_attribute_rows, log_added, first_partial, later_partial, apply_partial,
}
use introspector.Prelude.{
  ◌+◌, ℕ, ◌≡◌, refl, ◌∙◌, inl, inr, String, false, some, List, [], ◌∷◌, find, any, Option-cases,
  eq_iff, arith,
}
use mathlib.Core.Path.{subst}
use introspector.Prelude.Dict.{Dict}
use introspector.Value.{Value}
use introspector.Store.{Db}
use introspector.Store.Tables.{insert}
use introspector.Delta.Attrs.{MappedAttribute, Scope}
use introspector.Delta.Resource.{is_uri, scope_of, add_raw, log_resource, finish_diff}
use introspector.Delta.Resource.Unique.{is_raw, IsUnique, stored_raw, one_or_none-raws_at}
use introspector.Delta.Resource.Stored.{Stores, set_raw-stored, stored_raw-SameRaws, find-append}

add_attribute_rows-SameRaws :
    (s : Scope) (attrs : List MappedAttribute) (db : Db)
    → SameRaws db (add_attribute_rows s attrs db)
unfolding add_attribute_rows
add_attribute_rows-SameRaws s [] db = record { resources = refl; raws = refl }
add_attribute_rows-SameRaws s (a ∷ attrs) db =
    let k = add_attribute_rows-SameRaws s attrs _ in
    record { resources = k.resources; raws = k.raws }

log_added-SameRaws :
    (job : ImportJob) (d i : ℕ) (attrs : List MappedAttribute) (db : Db)
    → SameRaws db (log_added job d i attrs db)
unfolding log_added
log_added-SameRaws job d i [] db = record { resources = refl; raws = refl }
log_added-SameRaws job d i (a ∷ attrs) db =
    let k = log_added-SameRaws job d (i + 1) attrs _ in
    record { resources = k.resources; raws = k.raws }

module _ (job : ImportJob) (source : String) where
  -- A first import that returns has added one raw document.
  first_partial_lem :
      (target_id : ℕ) (raw : Value) (attrs : List MappedAttribute) (db db' : Db)
      → first_partial job source target_id raw attrs db ≡ ok db'
      → (any (is_raw source target_id) db.raws.rows ≡ false)
        × SameRaws (with_raw job.provider_account_id source target_id raw db) db'
  first_partial_lem target_id raw attrs db db' h =
      let start : (add_raw job.provider_account_id source target_id raw db
            >>= finish target_id raw attrs)
          ≡ ok db' =
        unfold first_partial in h in
      let (added, first, end) =
        >>=-returns (add_raw job.provider_account_id source target_id raw db)
          (finish target_id raw attrs) start in
      let (fresh, same) = add_raw_lem job.provider_account_id source target_id raw db added first in
      (fresh, SameRaws-ends same (ok-eq _ _ end) (finish-SameRaws target_id raw attrs added))
    where
      finished : ℕ → Value → List MappedAttribute → Db → Db
      finished target_id raw attrs d = log_added job d.deltas.next d.attributes.next attrs (
          log_resource job target_id ChangeType.update (source_added source raw)
            (add_attribute_rows (scope_of job source target_id) attrs d))

      finish : ℕ → Value → List MappedAttribute → Db → Outcome Db
      finish target_id raw attrs d = ok (finished target_id raw attrs d)

      finish-SameRaws :
          (target_id : ℕ) (raw : Value) (attrs : List MappedAttribute) (d : Db)
          → SameRaws d (finished target_id raw attrs d)
      finish-SameRaws target_id raw attrs d =
          let k = log_added-SameRaws job d.deltas.next d.attributes.next attrs (
            log_resource job target_id ChangeType.update (source_added source raw)
              (add_attribute_rows (scope_of job source target_id) attrs d)) in
          SameRaws-trans (add_attribute_rows-SameRaws (scope_of job source target_id) attrs d)
            (unfold log_resource in record { resources = k.resources; raws = k.raws })

  stored_new :
      (uri : String) (r : Resource) (raw : Value) (db : Db)
      → find (is_uri job.provider_account_id uri) db.resources.rows ≡ some r
      → any (is_raw source r.id) db.raws.rows ≡ false
      → (w : ResourceRaw) × (stored_raw job.provider_account_id source uri
            (with_raw job.provider_account_id source r.id raw db)
          ≡ some w)
        × (w.raw ≡ raw)
  unfolding stored_raw with_raw insert
  stored_new uri r raw db found fresh =
      let w : ResourceRaw = record {
        id = db.raws.next;
        source = source;
        resource_id = r.id;
        provider_account_id = job.provider_account_id;
        raw = raw;
      } in
      (
        w,
        rw (stored_raw, found)
            (find-append (is_raw source r.id) db.raws.rows w fresh
              (unfold is_raw in ground (arith, eq_iff source source))),
        refl,
      )

  module _ (json_diff : Value → Value → Dict Value) where
    later_partial-Stores :
        (w : ResourceRaw) (uri : String) (target_id : ℕ) (raw : Value)
        (attrs : List MappedAttribute) (db : Db)
        → stored_raw job.provider_account_id source uri db ≡ some w
        → Stores json_diff raw (
            stored_raw job.provider_account_id source uri
              (later_partial json_diff job source w target_id raw attrs db))
    unfolding later_partial
    later_partial-Stores w uri target_id raw attrs db found =
        elim (diff_attrs-cases json_diff (scope_of job source target_id) job.id w.raw raw attrs
          db) [
            | inl (db', h, k) ↦ rw h (
                unfold finish_diff in
                (
                  record w { raw = raw },
                  set_raw-stored job.provider_account_id source uri raw w db'
                      (stored_raw-SameRaws job.provider_account_id source uri db db' k ∙ found),
                  inl refl,
                ))
            | inr (h, same) ↦ rw h (unfold finish_diff in (w, found, inr same))
          ]

    -- Where `apply_partial` returns, the raw document that the source has stored for the target is the
    -- new one, or one that does not differ from it. It is assumed that the database meets the
    -- constraints on its tables, and that the target is a stored resource of the job's account.
    pub apply_partial-Stores :
        (uri : String) (target : Resource) (raw : Value) (attrs : List MappedAttribute)
        (db db' : Db)
        → IsUnique db
        → find (is_uri job.provider_account_id uri) db.resources.rows ≡ some target
        → apply_partial json_diff job source uri target.id raw attrs db ≡ ok db'
        → Stores json_diff raw (stored_raw job.provider_account_id source uri db')
    unfolding apply_partial
    apply_partial-Stores uri target raw attrs db db' u found h =
        let branch = rw (one_or_none-raws_at job.provider_account_id source uri db u) at h in
        elim (Option-cases (stored_raw job.provider_account_id source uri db)) [
          | inl absent ↦
              let (fresh, k) = first_partial_lem target.id raw attrs db db' (rw absent at branch) in
              let (w, at_end, is_new) = stored_new uri target raw db found fresh in
              (
                w,
                stored_raw-SameRaws job.provider_account_id source uri _ db' k ∙ at_end,
                inl is_new,
              )
          | inr (w, present) ↦
              subst
                (λ (x : Db). Stores json_diff raw (stored_raw job.provider_account_id source uri x))
                (ok-eq _ _ (rw present at branch))
                (later_partial-Stores w uri target.id raw attrs db present)
        ]
