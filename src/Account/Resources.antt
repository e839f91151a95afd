-- ===== src/Account/Resources.antt =====
-- introspector/account.py: _delete_resources, against the rows that it takes out of the tables as they
-- stand at the start. The foreign keys hold where no relation of another account's resource leads to a
-- resource of the account.
use introspector.Prelude.{
  ℕ, String, ◌≡◌, refl, false, not, ◌&&◌, ◌==◌, filter, any, eq_refl, length,
}
use introspector.Prelude.Dict.{Dict, put, get-put}
use introspector.Outcome.{ok}
use introspector.Store.Filters.{any-filter}
use introspector.Account.{delete_account_resources}
use introspector.Account.Sql.{joins, without, unless_referred, any-without}
use introspector.Account.Statements.{
  Session, delete_where, counted, repeat_count, in_resources, of_relations, refers_to_resources,
  remove_relation_attributes, remove_relations, remove_attributes, remove_raws, remove_resources,
}

repeat_count-put :
    (name other : String) (n : ℕ) (report : Dict ℕ)
    → repeat_count name other (put other n report) ≡ put name n (put other n report)
unfolding repeat_count
repeat_count-put name other n report =
    rw (get-put other other n report, repeat_count, eq_refl other) refl

module _ (p : ℕ) (s : Session) where
  -- The session without the resources of the account and what belongs to them, in one step. The report
  -- has the count of the raw documents for the resources, too.
  unfoldable pub without_resources : Session
  unfolding delete_where counted put
  without_resources = record s {
    db = record s.db {
      relation_attributes =
          delete_where (of_relations p (λ a. a.relation_id) s) s.db.relation_attributes;
      relations =
          delete_where (in_resources p (λ r. r.resource_id) s.db.resources.rows) s.db.relations;
      attributes =
          delete_where (in_resources p (λ a. a.resource_id) s.db.resources.rows) s.db.attributes;
      raws = delete_where (in_resources p (λ w. w.resource_id) s.db.resources.rows) s.db.raws;
      resources = delete_where (λ r. r.provider_account_id == p) s.db.resources;
    };
    report =
        put "resource"
          (length (filter (in_resources p (λ w. w.resource_id) s.db.resources.rows) s.db.raws.rows))
          (counted "resource_raw" (in_resources p (λ w. w.resource_id) s.db.resources.rows)
            s.db.raws.rows
            (counted "resource_attribute" (in_resources p (λ a. a.resource_id) s.db.resources.rows)
              s.db.attributes.rows
              (counted "resource_relation" (in_resources p (λ r. r.resource_id) s.db.resources.rows)
                s.db.relations.rows
                (counted "resource_relation_attribute" (of_relations p (λ a. a.relation_id) s)
                  s.db.relation_attributes.rows s.report))));
  }

  pub delete_account_resources_lem :
      any
          (λ x.
            not (in_resources p (λ r. r.resource_id) s.db.resources.rows x)
            && in_resources p (λ r. r.target_id) s.db.resources.rows x)
          s.db.relations.rows
        ≡ false
      → delete_account_resources p s ≡ ok without_resources
  unfolding delete_account_resources without_resources remove_relation_attributes remove_relations
      remove_attributes remove_raws remove_resources delete_where of_relations unless_referred
      refers_to_resources without counted
  delete_account_resources_lem inside =
      rw
        (
          any-without
              (joins (λ a. a.relation_id) (λ r. r.id)
                (in_resources p (λ r. r.resource_id) s.db.resources.rows) s.db.relations.rows)
              s.db.relation_attributes.rows,
          any-without (in_resources p (λ r. r.resource_id) s.db.resources.rows) s.db.relations.rows,
          any-filter (in_resources p (λ r. r.target_id) s.db.resources.rows)
              (λ x. not (in_resources p (λ r. r.resource_id) s.db.resources.rows x))
              s.db.relations.rows,
          inside,
          any-without (in_resources p (λ r. r.resource_id) s.db.resources.rows)
              s.db.attributes.rows,
          any-without (in_resources p (λ r. r.resource_id) s.db.resources.rows) s.db.raws.rows,
          repeat_count-put "resource" "resource_raw",
        )
        refl
