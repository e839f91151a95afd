-- ===== src/Delta/Attrs.antt =====
-- introspector/delta/attrs.py: the attributes of one source of a resource are brought up to the
-- mapped ones. `json_diff` of introspector/delta/__init__.py is a call of the DeepDiff package: it is
-- the parameter `json_diff`, whose result is the document of the differences, empty if there are
-- none. The Python sets of rows are lists in table order.
pub mod Keys
pub mod WellFormed
pub mod Tracking
pub mod Steps
pub mod Content
pub mod Update
pub mod Replay
use introspector.Prelude.{
  ℕ, suc, ◌≡◌, refl, String, Bool, true, false, not, ◌&&◌, ◌||◌, Option, none, some, List, [], ◌∷◌,
  str_eq, opt_eq, ◌==◌, if◌then◌else◌, length, is_empty, filter, find, any,
}
use introspector.Prelude.Dict.{Dict}
use introspector.Value.{Value}
use introspector.Store.{Db}
use introspector.Store.Tables.{Table, insert, update, delete}
use introspector.Store.Rows.{
  ResourceAttribute, ResourceAttributeDelta, AttributeChange, ChangeType, ResourceDelta, stanzas,
}

-- introspector/mapper.py: an attribute that the mapper found
pub record MappedAttribute : Type 0 where
  pub attr_type : Option String
  pub name : String
  pub value : Value

-- Which rows of `resource_attribute` a call is about.
pub record Scope : Type 0 where
  pub resource_id : ℕ
  pub source : String
  pub provider_account_id : ℕ

unfoldable pub in_scope : Scope → ResourceAttribute → Bool
in_scope s r =
    (r.resource_id == s.resource_id)
    && (str_eq r.source s.source && (r.provider_account_id == s.provider_account_id))

-- the test of `_find_existing_attr`
unfoldable pub at_key : Option String → String → ResourceAttribute → Bool
at_key t n r = str_eq r.name n && opt_eq r.attr_type t

unfoldable pub find_existing_attr :
    List ResourceAttribute → MappedAttribute → Option ResourceAttribute
find_existing_attr attrs a = find (at_key a.attr_type a.name) attrs

-- existing_attributes.remove(existing_attr), by identity
unfoldable pub forget : ResourceAttribute → List ResourceAttribute → List ResourceAttribute
forget e rs = filter (λ r. not (r.id == e.id)) rs

-- ResourceAttribute(resource_id=…, source=…, attr_type=attr.type, …)
unfoldable pub attribute_row : Scope → MappedAttribute → ℕ → ResourceAttribute
attribute_row s a i = record {
  id = i;
  resource_id = s.resource_id;
  provider_account_id = s.provider_account_id;
  source = s.source;
  attr_type = a.attr_type;
  name = a.name;
  value = a.value;
}

-- ResourceAttributeDelta(…), added to the session
unfoldable pub log_attribute : ℕ → ℕ → ℕ → ChangeType → AttributeChange → Db → Db
unfolding insert
log_attribute account delta_id attribute_id change details db = record db {
  attribute_deltas =
      insert
        (λ i. record {
          id = i;
          provider_account_id = account;
          resource_delta_id = delta_id;
          resource_attribute_id = attribute_id;
          change_type = change;
          change_details = details;
        })
        db.attribute_deltas;
}

unfoldable pub synthesized : MappedAttribute → Bool
synthesized a = not (opt_eq a.attr_type (some "provider"))

-- The same test in the query, where a missing type is NULL and passes no comparison.
unfoldable pub synthesized_row : ResourceAttribute → Bool
synthesized_row r = elim r.attr_type [ none ↦ false | some t ↦ not (str_eq t "provider") ]

module _ (json_diff : Value → Value → Dict Value) where
  unfoldable pub differs : Value → Value → Bool
  differs old new = not (is_empty (json_diff old new))

  -- The loop that looks for a new or changed synthesized attribute.
  unfoldable pub any_changed : List ResourceAttribute → List MappedAttribute → Bool
  unfolding find_existing_attr
  any_changed existing [] = false
  any_changed existing (a ∷ attrs) =
      let rest = any_changed existing attrs in
      elim (find_existing_attr existing a) [
        | none ↦ true
        | some e ↦ if differs e.value a.value then true else rest
      ]

  module _ (s : Scope) (delta_id : ℕ) where
    -- The body of the loop over the new attributes, on a miss and on a hit.
    unfoldable pub add_attr : MappedAttribute → Db → Db
    unfolding insert attribute_row log_attribute
    add_attr a db =
        log_attribute s.provider_account_id delta_id db.attributes.next ChangeType.add
          (AttributeChange.current a.attr_type a.name a.value)
          (record db { attributes = insert (attribute_row s a) db.attributes })

    unfoldable pub change_attr : ResourceAttribute → MappedAttribute → Db → Db
    unfolding update log_attribute
    change_attr e a db =
        if differs e.value a.value
        then log_attribute s.provider_account_id delta_id e.id ChangeType.update
            (AttributeChange.replaced e.attr_type e.name e.value a.value
              (json_diff e.value a.value))
            (record db {
              attributes =
                  update (λ r. r.id) e.id (λ r. record r { value = a.value }) db.attributes;
            })
        else db

    unfoldable pub drop_attr : ResourceAttribute → Db → Db
    unfolding delete log_attribute
    drop_attr e db =
        log_attribute s.provider_account_id delta_id e.id ChangeType.delete
          (AttributeChange.current e.attr_type e.name e.value)
          (record db { attributes = delete (λ r. r.id) e.id db.attributes })

    -- The two loops: the new attributes, then the rows that none of them matched.
    unfoldable pub drop_attrs : List ResourceAttribute → Db → Db
    drop_attrs [] db = db
    drop_attrs (e ∷ es) db = drop_attrs es (drop_attr e db)

    unfoldable pub sync_attrs : List MappedAttribute → List ResourceAttribute → Db → Db
    unfolding find_existing_attr
    sync_attrs [] existing db = drop_attrs existing db
    sync_attrs (a ∷ attrs) existing db = elim (find_existing_attr existing a) [
      | none ↦ sync_attrs attrs existing (add_attr a db)
      | some e ↦ sync_attrs attrs (forget e existing) (change_attr e a db)
    ]

  -- The test that comes before any change: does the new import differ from the stored one?
  unfoldable pub needs_update :
      Scope → Value → Value → List MappedAttribute → List ResourceAttribute → Bool
  unfolding in_scope any_changed synthesized synthesized_row
  needs_update s previous current attrs rows =
      let news = filter synthesized attrs in
      let olds = filter (λ r. in_scope s r && synthesized_row r) rows in
      if differs previous current
      then true
      else if length news == length olds
      then any_changed olds news
      else true

  unfoldable pub add_delta : Scope → ℕ → Value → Value → Db → Db
  unfolding insert
  add_delta s job previous current db = record db {
    deltas =
        insert
          (λ i. record {
            id = i;
            provider_account_id = s.provider_account_id;
            import_job_id = job;
            resource_id = s.resource_id;
            change_type = ChangeType.update;
            change_details = stanzas (json_diff previous current);
          })
          db.deltas;
  }

  unfoldable pub diff_attrs : Scope → ℕ → Value → Value → List MappedAttribute → Db → Bool × Db
  unfolding needs_update add_delta sync_attrs in_scope
  diff_attrs s job previous current attrs db =
      if needs_update s previous current attrs db.attributes.rows
      then (
        true,
        sync_attrs s db.deltas.next attrs (filter (in_scope s) db.attributes.rows)
            (add_delta s job previous current db),
      )
      else (false, db)
