-- ===== src/Delta/Lookup.antt =====
-- introspector/models/resource.py: Resource.get_by_uri and get_by_attrs, and the search for a security
-- group by its name of introspector/aws/uri.py.
use introspector.Prelude.{
  ℕ, String, ◌<>◌, Bool, true, false, ◌&&◌, Option, none, some, List, [], ◌∷◌, str_eq, opt_eq, ◌==◌,
  filter, any,
}
use introspector.Prelude.Dict.{Dict}
use introspector.Prelude.Like.{like}
use introspector.Outcome.{
  Outcome, ok, raise, key_error, index_error, type_error, undefined_function, ◌>>=◌,
}
use introspector.Value.{Value, null, bool, num, str, arr, dict, no_items, item}
use introspector.Store.{Db}
use introspector.Store.Rows.{Resource, ResourceAttribute}
use introspector.Uri.{Uri, exact, security_group, require, show}
use introspector.Delta.Resource.{is_uri, one_or_none}

-- Texts that code outside of the repository makes: Python's of a number, a list or an object, and
-- PostgreSQL's of a JSON list or object.
pub record Formats : Type 0 where
  pub repr : Value → String
  pub json_text : Value → String

pub record ResourceId : Type 0 where
  pub id : ℕ
  pub uri : String

abbrev pub resource_id : Resource → ResourceId
resource_id r = record { id = r.id; uri = r.uri }

module _ (fmt : Formats) where
  -- value #>> '{}'
  unfoldable pub text_of : Value → Option String
  text_of null = none
  text_of (bool true) = some "true"
  text_of (bool false) = some "false"
  text_of (num n) = some n
  text_of (str s) = some s
  text_of v = some (fmt.json_text v)

  -- One of the joined attributes: a provider's attribute of the name whose value has the text.
  unfoldable pub is_attr : Resource → String → String → ResourceAttribute → Bool
  unfolding text_of opt_eq
  is_attr r name value a =
      opt_eq a.attr_type (some "provider")
      && (str_eq a.name name && (opt_eq (text_of a.value) (some value) && (a.resource_id == r.id)))

  unfoldable pub has_attrs : List ResourceAttribute → List (String × String) → Resource → Bool
  unfolding is_attr
  has_attrs rows [] r = true
  has_attrs rows ((name, value) ∷ attrs) r =
      let rest = has_attrs rows attrs r in any (is_attr r name value) rows && rest

  -- The first row of the query.
  unfoldable pub get_by_attrs : ℕ → String → List (String × String) → Db → Option ResourceId
  unfolding has_attrs opt_eq
  get_by_attrs account provider_type attrs db =
      elim (filter
        (λ r.
          opt_eq r.provider_type (some provider_type)
          && ((r.provider_account_id == account) && has_attrs db.attributes.rows attrs r))
        db.resources.rows) [ [] ↦ none | r ∷ rs ↦ some (resource_id r) ]

  -- The function that `_security_group_by_name` returns. A comparison with NULL finds nothing, and
  -- one with a number, a truth value or a list has no operator.
  unfoldable pub security_group_by_name : Dict Value → ℕ → Db → Outcome (List ResourceId)
  unfolding get_by_attrs require
  security_group_by_name kwargs account db = do
    name ← require "name" kwargs
    elim name [
      | null ↦ ok []
      | str s ↦ ok (elim (get_by_attrs account "SecurityGroup" (("GroupName", s) ∷ []) db) [
        | none ↦ []
        | some r ↦ r ∷ []
      ])
      | _ ↦ raise undefined_function
    ]

  unfoldable pub resource_ids : Option Resource → List ResourceId
  resource_ids none = []
  resource_ids (some r) = resource_id r ∷ []

  unfoldable pub get_like : ℕ → String → Db → Outcome (List ResourceId)
  unfolding like one_or_none resource_ids
  get_like account pattern db = do
    found ←
        one_or_none
          (filter (λ r. (r.provider_account_id == account) && like r.uri pattern) db.resources.rows)
    ok (resource_ids found)

  unfoldable pub get_exact : ℕ → String → Db → Outcome (List ResourceId)
  unfolding is_uri one_or_none resource_ids
  get_exact account uri db = do
    found ← one_or_none (filter (is_uri account uri) db.resources.rows)
    ok (resource_ids found)

  -- uri[0] and uri[1], of anything but a text or a function
  unfoldable pub pair_pattern : Value → Outcome String
  unfolding show
  pair_pattern (arr no_items) = raise index_error
  pair_pattern (arr (item a no_items)) = raise index_error
  pair_pattern (arr (item a (item b vs))) = ok (show fmt.repr a <> ("%" <> show fmt.repr b))
  pair_pattern (dict fs) = raise key_error
  pair_pattern v = raise type_error

  unfoldable pub get_by_value : ℕ → Value → Db → Outcome (List ResourceId)
  unfolding get_exact get_like pair_pattern
  get_by_value account (str uri) db = get_exact account uri db
  get_by_value account uri db = do pattern ← pair_pattern uri; get_like account pattern db

  unfoldable pub get_by_uri : ℕ → Uri → Db → Outcome (List ResourceId)
  unfolding security_group_by_name get_by_value get_like
  get_by_uri account (exact uri) db = get_by_value account uri db
  get_by_uri account (Uri.like before after) db = get_like account (before <> ("%" <> after)) db
  get_by_uri account (security_group kwargs) db = security_group_by_name kwargs account db
