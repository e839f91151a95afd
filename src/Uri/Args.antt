-- ===== src/Uri/Args.antt =====
-- introspector/aws/uri.py: how a uri function looks its arguments up. `kwargs` is the dictionary of the
-- keyword arguments that the function has no parameter of its own for.
use introspector.Prelude.{String, Bool, true, false, none, some, List, [], ◌∷◌, str_eq}
use introspector.Prelude.Text.{split, join, drop_last, lower}
use introspector.Prelude.Dict.{Dict, get}
use introspector.Outcome.{
  Outcome, ok, raise, gf_internal, key_error, attribute_error, type_error, ◌>>=◌,
}
use introspector.Value.{Value, null, str, arr, dict, Items, no_items, item, entries, Fields}

-- introspector/models/resource.py: a uri, a `LIKE` expression, or a lookup in the database
pub data Uri : Type 0 where
  exact : Value → Uri
  like : String → String → Uri
  security_group : (kwargs : Dict Value) → Uri

-- The text of an f-string, put together.
unfoldable pub concat : List String → Outcome Uri
unfolding join
concat parts = ok (exact (str (join "" parts)))

-- d.get(key), on any value
unfoldable pub get_of : String → Value → Outcome Value
unfolding get entries
get_of key (dict fs) = elim (get key (entries fs)) [ none ↦ ok null | some v ↦ ok v ]
get_of key _ = raise attribute_error

-- kwargs.get(key) and kwargs[key]
unfoldable pub arg : String → Dict Value → Value
unfolding get
arg key args = elim (get key args) [ none ↦ null | some v ↦ v ]

unfoldable pub require : String → Dict Value → Outcome Value
unfolding get
require key args = elim (get key args) [ none ↦ raise key_error | some v ↦ ok v ]

unfoldable pub is_null : Value → Bool
is_null null = true
is_null _ = false

-- kwargs.get(key, other)
unfoldable pub arg_or : Value → String → Dict Value → Value
unfolding get
arg_or other key args = elim (get key args) [ none ↦ other | some v ↦ v ]

-- v == text
unfoldable pub is_text : String → Value → Bool
is_text t (str s) = str_eq s t
is_text t _ = false

-- The item after `is None` has been raised upon.
unfoldable pub non_null : Value → Outcome Value
non_null null = raise gf_internal
non_null v = ok v

unfoldable pub drop_last_item : Items → Items
drop_last_item no_items = no_items
drop_last_item (item v no_items) = no_items
drop_last_item (item v (item w vs)) = item v (drop_last_item (item w vs))

-- zone[:-1]
unfoldable pub zone_to_region : Value → Outcome Value
unfolding drop_last drop_last_item
zone_to_region (str s) = ok (str (drop_last s))
zone_to_region (arr vs) = ok (arr (drop_last_item vs))
zone_to_region _ = raise type_error

-- args.get('parent_uri', {})
unfoldable pub parent_args : Dict Value → Value
unfolding get
parent_args args = elim (get "parent_uri" args) [ none ↦ dict Fields.no_members | some v ↦ v ]

unfoldable pub get_from_context : String → Value → Outcome Value
unfolding get_of
get_from_context key null = ok null
get_from_context key context = get_of key context

unfoldable pub or_else : Value → Outcome Value → Outcome Value
or_else null next = next
or_else v next = ok v

-- `null` stands for the `None` that the function returns on a miss.
unfoldable pub get_with_parent : String → Dict Value → Outcome Value
unfolding arg parent_args get_of get_from_context or_else
get_with_parent key args = or_else (arg key args) (do
  inherited ← get_of key (parent_args args)
  or_else inherited (get_from_context key (arg "context" args)))

unfoldable pub account_of_parts : List String → Outcome Value
account_of_parts [] = raise gf_internal
account_of_parts (p ∷ []) = raise gf_internal
account_of_parts (p ∷ (account ∷ ps)) = ok (str account)

unfoldable pub require_account_id : Dict Value → Outcome Value
unfolding get_with_parent split account_of_parts
require_account_id args = do
  found ← get_with_parent "path" args
  elim found [
    | null ↦ raise gf_internal
    | str path ↦ account_of_parts (split b'$' path)
    | _ ↦ raise attribute_error
  ]

-- name.lower()
unfoldable pub lower_of : Value → Outcome Value
unfolding lower
lower_of (str s) = ok (str (lower s))
lower_of _ = raise attribute_error

-- The region argument, which most services require.
unfoldable pub require_region : Dict Value → Outcome Value
unfolding get_with_parent non_null
require_region args = do region ← get_with_parent "region" args; non_null region

-- kwargs['context']['region']
unfoldable pub item_of : String → Value → Outcome Value
unfolding require entries
item_of key (dict fs) = require key (entries fs)
item_of key _ = raise type_error
