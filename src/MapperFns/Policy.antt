-- ===== src/MapperFns/Policy.antt =====
-- introspector/aws/mapper_fns.py: policies, tags, and the table of the transforms. The relations of a
-- lambda alias are the parameter `lambda_alias`: their weights are computed with floating-point
-- numbers. The key of a tag that is no text is a `TypeError` here.
use introspector.Prelude.{
  String, Option, none, some, List, [], ◌∷◌, ◌++◌, if◌then◌else◌, any, is_empty,
}
use introspector.Prelude.Dict.{Dict, get, put, merge}
use introspector.Prelude.Text.{lower, is_blank}
use introspector.Outcome.{
  Outcome, ok, raise, gf_error, key_error, type_error, attribute_error, ◌>>=◌,
}
use introspector.Value.{
  Value, null, bool, str, arr, dict, no_items, items, to_items, to_fields, entries,
}
use introspector.Uri.{Uri, get_of, is_null, is_text, arg, arg_or, require, lower_of}
use introspector.Delta.Relations.{MappedRelation}
use introspector.MapperFns.{arrayize, map_outcome, normalize_principal_map, aws_zone_to_region}

-- {k.lower(): v for k, v in raw.items()}
unfoldable pub lower_keys : Dict Value → Dict Value → Dict Value
unfolding lower put
lower_keys [] lc = lc
lower_keys ((k, v) ∷ d) lc = lower_keys d (put (lower k) v lc)

-- The inner function `_normalize`, with the dictionary of the lowered keys.
unfoldable pub normalize :
    Dict Value → String → (Value → Outcome Value) → Dict Value → Outcome (Dict Value)
unfolding arg lower is_null put
normalize lc s fn result =
    if is_null (arg (lower s) lc)
    then ok result
    else (do v ← fn (arg (lower s) lc); ok (put s v result))

unfoldable pub arrayize_value : Value → Outcome Value
unfolding arrayize to_items
arrayize_value v = do vs ← arrayize v; ok (arr (to_items vs))

unfoldable pub principal_map_value : Value → Outcome Value
unfolding normalize_principal_map to_fields
principal_map_value v = do d ← normalize_principal_map v; ok (dict (to_fields d))

-- if v is not None: result[key] = v
unfoldable pub put_present : String → Value → Dict Value → Dict Value
unfolding is_null put
put_present key v result = if is_null v then result else put key v result

-- EFFECTS[…]
unfoldable pub effect_of : Value → Outcome Value
unfolding lower_of is_text
effect_of v = do
  effect ← lower_of v
  (if is_text "allow" effect
      then ok (str "Allow")
      else if is_text "deny" effect
      then ok (str "Deny")
      else raise key_error)

unfoldable pub statement_of : Dict Value → Outcome (Dict Value)
unfolding put_present normalize principal_map_value require effect_of put arrayize_value arg
statement_of lc = do
  let with_sid = put_present "Sid" (arg "sid" lc) []
  with_principal ← normalize lc "Principal" principal_map_value with_sid
  with_others ← normalize lc "NotPrincipal" principal_map_value with_principal
  effect ← require "effect" lc
  named ← effect_of effect
  with_action ← normalize lc "Action" arrayize_value (put "Effect" named with_others)
  with_not_action ← normalize lc "NotAction" arrayize_value with_action
  with_resource ← normalize lc "Resource" arrayize_value with_not_action
  with_not_resource ← normalize lc "NotResource" arrayize_value with_resource
  ok (put_present "Condition" (arg "condition" lc) with_not_resource)

unfoldable pub policy_statement : Value → Outcome Value
unfolding lower_keys statement_of entries to_fields
policy_statement (dict fs) = do
  result ← statement_of (lower_keys (entries fs) [])
  ok (dict (to_fields result))
policy_statement v = raise attribute_error

-- [policy_statement(s) for s in v]
unfoldable pub policy_statements : Value → Outcome (List Value)
unfolding map_outcome policy_statement items is_blank entries
policy_statements (arr vs) = map_outcome policy_statement (items vs)
policy_statements (str s) = if is_blank s then ok [] else raise attribute_error
policy_statements (dict fs) = if is_empty (entries fs) then ok [] else raise attribute_error
policy_statements v = raise type_error

abbrev pub policy_version : Value
policy_version = str "2012-10-17"

-- EMPTY_POLICY
unfoldable pub empty_policy : Dict Value
empty_policy = ("Version", policy_version) ∷ ("Statement", arr no_items) ∷ []

module _ (loads : String → Outcome Value) where
  -- The policy of the lowered keys.
  unfoldable pub policy_of : Dict Value → Outcome (Dict Value)
  unfolding arg arg_or put_present policy_statements put to_items
  policy_of lc = do
    let with_id =
        put_present "Id" (arg "id" lc) (("Version", arg_or policy_version "version" lc) ∷ [])
    statements ← policy_statements (arg_or (arr no_items) "statement" lc)
    ok (put "Statement" (arr (to_items statements)) with_id)

  unfoldable pub policy_dict : Value → Outcome (Dict Value)
  unfolding policy_of lower_keys entries
  policy_dict (dict fs) = policy_of (lower_keys (entries fs) [])
  policy_dict v = raise attribute_error

  unfoldable pub policy : Value → Outcome (Dict Value)
  unfolding empty_policy policy_dict
  policy null = ok empty_policy
  policy (str s) = do loaded ← loads s; policy_dict loaded
  policy v = policy_dict v

  -- statements += policy.get('Statement', []), over the policies, whose statements are lists
  unfoldable pub all_statements : List (Dict Value) → List Value
  unfolding get items
  all_statements [] = []
  all_statements (p ∷ ps) =
      let rest = all_statements ps in
      elim (get "Statement" p) [ some (arr vs) ↦ items vs ++ rest | _ ↦ rest ]

  unfoldable pub policy_map : Value → Outcome (Dict Value)
  unfolding empty_policy map_outcome policy all_statements entries to_items is_blank items
  policy_map null = ok empty_policy
  policy_map (dict fs) = if is_empty (entries fs) then ok empty_policy else (do
    policies ← map_outcome (λ e. policy e.1) (entries fs)
    ok (
        ("Version", policy_version)
        ∷ ("Id", str "Synthesized from map")
        ∷ ("Statement", arr (to_items (all_statements policies)))
        ∷ []))
  policy_map (arr vs) = if is_empty (items vs) then ok empty_policy else raise attribute_error
  policy_map (str s) = if is_blank s then ok empty_policy else raise attribute_error
  policy_map v = raise type_error

-- The first of the names under which the item has a value.
unfoldable pub first_of : List String → Value → Outcome Value
unfolding get_of is_null
first_of [] v = raise gf_error
first_of (attr ∷ attrs) v = do
  found ← get_of attr v
  let rest = first_of attrs v
  if is_null found then rest else ok found

abbrev pub key_attrs : List String
key_attrs = "Key" ∷ "key" ∷ "TagKey" ∷ []

abbrev pub value_attrs : List String
value_attrs = "Value" ∷ "value" ∷ "TagValue" ∷ []

unfoldable pub aws_tag_key : Value → Outcome Value
unfolding first_of
aws_tag_key v = first_of key_attrs v

unfoldable pub aws_tag_value : Value → Outcome Value
unfolding first_of
aws_tag_value v = first_of value_attrs v

unfoldable pub text_key : Value → Outcome String
text_key (str s) = ok s
text_key v = raise type_error

unfoldable pub tag_entries : List Value → Dict Value → Outcome (Dict Value)
unfolding aws_tag_key aws_tag_value text_key put
tag_entries [] d = ok d
tag_entries (v ∷ vs) d = do
  found ← aws_tag_key v
  value ← aws_tag_value v
  key ← text_key found
  tag_entries vs (put key value d)

unfoldable pub tag_list_to_object : Value → Outcome (Dict Value)
unfolding tag_entries items is_blank entries
tag_list_to_object null = ok []
tag_list_to_object (arr vs) = tag_entries (items vs) []
tag_list_to_object (str s) = if is_blank s then ok [] else raise attribute_error
tag_list_to_object (dict fs) = if is_empty (entries fs) then ok [] else raise attribute_error
tag_list_to_object v = raise type_error

-- The function that `_get_aws_not_in_org` returns. A text is never equal to anything but a text.
unfoldable pub aws_not_in_org : List String → Value → Outcome Value
unfolding is_text
aws_not_in_org account_ids account_id = ok (bool (any (λ i. is_text i account_id) account_ids))

-- A function of the table: a transform of a value, or one that finds relations, from the uri of the
-- parent, the target, the arguments of the parent's uri, the parent and the parent's arguments.
pub data MapperFn : Type 0 where
  value_fn : (Value → Outcome Value) → MapperFn
  relation_fn :
      (Uri → Value → Dict Value → Value → Dict Value → Outcome (List MappedRelation)) → MapperFn

unfoldable pub as_dict : Outcome (Dict Value) → Outcome Value
unfolding to_fields
as_dict m = do d ← m; ok (dict (to_fields d))

module _ (loads : String → Outcome Value) (lambda_alias : MapperFn) where
  unfoldable pub aws_transforms : Dict MapperFn
  unfolding aws_zone_to_region tag_list_to_object policy policy_map as_dict
  aws_transforms =
      ("aws_zone_to_region", value_fn aws_zone_to_region)
      ∷ ("aws_tags", value_fn (λ v. as_dict (tag_list_to_object v)))
      ∷ ("aws_lambda_alias", lambda_alias)
      ∷ ("aws_policy", value_fn (λ v. as_dict (policy loads v)))
      ∷ ("aws_policy_map", value_fn (λ v. as_dict (policy_map loads v)))
      ∷ []

  unfoldable pub get_mapper_fns : List String → Option (Dict MapperFn) → Dict MapperFn
  unfolding put merge aws_transforms aws_not_in_org
  get_mapper_fns account_ids extra_fns =
      let fns = put "aws_not_in_org" (value_fn (aws_not_in_org account_ids)) aws_transforms in
      elim extra_fns [ none ↦ fns | some extra ↦ merge fns extra ]
