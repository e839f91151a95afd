-- ===== src/Mapper/Eval.antt =====
-- introspector/mapper.py: Mapper.value_from_spec, _find_path and the attributes. `None` is `null`: for a
-- parent or a context that is not given, too.
use introspector.Prelude.{
  ◌||◌, ℕ, String, Bool, true, false, ◌&&◌, not, none, some, List, [], ◌∷◌, ◌++◌, map, str_eq,
  if◌then◌else◌, any,
}
use introspector.Uri.{arg, is_null, is_text, item_of}
use introspector.Prelude.Dict.{Dict, get, has, merge}
use introspector.Prelude.Like.{codes, begins}
use introspector.Outcome.{
  Outcome, ok, raise, gf_error, key_error, type_error, attribute_error, ◌>>=◌,
}
use introspector.Value.{
  Value, null, str, arr, dict, Items, no_items, item, items, Fields, no_members, member, to_items,
  to_fields, entries,
}
use introspector.MapperFns.{keys_of}
use introspector.MapperFns.Policy.{MapperFn, value_fn, relation_fn}

unfoldable pub letters : String → List Value
letters String.[] = []
letters (String.◌∷◌ c s) = str (String.◌∷◌ c String.[]) ∷ letters s

-- for x in v
unfoldable pub iterate : Value → Outcome (List Value)
unfolding items keys_of letters
iterate (arr vs) = ok (items vs)
iterate (dict fs) = ok (keys_of fs)
iterate (str s) = ok (letters s)
iterate v = raise type_error

unfoldable pub occurs : List ℕ → List ℕ → Bool
unfolding begins
occurs p [] = begins p []
occurs p (c ∷ s) = if begins p (c ∷ s) then true else occurs p s

-- isinstance(v, str)
unfoldable pub is_string : Value → Bool
is_string (str s) = true
is_string v = false

-- key in v
unfoldable pub mentions : String → Value → Outcome Bool
unfolding has entries is_text items occurs
mentions key (dict fs) = ok (has key (entries fs))
mentions key (arr vs) = ok (any (is_text key) (items vs))
mentions key (str s) = ok (occurs (codes key) (codes s))
mentions key v = raise type_error

-- v.items()
unfoldable pub members : Value → Outcome (Dict Value)
unfolding entries
members (dict fs) = ok (entries fs)
members v = raise attribute_error

-- self.fn(name)
unfoldable pub fn : Dict MapperFn → Value → Outcome MapperFn
unfolding get
fn fns (str name) = elim (get name fns) [ none ↦ raise key_error | some f ↦ ok f ]
fn fns (arr vs) = raise type_error
fn fns (dict fs) = raise type_error
fn fns v = raise key_error

-- A function that finds relations has parameters that must be given.
unfoldable pub call : MapperFn → Value → Outcome Value
call (value_fn f) v = f v
call (relation_fn f) v = raise type_error

-- {**value, **sub_result}, if there is a result
unfoldable pub merge_result : Dict Value → Value → Outcome (Dict Value)
unfolding merge entries
merge_result d null = ok d
merge_result d (dict fs) = ok (merge d (entries fs))
merge_result d v = raise type_error

-- The values of the sub-specifications, put together by `value.extend` and by `{**…}`.
unfoldable pub extend_all : List Value → List (Outcome Value) → Outcome (List Value)
unfolding iterate
extend_all vs [] = ok vs
extend_all vs (r ∷ rs) = do sub_result ← r; more ← iterate sub_result; extend_all (vs ++ more) rs

unfoldable pub merge_all : Dict Value → List (Outcome Value) → Outcome (Dict Value)
unfolding merge_result
merge_all d [] = ok d
merge_all d (r ∷ rs) = do sub_result ← r; next ← merge_result d sub_result; merge_all next rs

module _ (search : Value → Value → Outcome Value) where
  -- `path == ''`, or a search
  unfoldable pub search_path : Value → Value → Outcome Value
  unfolding is_text
  search_path path raw = if is_text "" path then ok raw else search path raw

  unfoldable pub find_path : Value → Value → Bool → Outcome Value
  unfolding is_text is_string
  find_path path raw require_string_on_empty =
      if is_text "" path
      then (if require_string_on_empty && not (is_string raw) then raise gf_error else ok raw)
      else search path raw

  module _ (fns : Dict MapperFn) where
    -- The end of `value_from_spec`: the transform, then the default.
    unfoldable pub finish : Value → Value → Outcome Value
    unfolding mentions item_of fn call is_null
    finish spec value = do
      transformed ← mentions "transform" spec
      next ←
          (if transformed
            then (do name ← item_of "transform" spec; f ← fn fns name; call f value)
            else ok value)
      defaulted ← mentions "default" spec
      (if is_null next && defaulted then item_of "default" spec else ok next)

    unfoldable pub mentions_any : List String → Value → Outcome Bool
    unfolding mentions
    mentions_any [] spec = ok false
    mentions_any (key ∷ keys) spec = do
      found ← mentions key spec
      rest ← mentions_any keys spec
      ok (found || rest)

    -- A specification that is no object: a keyword that is found in it is no index of it.
    unfoldable pub eval_other : Value → Value → Outcome Value
    unfolding mentions_any finish is_null
    eval_other spec parent = do
      found ← mentions_any ("items" ∷ "context" ∷ "dict" ∷ "identity" ∷ "path" ∷ "value" ∷ []) spec
      in_parent ← mentions "parent_path" spec
      (if found || (not (is_null parent) && in_parent) then raise type_error else finish spec null)

    -- The chain of tests for the keywords: `subs` and `dicts` are the values of the sub-specifications
    -- under "items" and "dict".
    unfoldable pub source :
        Dict Value
        → (raw parent ctx : Value) → (subs dicts : Outcome (List (Outcome Value))) → Outcome Value
    unfolding has arg is_null search_path extend_all merge_all to_items to_fields
    source spec raw parent ctx subs dicts =
        if has "items" spec
        then (do results ← subs; vs ← extend_all [] results; ok (arr (to_items vs)))
        else if has "context" spec
        then (if is_null ctx then ok null else search (arg "context" spec) ctx)
        else if has "dict" spec
        then (do results ← dicts; d ← merge_all [] results; ok (dict (to_fields d)))
        else if has "identity" spec
        then search (arg "identity" spec) raw
        else if has "path" spec
        then search_path (arg "path" spec) raw
        else if not (is_null parent) && has "parent_path" spec
        then search (arg "parent_path" spec) parent
        else if has "value" spec
        then ok (arg "value" spec)
        else ok null

    unfoldable mutual
      unfolding eval_other source finish keys_of letters entries

      pub value_from_spec : Value → (raw parent ctx : Value) → Outcome Value
      value_from_spec (dict fs) raw parent ctx = do
        value ←
            source (entries fs) raw parent ctx (sub_results "items" fs raw parent)
              (sub_results "dict" fs raw parent)
        finish (dict fs) value
      value_from_spec spec raw parent ctx = eval_other spec parent

      pub sub_results : String → Fields → (raw parent : Value) → Outcome (List (Outcome Value))
      sub_results key no_members raw parent = raise key_error
      sub_results key (member k v fs) raw parent =
          let here = sub_list v raw parent in
          let rest = sub_results key fs raw parent in if str_eq k key then here else rest

      pub sub_list : Value → (raw parent : Value) → Outcome (List (Outcome Value))
      sub_list (arr vs) raw parent = ok (sub_items vs raw parent)
      sub_list (dict fs) raw parent = ok (map (λ k. eval_other k parent) (keys_of fs))
      sub_list (str s) raw parent = ok (map (λ k. eval_other k parent) (letters s))
      sub_list v raw parent = raise type_error

      pub sub_items : Items → (raw parent : Value) → List (Outcome Value)
      sub_items no_items raw parent = []
      sub_items (item v vs) raw parent = value_from_spec v raw parent null ∷ sub_items vs raw parent
