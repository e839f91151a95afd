-- ===== src/Mapper/Specs.antt =====
-- introspector/mapper.py: the specification of a service, and the calls of a uri function. The version of
-- a specification is an integer here.
use introspector.Value.{
  Fields, Value, null, bool, num, str, arr, dict, no_items, no_members, to_fields, entries,
}
use introspector.Prelude.{
  String, Bool, false, not, ◌&&◌, Option, none, some, List, [], ◌∷◌, ◌++◌, str_eq, starts_with,
  if◌then◌else◌,
}
use introspector.Prelude.Dict.{Dict, get, put, has, merge}
use introspector.Outcome.{Outcome, ok, raise, type_error, attribute_error, ◌>>=◌}
use introspector.Uri.{Uri, get_of, item_of}
use introspector.MapperFns.Policy.{MapperFn}
use introspector.Mapper.Eval.{find_path, members, value_from_spec}

pub record Transform : Type 0 where
  pub service : String
  pub spec : Value

abbrev pub Transforms : Type 0
Transforms = Dict (Dict Transform)

pub record ResourceSpec : Type 0 where
  pub resource_name : Value
  pub category : Value
  pub provider_type : Value
  pub uri : Value
  pub name : Value
  pub attributes : Value

pub record SubResourceSpec : Type 0 where
  pub key : Value
  pub typ : Value
  pub parent : Value

pub record PartialSpec : Type 0 where
  pub uri : Value
  pub attributes : Value

-- v.get(key, other)
unfoldable pub get_or : String → Value → Value → Outcome Value
unfolding get entries
get_or key other (dict fs) = elim (get key (entries fs)) [ none ↦ ok other | some v ↦ ok v ]
get_or key other v = raise attribute_error

-- v.get(key, []), for a key that a specification gives
unfoldable pub list_in : Value → Fields → Outcome Value
unfolding get entries
list_in (str key) fs = ok (elim (get key (entries fs)) [ none ↦ arr no_items | some v ↦ v ])
list_in (arr vs) fs = raise type_error
list_in (dict ks) fs = raise type_error
list_in key fs = ok (arr no_items)

unfoldable pub get_list : Value → Value → Outcome Value
unfolding list_in
get_list key (dict fs) = list_in key fs
get_list key v = raise attribute_error

unfoldable pub named_transform : Dict Transform → Value → Outcome (Option Transform)
unfolding get
named_transform ts (str name) = ok (get name ts)
named_transform ts (arr vs) = raise type_error
named_transform ts (dict fs) = raise type_error
named_transform ts v = ok none

unfoldable pub find_transform : Transforms → String → Value → Outcome Transform
unfolding get named_transform
find_transform transforms service resource_name = do
  found ← named_transform (elim (get service transforms) [ none ↦ [] | some ts ↦ ts ]) resource_name
  ok (elim found [ none ↦ record { service = service; spec = dict no_members } | some t ↦ t ])

unfoldable pub version : Transform → Outcome Value
unfolding get_or
version t = get_or "version" (num "0") t.spec

unfoldable pub is_one : Value → Bool
is_one (num n) = str_eq n "1"
is_one (bool b) = b
is_one v = false

-- v >= 1
unfoldable pub at_least_one : Value → Outcome Bool
at_least_one (num n) = ok (not (str_eq n "0") && not (starts_with n "-"))
at_least_one (bool b) = ok b
at_least_one v = raise type_error

unfoldable pub resource_spec : Value → Outcome ResourceSpec
unfolding get_of item_of get_or
resource_spec spec = do
  resource_name ← get_of "resource_name" spec
  category ← get_of "category" spec
  provider_type ← get_of "provider_type" spec
  uri ← item_of "uri" spec
  name ← item_of "name" spec
  attributes ← get_or "attributes" (dict no_members) spec
  ok (record {
    resource_name = resource_name;
    category = category;
    provider_type = provider_type;
    uri = uri;
    name = name;
    attributes = attributes;
  })

unfoldable pub subresource_spec : Value → Outcome SubResourceSpec
unfolding item_of get_or
subresource_spec spec = do
  key ← item_of "key" spec
  typ ← item_of "type" spec
  parent ← get_or "parent" (dict no_members) spec
  ok (record { key = key; typ = typ; parent = parent })

unfoldable pub partial_spec : Value → Outcome PartialSpec
unfolding item_of
partial_spec spec = do
  uri ← item_of "uri" spec
  attributes ← item_of "attributes" spec
  ok (record { uri = uri; attributes = attributes })

abbrev pub UriFn : Type 0
UriFn = Dict Value → Outcome Uri

-- functools.partial(fn, **kwargs)
unfoldable pub partial : Dict Value → UriFn → UriFn
unfolding merge
partial kwargs fn = λ more. fn (merge kwargs more)

-- f(**d, **e): a keyword that is given twice is a `TypeError`.
unfoldable pub keywords : Dict Value → Dict Value → Outcome (Dict Value)
unfolding has put
keywords d [] = ok d
keywords d ((key, v) ∷ e) =
    let rest = keywords (put key v d) e in if has key d then raise type_error else rest

-- The concatenation of what the body yields for each element.
unfoldable pub for_each {ℓ κ} :
    {A : Type ℓ} {B : Type κ} → List A → (A → Outcome (List B)) → Outcome (List B)
for_each [] body = ok []
for_each (x ∷ xs) body = do ys ← body x; rest ← for_each xs body; ok (ys ++ rest)

-- The text of a column that may be NULL: the database takes nothing else.
unfoldable pub column_text : Value → Outcome (Option String)
column_text null = ok none
column_text (str s) = ok (some s)
column_text v = raise type_error

-- The keyword arguments of the parent, as the document that `parent_path` searches.
unfoldable pub args_value : Option (Dict Value) → Value
unfolding to_fields
args_value none = null
args_value (some kwargs) = dict (to_fields kwargs)

unfoldable pub parent_kwargs : Option (Dict Value) → Dict Value
parent_kwargs none = []
parent_kwargs (some kwargs) = kwargs

module _ (search : Value → Value → Outcome Value) where
  -- {key: _find_path(path, raw) for key, path in paths.items()}
  unfoldable pub found_paths : Dict Value → Value → Outcome (Dict Value)
  unfolding find_path
  found_paths [] raw = ok []
  found_paths ((key, path) ∷ paths) raw = do
    v ← find_path search path raw false
    rest ← found_paths paths raw
    ok ((key, v) ∷ rest)

  unfoldable pub uri_args : Value → Value → Outcome (Dict Value)
  unfolding members found_paths
  uri_args uri raw = do paths ← members uri; found_paths paths raw

  -- {k: self.value_from_spec(v, parent, parent=parent_args) for k, v in specs.items()}
  unfoldable pub evaluated :
      Dict MapperFn → Dict Value → (raw parent : Value) → Outcome (Dict Value)
  unfolding value_from_spec
  evaluated fns [] raw parent = ok []
  evaluated fns ((key, spec) ∷ specs) raw parent = do
    v ← value_from_spec search fns spec raw parent null
    rest ← evaluated fns specs raw parent
    ok ((key, v) ∷ rest)
