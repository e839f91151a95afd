-- ===== src/MapperFns.antt =====
-- introspector/aws/mapper_fns.py: the transforms of values that a specification may name. `loads` is
-- Python's `json.loads`. A list of two or more items that holds anything but texts is not sorted: it is
-- a `TypeError` here. A key is lowered as far as it is of ASCII letters.
pub mod Policy
pub mod Sorted
pub mod Cases
use introspector.Prelude.{
  ℕ, ◌+◌, String, ◌<>◌, Bool, true, false, not, ◌&&◌, ◌||◌, Option, none, some, List, [], ◌∷◌, map,
  str_eq, ◌==◌, leb, ltb, if◌then◌else◌, any,
}
use introspector.Prelude.Dict.{Dict, put}
use introspector.Prelude.Like.{codes}
use introspector.Outcome.{Outcome, ok, raise, type_error, ◌>>=◌}
use introspector.Value.{
  Value, str, arr, dict, no_items, item, items, Fields, no_members, member, to_items, entries,
}
use introspector.Uri.{zone_to_region, is_text}

unfoldable pub aws_zone_to_region : Value → Outcome Value
unfolding zone_to_region
aws_zone_to_region zone = zone_to_region zone

-- Python orders texts by their code points.
unfoldable pub codes_leb : List ℕ → List ℕ → Bool
codes_leb [] ds = true
codes_leb (c ∷ cs) [] = false
codes_leb (c ∷ cs) (d ∷ ds) = let rest = codes_leb cs ds in if c == d then rest else ltb c d

unfoldable pub text_leb : String → String → Bool
unfolding codes_leb
text_leb s t = codes_leb (codes s) (codes t)

unfoldable pub insert_text : String → List String → List String
unfolding text_leb
insert_text s [] = s ∷ []
insert_text s (t ∷ ts) =
    let rest = insert_text s ts in if text_leb s t then s ∷ (t ∷ ts) else t ∷ rest

-- sorted(texts)
unfoldable pub sort_texts : List String → List String
unfolding insert_text
sort_texts [] = []
sort_texts (s ∷ ss) = insert_text s (sort_texts ss)

unfoldable pub texts_of : List Value → Option (List String)
texts_of [] = some []
texts_of (str s ∷ vs) = elim (texts_of vs) [ none ↦ none | some ss ↦ some (s ∷ ss) ]
texts_of (v ∷ vs) = none

unfoldable pub sorted_values : List Value → Outcome (List Value)
unfolding texts_of sort_texts
sorted_values [] = ok []
sorted_values (v ∷ []) = ok (v ∷ [])
sorted_values (v ∷ (w ∷ vs)) = elim (texts_of (v ∷ (w ∷ vs))) [
  | none ↦ raise type_error
  | some ss ↦ ok (map str (sort_texts ss))
]

unfoldable pub keys_of : Fields → List Value
keys_of no_members = []
keys_of (member k v fs) = str k ∷ keys_of fs

unfoldable pub arrayize : Value → Outcome (List Value)
unfolding sorted_values items keys_of
arrayize (str s) = ok (str s ∷ [])
arrayize (arr vs) = sorted_values (items vs)
arrayize (dict fs) = sorted_values (keys_of fs)
arrayize v = raise type_error

-- ALL_DIGITS.match(s), after the first `n` digits
unfoldable pub all_digits : ℕ → List ℕ → Bool
all_digits n [] = leb 10 n
all_digits n (c ∷ []) = ((leb b'0' c && leb c b'9') && leb 10 (n + 1)) || ((c == b'\n') && leb 10 n)
all_digits n (c ∷ (d ∷ cs)) = (leb b'0' c && leb c b'9') && all_digits (n + 1) (d ∷ cs)

unfoldable pub normalize_account : String → String
unfolding all_digits
normalize_account s =
    if not (any (λ c. c == b':') (codes s)) && all_digits 0 (codes s)
    then "arn:aws:iam::" <> (s <> ":root")
    else s

-- A principal that is no text is looked through for the text ":", if it can be, and then matched
-- against a pattern, which it cannot be.
unfoldable pub normalize_principal : Value → Outcome Value
unfolding normalize_account is_text items keys_of
normalize_principal (str s) = ok (str (normalize_account s))
normalize_principal (arr vs) =
    if any (is_text ":") (items vs) then ok (arr vs) else raise type_error
normalize_principal (dict fs) =
    if any (is_text ":") (keys_of fs) then ok (dict fs) else raise type_error
normalize_principal v = raise type_error

unfoldable pub map_outcome {ℓ κ} :
    {A : Type ℓ} {B : Type κ} → (A → Outcome B) → List A → Outcome (List B)
map_outcome f [] = ok []
map_outcome f (x ∷ xs) = do y ← f x; ys ← map_outcome f xs; ok (y ∷ ys)

unfoldable pub normalize_values : String → Value → Outcome (List Value)
unfolding arrayize map_outcome normalize_principal
normalize_values key v = do
  values ← arrayize v
  if str_eq key "AWS" then map_outcome normalize_principal values else ok values

unfoldable pub normalize_members : Dict Value → Dict Value → Outcome (Dict Value)
unfolding normalize_values put to_items
normalize_members [] result = ok result
normalize_members ((key, v) ∷ d) result = do
  values ← normalize_values key v
  normalize_members d (put key (arr (to_items values)) result)

unfoldable pub normalize_principal_map : Value → Outcome (Dict Value)
unfolding normalize_members entries is_text
normalize_principal_map (dict fs) = normalize_members (entries fs) []
normalize_principal_map v =
    ok (if is_text "*" v then ("AWS", arr (item (str "*") no_items)) ∷ [] else [])
