-- ===== src/Mapper/Depth.antt =====
-- introspector/mapper.py: the subresources of an element are nested less deeply than the response.
use introspector.Outcome.{raise, ok-eq, raise_ok, Outcome, ok, ◌>>=◌, >>=-ext}
use introspector.Value.{
  null, bool, num, str, Value, arr, dict, Items, no_items, item, items, Fields, no_members, member,
  entries,
}
use introspector.Prelude.{
  sym, ◌<◌, Option-cases, ℕ, ◌+◌, ◌≤◌, ◌≡◌, refl, ◌∙◌, inl, inr, String, some, List, [], ◌∷◌, ◌++◌,
  leb, if◌then◌else◌, str_eq, arith, Bool-cases, ap,
}
use introspector.Mapper.Eval.{iterate, letters}
use introspector.MapperFns.{keys_of}
use introspector.Mapper.Specs.{get_list, list_in, for_each}
use mathlib.Core.Path.{subst}
use mathlib.Core.Option.{some-injective}
use introspector.Prelude.Dict.{get}
use introspector.Store.Removal.{Within}

abbrev max : ℕ → ℕ → ℕ
max a b = if leb a b then b else a

unfoldable mutual
  -- How deeply lists and objects are nested.
  pub depth : Value → ℕ
  depth (arr vs) = 1 + depth_items vs
  depth (dict fs) = 1 + depth_members fs
  depth v = 0

  pub depth_items : Items → ℕ
  depth_items no_items = 0
  depth_items (item v vs) = max (depth v) (depth_items vs)

  pub depth_members : Fields → ℕ
  depth_members no_members = 0
  depth_members (member k v fs) = max (depth v) (depth_members fs)

max_left : (a b : ℕ) → a ≤ max a b
max_left a b = ground arith

max_right : (a b : ℕ) → b ≤ max a b
max_right a b = ground arith

items-depth : (v : Value) (vs : Items) → Within v (items vs) → depth v ≤ depth_items vs
unfolding depth items
items-depth v no_items h = absurd h
items-depth v (item w vs) (inl here) =
    omega (arith, ap depth here, max_left (depth w) (depth_items vs))
items-depth v (item w vs) (inr later) =
    omega (arith, items-depth v vs later, max_right (depth w) (depth_items vs))

get-depth :
    (key : String) (v : Value) (fs : Fields)
    → get key (entries fs) ≡ some v
    → depth v ≤ depth_members fs
unfolding depth get entries
get-depth key v no_members h = cc
get-depth key v (member k w fs) h = elim (Bool-cases (str_eq k key)) [
  | inl here ↦
      omega
        (arith, ap depth (some-injective w v (rw here at h)), max_left (depth w) (depth_members fs))
  | inr later ↦
      omega (arith, get-depth key v fs (rw later at h), max_right (depth w) (depth_members fs))
]

pub for_each-cong {ℓ} :
    {B : Type ℓ} (xs : List Value) (f g : Value → Outcome (List B))
    → ((x : Value) → Within x xs → f x ≡ g x)
    → for_each xs f ≡ for_each xs g
unfolding for_each
for_each-cong [] f g h = refl
for_each-cong (x ∷ xs) f g h =
    ap (λ m. m >>= λ ys. for_each xs f >>= λ rest. ok (ys ++ rest)) (h x (inl refl))
    ∙ >>=-ext (g x) _ _
        (λ ys. ap (λ m. m >>= λ rest. ok (ys ++ rest)) (for_each-cong xs f g (λ y w. h y (inr w))))

list_in-depth :
    (key subs : Value) (fs : Fields) → list_in key fs ≡ ok subs → depth subs ≤ depth (dict fs)
unfolding list_in depth
list_in-depth (str key) subs fs h = elim (Option-cases (get key (entries fs))) [
  | inl absent ↦ omega (arith, ap depth (ok-eq (arr no_items) subs (rw absent at h)))
  | inr (v, there) ↦
      omega (arith, get-depth key v fs there, ap depth (ok-eq v subs (rw there at h)))
]
list_in-depth (arr vs) subs fs h = absurd (raise_ok h)
list_in-depth (dict ks) subs fs h = absurd (raise_ok h)
list_in-depth null subs fs h = omega (arith, ap depth (ok-eq (arr no_items) subs h))
list_in-depth (bool b) subs fs h = omega (arith, ap depth (ok-eq (arr no_items) subs h))
list_in-depth (num n) subs fs h = omega (arith, ap depth (ok-eq (arr no_items) subs h))

get_list-depth : (key v subs : Value) → get_list key v ≡ ok subs → depth subs ≤ depth v
unfolding get_list
get_list-depth key (dict fs) subs h = list_in-depth key subs fs h
get_list-depth key (arr vs) subs h = absurd (raise_ok h)
get_list-depth key (str s) subs h = absurd (raise_ok h)
get_list-depth key null subs h = absurd (raise_ok h)
get_list-depth key (bool b) subs h = absurd (raise_ok h)
get_list-depth key (num n) subs h = absurd (raise_ok h)

keys_of-text : (v : Value) (fs : Fields) → Within v (keys_of fs) → (s : String) × (v ≡ str s)
unfolding keys_of
keys_of-text v no_members h = absurd h
keys_of-text v (member k w fs) (inl here) = (k, here)
keys_of-text v (member k w fs) (inr later) = keys_of-text v fs later

letters-text : (v : Value) (s : String) → Within v (letters s) → (t : String) × (v ≡ str t)
unfolding letters
letters-text v String.[] h = absurd h
letters-text v (String.◌∷◌ c s) (inl here) = (String.◌∷◌ c String.[], here)
letters-text v (String.◌∷◌ c s) (inr later) = letters-text v s later

text_list : (key v subs : Value) (s : String) → v ≡ str s → get_list key v ≡ ok subs → ⊥
unfolding get_list
text_list key v subs s same h = raise_ok (subst (λ x. get_list key x ≡ ok subs) same h)

-- The subresources of an element that a loop over the response meets.
pub sub_depth :
    (raw_list : Value) (raws : List Value) (parent key subs : Value)
    → iterate raw_list ≡ ok raws
    → Within parent raws
    → get_list key parent ≡ ok subs
    → depth subs < depth raw_list
unfolding iterate
sub_depth (arr vs) raws parent key subs h w k =
    let inside = subst (Within parent) (sym (ok-eq _ _ h)) w in
    unfold depth in omega (arith, get_list-depth key parent subs k, items-depth parent vs inside)
sub_depth (dict fs) raws parent key subs h w k =
    let (s, same) = keys_of-text parent fs (subst (Within parent) (sym (ok-eq _ _ h)) w) in
    absurd (text_list key parent subs s same k)
sub_depth (str t) raws parent key subs h w k =
    let (s, same) = letters-text parent t (subst (Within parent) (sym (ok-eq _ _ h)) w) in
    absurd (text_list key parent subs s same k)
sub_depth null raws parent key subs h w k = absurd (raise_ok h)
sub_depth (bool b) raws parent key subs h w k = absurd (raise_ok h)
sub_depth (num n) raws parent key subs h w k = absurd (raise_ok h)

-- What comes after a call need only be the same for the value that the call returns.
pub >>=-cong {ℓ κ} :
    {A : Type ℓ} {B : Type κ} (m : Outcome A) (f g : A → Outcome B)
    → ((a : A) → m ≡ ok a → f a ≡ g a)
    → (m >>= f) ≡ (m >>= g)
>>=-cong (raise e) f g h = refl
>>=-cong (ok a) f g h = h a refl
