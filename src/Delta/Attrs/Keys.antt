-- ===== src/Delta/Attrs/Keys.antt =====
-- Rows of `resource_attribute` by scope and key, and what the table operations do to them.
use introspector.Prelude.{
  ℕ, String, ◌≡◌, refl, ◌≢◌, Bool, true, ◌&&◌, Option, none, some, List, [], ◌∷◌, ◌++◌, arith,
  eq_iff, opt_eq_iff, if◌then◌else◌, find, All, Bool-cases, inl, inr,
}
use mathlib.Core.Path.{subst}
use mathlib.Core.Option.{some-injective}
use introspector.Store.Tables.{update_rows, delete_rows}
use introspector.Value.{Value}
use introspector.Store.Rows.{ResourceAttribute}
use introspector.Delta.Attrs.{Scope, in_scope, at_key}

module _ {ℓ} {A : Type ℓ} where
  pub find-true : (p : A → Bool) (xs : List A) (x : A) → find p xs ≡ some x → p x ≡ true
  find-true p [] x h = cc
  find-true p (y ∷ ys) x h = ground (arith, find-true p ys x)

  pub find-append :
      (p : A → Bool) (xs ys : List A)
      → find p (xs ++ ys) ≡ elim (find p xs) [ none ↦ find p ys | some x ↦ some x ]
  find-append p [] ys = refl
  find-append p (x ∷ xs) ys = ground (arith, find-append p xs ys)

pub All-find {ℓ κ} :
    {A : Type ℓ} (P : A → Type κ) (p : A → Bool) (xs : List A) (x : A)
    → find p xs ≡ some x
    → All P xs
    → P x
All-find P p [] x h all = cc
All-find P p (y ∷ ys) x h (py, all) = elim (Bool-cases (p y)) [
  | inl hit ↦ subst P (some-injective y x (rw hit at h)) py
  | inr miss ↦ All-find P p ys x (rw miss at h) all
]

pub at_key_refl : (r : ResourceAttribute) → at_key r.attr_type r.name r ≡ true
unfolding at_key
at_key_refl r = ground (arith, eq_iff r.name r.name, opt_eq_iff r.attr_type r.attr_type)

pub at_key_trans :
    (t t' : Option String) (n n' : String) (e r : ResourceAttribute)
    → at_key t n e ≡ true
    → at_key t n r ≡ true
    → at_key t' n' e ≡ true
    → at_key t' n' r ≡ true
unfolding at_key
at_key_trans t t' n n' e r h i j = ground (
  arith,
  eq_iff e.name n,
  eq_iff r.name n,
  eq_iff e.name n',
  eq_iff r.name n',
  opt_eq_iff e.attr_type t,
  opt_eq_iff r.attr_type t,
  opt_eq_iff e.attr_type t',
  opt_eq_iff r.attr_type t',
)

abbrev pub hits : Scope → Option String → String → ResourceAttribute → Bool
hits s t n r = in_scope s r && at_key t n r

-- The row of a scope at a key, and its value.
unfoldable pub row_at :
    Scope → Option String → String → List ResourceAttribute → Option ResourceAttribute
row_at s t n rows = find (hits s t n) rows

abbrev pub value_of : Option ResourceAttribute → Option Value
value_of none = none
value_of (some r) = some r.value

-- No two rows have one id.
abbrev pub NodupIds : List ResourceAttribute → Type 0
NodupIds [] = Unit
NodupIds (r ∷ rs) = All (λ x. x.id ≢ r.id) rs × NodupIds rs

-- No two rows of the scope have one key.
abbrev pub NodupKeys : Scope → List ResourceAttribute → Type 0
NodupKeys s [] = Unit
NodupKeys s (r ∷ rs) =
    (in_scope s r ≡ true → row_at s r.attr_type r.name rs ≡ none) × NodupKeys s rs

module _ (f : ResourceAttribute → ResourceAttribute) where
  update_rows_absent :
      (i : ℕ) (rs : List ResourceAttribute)
      → All (λ x. x.id ≢ i) rs
      → update_rows (λ r. r.id) i f rs ≡ rs
  unfolding update_rows
  update_rows_absent i [] h = refl
  update_rows_absent i (r ∷ rs) h = ground (arith, update_rows_absent i rs)

  -- A change of one row that keeps its scope and key is seen at that key only.
  pub row_at-update :
      (s : Scope) (t t' : Option String) (n n' : String) (e : ResourceAttribute)
      (rs : List ResourceAttribute)
      → in_scope s (f e) ≡ true
      → ((t : Option String) (n : String) → at_key t n (f e) ≡ at_key t n e)
      → NodupIds rs
      → row_at s t n rs ≡ some e
      → row_at s t' n' (update_rows (λ r. r.id) e.id f rs)
        ≡ (if at_key t' n' e then some (f e) else row_at s t' n' rs)
  unfolding row_at update_rows
  row_at-update s t t' n n' e [] sc ke nd h = cc
  row_at-update s t t' n n' e (r ∷ rs) sc ke (fresh, nd) h = elim (Bool-cases (hits s t n r)) [
    | inl hit ↦ ground (arith, ke t' n', update_rows_absent r.id rs)
    | inr miss ↦
        let found : row_at s t n rs ≡ some e = rw miss at h in
        ground (
          arith,
          row_at-update s t t' n n' e rs sc ke nd found,
          All-find (λ x. x.id ≢ r.id) (hits s t n) rs e found fresh,
          at_key_trans t' t n' n e r,
          find-true (hits s t n) rs e found,
        )
  ]

delete_rows_absent :
    (i : ℕ) (rs : List ResourceAttribute)
    → All (λ x. x.id ≢ i) rs
    → delete_rows (λ r. r.id) i rs ≡ rs
unfolding delete_rows
delete_rows_absent i [] h = refl
delete_rows_absent i (r ∷ rs) h = ground (arith, delete_rows_absent i rs)

-- The row at a key depends on the key's type and name alone.
pub row_at_same :
    (s : Scope) (t t' : Option String) (n n' : String) (e : ResourceAttribute)
    (rs : List ResourceAttribute)
    → at_key t n e ≡ true
    → at_key t' n' e ≡ true
    → row_at s t n rs ≡ row_at s t' n' rs
unfolding row_at
row_at_same s t t' n n' e [] h h' = refl
row_at_same s t t' n n' e (r ∷ rs) h h' = ground (
  arith,
  row_at_same s t t' n n' e rs h h',
  at_key_trans t t' n n' e r,
  at_key_trans t' t n' n e r,
)

-- A deleted row is missed at its key only.
pub row_at-delete :
    (s : Scope) (t t' : Option String) (n n' : String) (e : ResourceAttribute)
    (rs : List ResourceAttribute)
    → NodupIds rs
    → NodupKeys s rs
    → row_at s t n rs ≡ some e
    → row_at s t' n' (delete_rows (λ r. r.id) e.id rs)
      ≡ (if at_key t' n' e then none else row_at s t' n' rs)
unfolding row_at delete_rows
row_at-delete s t t' n n' e [] nd nk h = cc
row_at-delete s t t' n n' e (r ∷ rs) (fresh, nd) (once, nk) h = elim (Bool-cases (hits s t n r)) [
  | inl hit ↦ ground (
    arith,
    delete_rows_absent r.id rs,
    row_at_same s t' r.attr_type n' r.name r rs,
    at_key_refl r,
  )
  | inr miss ↦
      let found : row_at s t n rs ≡ some e = rw miss at h in
      ground (
        arith,
        row_at-delete s t t' n n' e rs nd nk found,
        All-find (λ x. x.id ≢ r.id) (hits s t n) rs e found fresh,
        at_key_trans t' t n' n e r,
        find-true (hits s t n) rs e found,
      )
]

pub row_at-append :
    (s : Scope) (t : Option String) (n : String) (rs : List ResourceAttribute)
    (r : ResourceAttribute)
    → row_at s t n (rs ++ r ∷ [])
      ≡ elim (row_at s t n rs) [ none ↦ (if hits s t n r then some r else none) | some x ↦ some x ]
unfolding row_at
row_at-append s t n [] r = refl
row_at-append s t n (x ∷ rs) r = ground (arith, row_at-append s t n rs r)
