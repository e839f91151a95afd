-- ===== src/Store/Filters.antt =====
-- Filters and tests of the rows of a table, one after another.
use introspector.Prelude.{
  sym, ap, All, true, ℕ, ◌≡◌, refl, inl, inr, Bool, not, ◌&&◌, ◌||◌, List, [], ◌∷◌, ◌++◌, map, ◌==◌,
  arith, filter, any,
}
use introspector.Store.Tables.{delete_rows}
use mathlib.Core.Path.{subst}
use introspector.Store.Removal.{Within}
use introspector.Store.Rows.{Resource, ResourceRaw}

module _ {ℓ} {A : Type ℓ} where
  pub filter-filter :
      (p q : A → Bool) (xs : List A) → filter p (filter q xs) ≡ filter (λ x. q x && p x) xs
  filter-filter p q [] = refl
  filter-filter p q (x ∷ xs) = ground (arith, filter-filter p q xs)

  pub filter-cong :
      (p q : A → Bool) (xs : List A) → ((x : A) → p x ≡ q x) → filter p xs ≡ filter q xs
  filter-cong p q [] h = refl
  filter-cong p q (x ∷ xs) h = ground (arith, h x, filter-cong p q xs h)

  pub any-filter : (p q : A → Bool) (xs : List A) → any p (filter q xs) ≡ any (λ x. q x && p x) xs
  any-filter p q [] = refl
  any-filter p q (x ∷ xs) = ground (arith, any-filter p q xs)

  pub any-append : (p : A → Bool) (xs ys : List A) → any p (xs ++ ys) ≡ (any p xs || any p ys)
  any-append p [] ys = refl
  any-append p (x ∷ xs) ys = ground (arith, any-append p xs ys)

  pub any-cong : (p q : A → Bool) (xs : List A) → ((x : A) → p x ≡ q x) → any p xs ≡ any q xs
  any-cong p q [] h = refl
  any-cong p q (x ∷ xs) h = ground (arith, h x, any-cong p q xs h)

  pub filter-true : (xs : List A) → filter (λ x. true) xs ≡ xs
  filter-true [] = refl
  filter-true (x ∷ xs) = ap (◌∷◌ x) (filter-true xs)

  pub any-and : (p : A → Bool) (b : Bool) (xs : List A) → any (λ x. p x && b) xs ≡ (any p xs && b)
  any-and p b [] = refl
  any-and p b (x ∷ xs) = ground (arith, any-and p b xs)

  pub delete_rows_lem :
      (id : A → ℕ) (i : ℕ) (xs : List A) → delete_rows id i xs ≡ filter (λ x. not (id x == i)) xs
  unfolding delete_rows
  delete_rows_lem id i [] = refl
  delete_rows_lem id i (x ∷ xs) = ground (arith, delete_rows_lem id i xs)

pub not-or : (a b : Bool) → (not a && not b) ≡ not (a || b)
not-or a b = ground arith

pub and_swap : (a b c : Bool) → ((a && b) && c) ≡ ((b && a) && c)
and_swap a b c = ground arith

pub Within-All :
    (P : ResourceRaw → Type 0) (y : ResourceRaw) (xs : List ResourceRaw)
    → Within y xs
    → All P xs
    → P y
Within-All P y [] h f = absurd h
Within-All P y (x ∷ xs) (inl here) (p, ps) = subst P (sym here) p
Within-All P y (x ∷ xs) (inr later) (p, ps) = Within-All P y xs later ps

pub filter-Within-cong :
    (p q : ResourceRaw → Bool) (xs : List ResourceRaw)
    → ((x : ResourceRaw) → Within x xs → p x ≡ q x)
    → filter p xs ≡ filter q xs
filter-Within-cong p q [] h = refl
filter-Within-cong p q (x ∷ xs) h =
    ground (arith, h x (inl refl), filter-Within-cong p q xs (λ y w. h y (inr w)))

pub any-map :
    (f : Resource × ResourceRaw → Bool) (r : Resource) (ws : List ResourceRaw)
    → any f (map (λ w. (r, w)) ws) ≡ any (λ w. f (r, w)) ws
any-map f r [] = refl
any-map f r (w ∷ ws) = ground (arith, any-map f r ws)
