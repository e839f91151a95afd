-- ===== src/Store/Removal.antt =====
-- Rows of a table with distinct ids: lookup by id, and removing the rows of a list one by one.
use introspector.Prelude.{
  ◌++◌, ◌<◌, some, true, ℕ, ◌≡◌, ◌≢◌, ◌⊎◌, inl, inr, Bool, not, List, [], ◌∷◌, arith, filter, All,
  Bool-cases, refl,
}
use introspector.Store.Tables.{update_rows, by_id, delete_rows}

module _ {ℓ} {A : Type ℓ} (id : A → ℕ) where
  -- No two rows have one id.
  abbrev pub NodupBy : List A → Type 0
  NodupBy [] = Unit
  NodupBy (r ∷ rs) = All (λ x. id x ≢ id r) rs × NodupBy rs

  unfoldable pub remove_all : List A → List A → List A
  remove_all [] rs = rs
  remove_all (x ∷ xs) rs = remove_all xs (delete_rows id (id x) rs)

  delete_rows_absent : (i : ℕ) (rs : List A) → All (λ x. id x ≢ i) rs → delete_rows id i rs ≡ rs
  unfolding delete_rows
  delete_rows_absent i [] h = refl
  delete_rows_absent i (r ∷ rs) h = ground (arith, delete_rows_absent i rs)

  remove_all_skip :
      (r : A) (xs rs : List A)
      → All (λ x. id x ≢ id r) xs
      → remove_all xs (r ∷ rs) ≡ r ∷ remove_all xs rs
  unfolding remove_all delete_rows
  remove_all_skip r [] rs h = refl
  remove_all_skip r (x ∷ xs) rs (ne, h) =
      ground (arith, remove_all_skip r xs (delete_rows id (id x) rs) h)

  pub All-filter : (P : A → Type 0) (p : A → Bool) (rs : List A) → All P rs → All P (filter p rs)
  All-filter P p [] h = tt
  All-filter P p (r ∷ rs) (pr, h) = elim (Bool-cases (p r)) [
    | inl in' ↦ rw in' (pr, All-filter P p rs h)
    | inr out ↦ rw out (All-filter P p rs h)
  ]

  pub NodupBy-filter : (p : A → Bool) (rs : List A) → NodupBy rs → NodupBy (filter p rs)
  NodupBy-filter p [] nd = tt
  NodupBy-filter p (r ∷ rs) (fresh, nd) = elim (Bool-cases (p r)) [
    | inl in' ↦ rw in' (All-filter (λ x. id x ≢ id r) p rs fresh, NodupBy-filter p rs nd)
    | inr out ↦ rw out (NodupBy-filter p rs nd)
  ]

  -- Removing the rows that a test selects leaves those that it does not.
  pub remove_all-filter :
      (p : A → Bool) (rs : List A)
      → NodupBy rs
      → remove_all (filter p rs) rs ≡ filter (λ r. not (p r)) rs
  unfolding remove_all delete_rows
  remove_all-filter p [] nd = refl
  remove_all-filter p (r ∷ rs) (fresh, nd) = elim (Bool-cases (p r)) [
    | inl out ↦ ground (arith, out, delete_rows_absent (id r) rs, remove_all-filter p rs nd)
    | inr in' ↦ ground (
      arith,
      in',
      remove_all-filter p rs nd,
      remove_all_skip r (filter p rs) rs (All-filter (λ x. id x ≢ id r) p rs fresh),
    )
  ]

  pub by_id-append :
      (n : ℕ) (r : A) (rs : List A)
      → All (λ x. id x < n) rs
      → id r ≡ n
      → by_id id n (rs ++ r ∷ []) ≡ some r
  unfolding by_id
  by_id-append n r [] h same = ground arith
  by_id-append n r (x ∷ rs) (lt, h) same = ground (arith, by_id-append n r rs h same)

  pub by_id-update :
      (f : A → A) (i : ℕ) (r : A) (rs : List A)
      → ((x : A) → id (f x) ≡ id x)
      → by_id id i rs ≡ some r
      → by_id id i (update_rows id i f rs) ≡ some (f r)
  unfolding by_id update_rows
  by_id-update f i r [] same h = cc
  by_id-update f i r (x ∷ rs) same h = ground (arith, by_id-update f i r rs same, same x)

module _ {A : Type 0} where
  -- A row of the list.
  abbrev pub Within : A → List A → Type 0
  Within y [] = ⊥
  Within y (x ∷ xs) = (y ≡ x) ⊎ Within y xs

  pub filter-Within :
      (p : A → Bool) (y : A) (rs : List A) → Within y (filter p rs) → Within y rs × (p y ≡ true)
  filter-Within p y [] h = absurd h
  filter-Within p y (x ∷ rs) h = ground (arith, filter-Within p y rs)

  pub by_id-Within :
      (id : A → ℕ) (y : A) (rs : List A) → NodupBy id rs → Within y rs → by_id id (id y) rs ≡ some y
  unfolding by_id
  by_id-Within id y [] nd h = absurd h
  by_id-Within id y (x ∷ rs) (fresh, nd) (inl same) = rw same (ground arith)
  by_id-Within id y (x ∷ rs) (fresh, nd) (inr later) =
      ground (arith, by_id-Within id y rs nd later, other y rs later fresh)
    where
      other : (y : A) (rs : List A) → Within y rs → All (λ z. id z ≢ id x) rs → id y ≢ id x
      other y [] h f = absurd h
      other y (z ∷ rs) (inl same) (f, _) = rw same f
      other y (z ∷ rs) (inr later) (_, fs) = other y rs later fs
