-- ===== src/Delta/Deletes/Removal.antt =====
-- introspector/delta/resource.py: the relations that are left when those of a resource are removed.
use introspector.Prelude.{
  arith, ◌⊎◌, false, All-map, ℕ, ◌≡◌, refl, inl, inr, Bool, true, ◌||◌, List, [], ◌∷◌, ◌==◌, filter,
  any, All, Bool-cases,
}
use introspector.Store.Removal.{remove_all}
use introspector.Store.Tables.{delete_rows}
use introspector.Store.Rows.{Resource, ResourceRelation}

-- A resource has the id.
abbrev pub stored : List Resource → ℕ → Bool
stored rs i = any (λ r. r.id == i) rs

-- Both ends of a relation are stored.
abbrev pub HasEnds : List Resource → ResourceRelation → Type 0
HasEnds rs x = (stored rs x.resource_id ≡ true) × (stored rs x.target_id ≡ true)

abbrev pub touches : Resource → ResourceRelation → Bool
touches r x = (x.target_id == r.id) || (x.resource_id == r.id)

-- What holds of every relation that is not among the removed ones, holds of what is left.
module _ (Q : ResourceRelation → Type 0) where
  abbrev pub Spared : List ResourceRelation → ResourceRelation → Type 0
  Spared ys x = Q x ⊎ (any (λ y. x.id == y.id) ys ≡ true)

  spare :
      (y : ResourceRelation) (ys : List ResourceRelation) (x : ResourceRelation)
      → (x.id == y.id) ≡ false
      → Spared (y ∷ ys) x
      → Spared ys x
  spare y ys x kept (inl q) = inl q
  spare y ys x kept (inr f) = inr (rw kept at f)

  Spared-delete :
      (y : ResourceRelation) (ys xs : List ResourceRelation)
      → All (Spared (y ∷ ys)) xs
      → All (Spared ys) (delete_rows (λ x. x.id) y.id xs)
  unfolding delete_rows
  Spared-delete y ys [] h = tt
  Spared-delete y ys (x ∷ xs) (first, h) = elim (Bool-cases (x.id == y.id)) [
    | inl gone ↦ rw gone (Spared-delete y ys xs h)
    | inr kept ↦ rw kept (spare y ys x kept first, Spared-delete y ys xs h)
  ]

  pub remove_relations-All :
      (ys xs : List ResourceRelation) → All (Spared ys) xs → All Q (remove_all (λ x. x.id) ys xs)
  unfolding remove_all
  remove_relations-All [] xs h =
      All-map (Spared []) Q xs (λ x s. elim s [ inl q ↦ q | inr f ↦ cc ]) h
  remove_relations-All (y ∷ ys) xs h = remove_relations-All ys _ (Spared-delete y ys xs h)

pub Spared-filter :
    (r : Resource) (rs : List Resource) (xs zs : List ResourceRelation)
    → All (HasEnds rs) xs
    → ((x : ResourceRelation)
        → any (λ y. x.id == y.id) (filter (touches r) xs) ≡ true
        → any (λ y. x.id == y.id) (filter (touches r) zs) ≡ true)
    → All (Spared (λ x. (touches r x ≡ false) × HasEnds rs x) (filter (touches r) zs)) xs
Spared-filter r rs [] zs h sub = tt
Spared-filter r rs (x ∷ xs) zs (ends, h) sub = elim (Bool-cases (touches r x)) [
  | inl gone ↦ (
    inr (sub x (rw gone (ground arith))),
    Spared-filter r rs xs zs h (λ y f. sub y (rw gone (ground (arith, f)))),
  )
  | inr kept ↦ (inl (kept, ends), Spared-filter r rs xs zs h (λ y f. sub y (rw kept f)))
]

stored-delete :
    (i j : ℕ) (rs : List Resource)
    → (i == j) ≡ false
    → stored (delete_rows (λ r. r.id) j rs) i ≡ stored rs i
unfolding delete_rows
stored-delete i j [] h = refl
stored-delete i j (r ∷ rs) h = ground (arith, stored-delete i j rs h)

pub HasEnds-delete :
    (r : Resource) (rs : List Resource) (xs : List ResourceRelation)
    → All (λ x. (touches r x ≡ false) × HasEnds rs x) xs
    → All (HasEnds (delete_rows (λ y. y.id) r.id rs)) xs
HasEnds-delete r rs [] h = tt
HasEnds-delete r rs (x ∷ xs) ((apart, (from, to)), h) = (
  (
    ground (arith, stored-delete x.resource_id r.id rs, from, apart),
    ground (arith, stored-delete x.target_id r.id rs, to, apart),
  ),
  HasEnds-delete r rs xs h,
)
