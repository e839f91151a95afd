-- ===== src/Delta/Attrs/WellFormed.antt =====
-- The invariant of `resource_attribute` under which the rows of a scope are told apart by their
-- keys, and its preservation by the three table operations.
use mathlib.Core.Path.{subst}
use introspector.Prelude.{
  ℕ, ◌+◌, ◌<◌, ◌≡◌, refl, sym, ◌≢◌, inl, inr, String, true, Option, none, List, [], ◌∷◌, ◌++◌,
  arith, ◌==◌, Bool-cases, All, All-append, All-map,
}
use introspector.Store.Tables.{Table, insert, update, delete, update_rows, delete_rows}
use introspector.Store.Rows.{ResourceAttribute}
use introspector.Delta.Attrs.{Scope, in_scope, at_key}
use introspector.Delta.Attrs.Keys.{
  row_at, NodupIds, NodupKeys, row_at-append, at_key_refl, at_key_trans,
}

-- Ids are distinct and below the sequence, and the keys of the scope are distinct.
pub record IsWellFormed (s : Scope) (t : Table ResourceAttribute) : Type 0 where
  pub ids : NodupIds t.rows
  pub below : All (λ r. r.id < t.next) t.rows
  pub keys : NodupKeys s t.rows

NodupIds-append :
    (rs : List ResourceAttribute) (r : ResourceAttribute)
    → NodupIds rs
    → All (λ x. x.id < r.id) rs
    → NodupIds (rs ++ r ∷ [])
NodupIds-append [] r nd h = (tt, tt)
NodupIds-append (x ∷ rs) r (fresh, nd) (lt, h) =
    (All-append (λ y. y.id ≢ x.id) rs (r ∷ []) fresh (omega arith, tt), NodupIds-append rs r nd h)

NodupKeys-append :
    (s : Scope) (rs : List ResourceAttribute) (r : ResourceAttribute)
    → NodupKeys s rs
    → (in_scope s r ≡ true → row_at s r.attr_type r.name rs ≡ none)
    → NodupKeys s (rs ++ r ∷ [])
unfolding row_at
NodupKeys-append s [] r nk h = (λ _. refl, tt)
NodupKeys-append s (x ∷ rs) r (once, nk) h = (
  λ sx. ground (
    arith,
    once sx,
    row_at-append s x.attr_type x.name rs r,
    h,
    at_key_refl x,
    at_key_refl r,
    at_key_trans x.attr_type r.attr_type x.name r.name r x,
  ),
  NodupKeys-append s rs r nk (λ sr. ground (arith, h sr)),
)

module _ (s : Scope) (f : ResourceAttribute → ResourceAttribute)
    (same_id : (r : ResourceAttribute) → (f r).id ≡ r.id)
    (same_scope : (r : ResourceAttribute) → in_scope s (f r) ≡ in_scope s r)
    (same_type : (r : ResourceAttribute) → (f r).attr_type ≡ r.attr_type)
    (same_name : (r : ResourceAttribute) → (f r).name ≡ r.name)
    (same_key : (t : Option String) (n : String) (r : ResourceAttribute)
      → at_key t n (f r) ≡ at_key t n r) where
  All-update :
      (P : ℕ → Type 0) (i : ℕ) (rs : List ResourceAttribute)
      → All (λ r. P r.id) rs
      → All (λ r. P r.id) (update_rows (λ r. r.id) i f rs)
  unfolding update_rows
  All-update P i [] h = tt
  All-update P i (r ∷ rs) (p, h) = elim (Bool-cases (r.id == i)) [
    | inl hit ↦ rw hit (subst P (sym (same_id r)) p, All-update P i rs h)
    | inr miss ↦ rw miss (p, All-update P i rs h)
  ]

  NodupIds-update :
      (i : ℕ) (rs : List ResourceAttribute)
      → NodupIds rs
      → NodupIds (update_rows (λ r. r.id) i f rs)
  unfolding update_rows
  NodupIds-update i [] h = tt
  NodupIds-update i (r ∷ rs) (fresh, nd) = elim (Bool-cases (r.id == i)) [
    | inl hit ↦
        rw hit (rw (same_id r) (All-update (λ j. j ≢ r.id) i rs fresh), NodupIds-update i rs nd)
    | inr miss ↦ rw miss (All-update (λ j. j ≢ r.id) i rs fresh, NodupIds-update i rs nd)
  ]

  row_at-update_none :
      (i : ℕ) (t : Option String) (n : String) (rs : List ResourceAttribute)
      → row_at s t n rs ≡ none
      → row_at s t n (update_rows (λ r. r.id) i f rs) ≡ none
  unfolding update_rows row_at
  row_at-update_none i t n [] h = refl
  row_at-update_none i t n (r ∷ rs) h =
      ground (arith, row_at-update_none i t n rs, same_scope r, same_key t n r)

  NodupKeys-update :
      (i : ℕ) (rs : List ResourceAttribute)
      → NodupKeys s rs
      → NodupKeys s (update_rows (λ r. r.id) i f rs)
  unfolding update_rows
  NodupKeys-update i [] h = tt
  NodupKeys-update i (r ∷ rs) (once, nk) = elim (Bool-cases (r.id == i)) [
    | inl hit ↦ rw hit (
      λ sr. ground (
        arith,
        once,
        same_scope r,
        same_type r,
        same_name r,
        row_at-update_none i r.attr_type r.name rs,
      ),
      NodupKeys-update i rs nk,
    )
    | inr miss ↦
        rw miss
          (λ sr. row_at-update_none i r.attr_type r.name rs (once sr), NodupKeys-update i rs nk)
  ]

  pub update-IsWellFormed :
      (i : ℕ) (t : Table ResourceAttribute)
      → IsWellFormed s t
      → IsWellFormed s (update (λ r. r.id) i f t)
  unfolding update
  update-IsWellFormed i t wf = record {
    ids = NodupIds-update i t.rows wf.ids;
    below = All-update (λ j. j < t.next) i t.rows wf.below;
    keys = NodupKeys-update i t.rows wf.keys;
  }

All-delete {ℓ} :
    (P : ResourceAttribute → Type ℓ) (i : ℕ) (rs : List ResourceAttribute)
    → All P rs
    → All P (delete_rows (λ r. r.id) i rs)
unfolding delete_rows
All-delete P i [] h = tt
All-delete P i (r ∷ rs) (p, h) = elim (Bool-cases (r.id == i)) [
  | inl hit ↦ rw hit (All-delete P i rs h)
  | inr miss ↦ rw miss (p, All-delete P i rs h)
]

NodupIds-delete :
    (i : ℕ) (rs : List ResourceAttribute) → NodupIds rs → NodupIds (delete_rows (λ r. r.id) i rs)
unfolding delete_rows
NodupIds-delete i [] h = tt
NodupIds-delete i (r ∷ rs) (fresh, nd) = elim (Bool-cases (r.id == i)) [
  | inl hit ↦ rw hit (NodupIds-delete i rs nd)
  | inr miss ↦ rw miss (All-delete (λ x. x.id ≢ r.id) i rs fresh, NodupIds-delete i rs nd)
]

row_at-delete_none :
    (s : Scope) (i : ℕ) (t : Option String) (n : String) (rs : List ResourceAttribute)
    → row_at s t n rs ≡ none
    → row_at s t n (delete_rows (λ r. r.id) i rs) ≡ none
unfolding delete_rows row_at
row_at-delete_none s i t n [] h = refl
row_at-delete_none s i t n (r ∷ rs) h = ground (arith, row_at-delete_none s i t n rs)

NodupKeys-delete :
    (s : Scope) (i : ℕ) (rs : List ResourceAttribute)
    → NodupKeys s rs
    → NodupKeys s (delete_rows (λ r. r.id) i rs)
unfolding delete_rows
NodupKeys-delete s i [] h = tt
NodupKeys-delete s i (r ∷ rs) (once, nk) = elim (Bool-cases (r.id == i)) [
  | inl hit ↦ rw hit (NodupKeys-delete s i rs nk)
  | inr miss ↦
      rw miss
        (λ sr. row_at-delete_none s i r.attr_type r.name rs (once sr), NodupKeys-delete s i rs nk)
]

pub delete-IsWellFormed :
    (s : Scope) (i : ℕ) (t : Table ResourceAttribute)
    → IsWellFormed s t
    → IsWellFormed s (delete (λ r. r.id) i t)
unfolding delete
delete-IsWellFormed s i t wf = record {
  ids = NodupIds-delete i t.rows wf.ids;
  below = All-delete (λ r. r.id < t.next) i t.rows wf.below;
  keys = NodupKeys-delete s i t.rows wf.keys;
}

pub insert-IsWellFormed :
    (s : Scope) (make : ℕ → ResourceAttribute) (t : Table ResourceAttribute)
    → ((i : ℕ) → (make i).id ≡ i)
    → (in_scope s (make t.next) ≡ true
        → row_at s (make t.next).attr_type (make t.next).name t.rows ≡ none)
    → IsWellFormed s t
    → IsWellFormed s (insert make t)
unfolding insert
insert-IsWellFormed s make t made new wf = record {
  ids =
      NodupIds-append t.rows (make t.next) wf.ids
        (subst (λ i. All (λ r. r.id < i) t.rows) (sym (made t.next)) wf.below);
  below =
      All-append (λ r. r.id < t.next + 1) t.rows (make t.next ∷ [])
        (All-map (λ r. r.id < t.next) (λ r. r.id < t.next + 1) t.rows (λ r h. omega arith) wf.below)
        (omega (arith, made t.next), tt);
  keys = NodupKeys-append s t.rows (make t.next) wf.keys new;
}
