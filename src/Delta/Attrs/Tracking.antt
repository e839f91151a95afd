-- ===== src/Delta/Attrs/Tracking.antt =====
-- introspector/delta/attrs.py: the set `existing_attributes` of the loop over the new attributes
-- agrees with the table at every key that is still to come.
use introspector.Prelude.{
  ◌≡◌, ◌≢◌, refl, sym, ◌∙◌, ap, inl, inr, String, Bool, true, false, ◌&&◌, Option, none, some, List,
  [], ◌∷◌, ◌++◌, arith, eq_iff, opt_eq_iff, str_eq, opt_eq, if◌then◌else◌, ◌==◌, find, filter, All,
  All-map, Bool-cases,
}
use introspector.Store.Tables.{Table, insert}
use introspector.Store.Rows.{ResourceAttribute}
use introspector.Delta.Attrs.{
  MappedAttribute, Scope, at_key, find_existing_attr, forget, attribute_row,
}
use introspector.Delta.Attrs.Keys.{
  hits, row_at, find-true, row_at-append, row_at_same, at_key_refl, All-find, NodupIds,
}
use introspector.Delta.Attrs.WellFormed.{IsWellFormed, insert-IsWellFormed}

module _ {ℓ} {A : Type ℓ} (p q : A → Bool) where
  find-filter :
      (xs : List A) → All (λ x. p x ≡ true → q x ≡ true) xs → find p (filter q xs) ≡ find p xs
  find-filter [] h = refl
  find-filter (x ∷ xs) (hx, h) = ground (arith, hx, find-filter xs h)

  find-filter-none :
      (xs : List A) → All (λ x. p x ≡ true → q x ≡ false) xs → find p (filter q xs) ≡ none
  find-filter-none [] h = refl
  find-filter-none (x ∷ xs) (hx, h) = ground (arith, hx, find-filter-none xs h)

module _ {ℓ κ} {A : Type ℓ} (P : A → Type κ) (q : A → Bool) where
  All-filter : (xs : List A) → All P xs → All P (filter q xs)
  All-filter [] h = tt
  All-filter (x ∷ xs) (px, h) = elim (Bool-cases (q x)) [
    | inl in' ↦ rw in' (px, All-filter xs h)
    | inr out ↦ rw out (All-filter xs h)
  ]

-- Two rows found in one table are one row if they have one id.
same_row :
    (p q : ResourceAttribute → Bool) (rs : List ResourceAttribute) (x y : ResourceAttribute)
    → NodupIds rs
    → find p rs ≡ some x
    → find q rs ≡ some y
    → x.id ≡ y.id
    → x ≡ y
same_row p q [] x y nd hx hy e = cc
same_row p q (r ∷ rs) x y (fresh, nd) hx hy e = ground (
  arith,
  same_row p q rs x y nd,
  All-find (λ z. z.id ≢ r.id) p rs x,
  All-find (λ z. z.id ≢ r.id) q rs y,
  fresh,
)

-- Two mapped attributes have one key.
abbrev pub SameKey : MappedAttribute → MappedAttribute → Type 0
SameKey a b = (a.attr_type ≡ b.attr_type) × (a.name ≡ b.name)

-- The mapper found no key twice.
abbrev pub NodupAttrs : List MappedAttribute → Type 0
NodupAttrs [] = Unit
NodupAttrs (a ∷ attrs) = All (λ b. ¬ SameKey a b) attrs × NodupAttrs attrs

abbrev pub mapped_at : Option String → String → MappedAttribute → Bool
mapped_at t n a = str_eq a.name n && opt_eq a.attr_type t

-- What the mapper found at a key.
unfoldable pub find_mapped : Option String → String → List MappedAttribute → Option MappedAttribute
find_mapped t n attrs = find (mapped_at t n) attrs

at_key_other :
    (a b : MappedAttribute) (e : ResourceAttribute)
    → ¬ SameKey a b
    → at_key a.attr_type a.name e ≡ true
    → at_key b.attr_type b.name e ≡ false
unfolding at_key
at_key_other a b e other h = ground (
  arith,
  other,
  eq_iff e.name a.name,
  eq_iff e.name b.name,
  opt_eq_iff e.attr_type a.attr_type,
  opt_eq_iff e.attr_type b.attr_type,
)

abbrev pub DistinctKeys : List ResourceAttribute → Type 0
DistinctKeys [] = Unit
DistinctKeys (e ∷ es) = All (λ x. at_key x.attr_type x.name e ≡ false) es × DistinctKeys es

-- The rows that are still eligible for matching, and what the table holds at the keys to come.
pub record IsTracked (s : Scope) (attrs : List MappedAttribute) (es : List ResourceAttribute)
    (t : Table ResourceAttribute) : Type 0 where
  pub wf : IsWellFormed s t
  pub live : All (λ e. row_at s e.attr_type e.name t.rows ≡ some e) es
  pub distinct : DistinctKeys es
  pub cover : All (λ a. find_existing_attr es a ≡ row_at s a.attr_type a.name t.rows) attrs

module _ (s : Scope) (a : MappedAttribute) (attrs : List MappedAttribute)
    (es : List ResourceAttribute) (t : Table ResourceAttribute) where
  pub miss-IsTracked :
      IsTracked s (a ∷ attrs) es t
      → NodupAttrs (a ∷ attrs)
      → find_existing_attr es a ≡ none
      → IsTracked s attrs es (insert (attribute_row s a) t)
  unfolding insert attribute_row
  miss-IsTracked tr (fresh, nd) miss = record {
    wf = insert-IsWellFormed s (attribute_row s a) t (λ i. refl) (λ _. sym tr.cover.0 ∙ miss) tr.wf;
    live =
        All-map _ _ es
          (λ e live.
            ground (arith, row_at-append s e.attr_type e.name t.rows (attribute_row s a t.next)))
          tr.live;
    distinct = tr.distinct;
    cover = all_cover attrs tr.cover.1 fresh;
  }
    where
      row : ResourceAttribute
      row = attribute_row s a t.next

      all_cover :
          (bs : List MappedAttribute)
          → All (λ b. find_existing_attr es b ≡ row_at s b.attr_type b.name t.rows) bs
          → All (λ b. ¬ SameKey a b) bs
          → All (λ b. find_existing_attr es b ≡ row_at s b.attr_type b.name (t.rows ++ row ∷ [])) bs
      all_cover [] h k = tt
      all_cover (b ∷ bs) (h, hs) (k, ks) = (
        ground (
          arith,
          row_at-append s b.attr_type b.name t.rows row,
          at_key_other a b row k,
          at_key_refl row,
        ),
        all_cover bs hs ks,
      )

-- The rows that stay eligible after `e` has been matched, in a table that differs at its key only.
module _ (s : Scope) (a : MappedAttribute) (attrs : List MappedAttribute)
    (es : List ResourceAttribute) (t u : Table ResourceAttribute) (e e' : ResourceAttribute)
    (tr : IsTracked s (a ∷ attrs) es t) (hit : find_existing_attr es a ≡ some e)
    (wf : IsWellFormed s u)
    (after : (k : Option String) (n : String)
      → row_at s k n u.rows ≡ (if at_key k n e then some e' else row_at s k n t.rows)) where
  pub e_at : row_at s a.attr_type a.name t.rows ≡ some e
  e_at = sym tr.cover.0 ∙ hit

  pub e_key : at_key a.attr_type a.name e ≡ true
  unfolding find_existing_attr
  e_key = find-true (at_key a.attr_type a.name) es e hit

  -- A live row at a key of `e` is `e`.
  live_same :
      (k : Option String) (n : String) (x : ResourceAttribute)
      → row_at s x.attr_type x.name t.rows ≡ some x
      → at_key k n x ≡ true
      → at_key k n e ≡ true
      → x.id ≡ e.id
  live_same k n x lx hx he = ground (
    arith,
    row_at_same s k x.attr_type n x.name x t.rows hx,
    at_key_refl x,
    row_at_same s k a.attr_type n a.name e t.rows he,
    e_key,
    e_at,
  )

  same_id_key :
      (k : Option String) (n : String) (x : ResourceAttribute)
      → row_at s x.attr_type x.name t.rows ≡ some x
      → x.id ≡ e.id
      → at_key k n x ≡ at_key k n e
  unfolding row_at
  same_id_key k n x lx h = ap (at_key k n) (
      same_row (hits s x.attr_type x.name) (hits s a.attr_type a.name) t.rows x e tr.wf.ids lx e_at
        h)

  -- At another key, nothing has changed among the eligible rows.
  pub forget_other :
      (k : Option String) (n : String)
      → at_key k n e ≡ false
      → find (at_key k n) (forget e es) ≡ find (at_key k n) es
  unfolding forget
  forget_other k n other =
      find-filter (at_key k n) _ es
        (All-map _ _ es (λ x lx hx. ground (arith, same_id_key k n x lx, other)) tr.live)

  -- At the key of `e`, no eligible row is left.
  pub forget_same :
      (k : Option String) (n : String)
      → at_key k n e ≡ true
      → find (at_key k n) (forget e es) ≡ none
  unfolding forget
  forget_same k n same =
      find-filter-none (at_key k n) _ es
        (All-map _ _ es (λ x lx hx. ground (arith, live_same k n x lx hx same)) tr.live)

  live_after :
      (xs : List ResourceAttribute)
      → All (λ x. row_at s x.attr_type x.name t.rows ≡ some x) xs
      → All (λ x. row_at s x.attr_type x.name u.rows ≡ some x) (forget e xs)
  unfolding forget
  live_after [] h = tt
  live_after (x ∷ xs) (lx, h) = elim (Bool-cases (x.id == e.id)) [
    | inl same ↦ rw same (live_after xs h)
    | inr other ↦ rw other (
      ground (
        arith,
        after x.attr_type x.name,
        lx,
        live_same x.attr_type x.name x lx,
        at_key_refl x,
        other,
      ),
      live_after xs h,
    )
  ]

  distinct_after : (xs : List ResourceAttribute) → DistinctKeys xs → DistinctKeys (forget e xs)
  unfolding forget
  distinct_after [] h = tt
  distinct_after (x ∷ xs) (fresh, h) = elim (Bool-cases (x.id == e.id)) [
    | inl same ↦ rw same (distinct_after xs h)
    | inr other ↦ rw other (All-filter _ _ xs fresh, distinct_after xs h)
  ]

  cover_after :
      (bs : List MappedAttribute)
      → All (λ b. find_existing_attr es b ≡ row_at s b.attr_type b.name t.rows) bs
      → All (λ b. ¬ SameKey a b) bs
      → All (λ b. find_existing_attr (forget e es) b ≡ row_at s b.attr_type b.name u.rows) bs
  unfolding find_existing_attr
  cover_after [] h k = tt
  cover_after (b ∷ bs) (h, hs) (k, ks) =
      let other = at_key_other a b e k e_key in
      (
        ground (arith, other, forget_other b.attr_type b.name other, after b.attr_type b.name, h),
        cover_after bs hs ks,
      )

  pub hit-IsTracked : NodupAttrs (a ∷ attrs) → IsTracked s attrs (forget e es) u
  hit-IsTracked (fresh, nd) = record {
    wf = wf;
    live = live_after es tr.live;
    distinct = distinct_after es tr.distinct;
    cover = cover_after attrs tr.cover.1 fresh;
  }
