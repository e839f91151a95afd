-- ===== src/MapperFns/Sorted.antt =====
-- introspector/aws/mapper_fns.py: the order of the items of a policy does not matter.
use introspector.Outcome.{ok}
use introspector.Prelude.{
  some, map, String, All-map, inl, inr, sym, ◌∙◌, Bool-cases, ap, All, ℕ, ◌≡◌, refl, true, ◌||◌,
  List, [], ◌∷◌, arith,
}
use introspector.Prelude.Like.{codes}
use introspector.MapperFns.{
  insert_text, sort_texts, text_leb, texts_of, sorted_values, arrayize, codes_leb,
}
use introspector.Value.{str, arr, to_items, items-to_items}
use mathlib.Core.List.{Permᴰ}
use text.Mathlib.TextEquality.{Char-path}

codes_leb_trans :
    (a b c : List ℕ) → codes_leb a b ≡ true → codes_leb b c ≡ true → codes_leb a c ≡ true
unfolding codes_leb
codes_leb_trans [] b c h k = refl
codes_leb_trans (x ∷ a) [] c h k = ground (arith, h)
codes_leb_trans (x ∷ a) (y ∷ b) [] h k = ground (arith, k)
codes_leb_trans (x ∷ a) (y ∷ b) (z ∷ c) h k = ground (arith, codes_leb_trans a b c, h, k)

codes_leb_total : (a b : List ℕ) → (codes_leb a b || codes_leb b a) ≡ true
unfolding codes_leb
codes_leb_total [] b = refl
codes_leb_total (x ∷ a) [] = refl
codes_leb_total (x ∷ a) (y ∷ b) = ground (arith, codes_leb_total a b)

codes_leb_antisym : (a b : List ℕ) → codes_leb a b ≡ true → codes_leb b a ≡ true → a ≡ b
unfolding codes_leb
codes_leb_antisym [] [] h k = refl
codes_leb_antisym [] (y ∷ b) h k = ground (arith, k)
codes_leb_antisym (x ∷ a) [] h k = ground (arith, h)
codes_leb_antisym (x ∷ a) (y ∷ b) h k = ground (arith, codes_leb_antisym a b, h, k)

codes-injective : (s t : String) → codes s ≡ codes t → s ≡ t
codes-injective String.[] String.[] h = refl
codes-injective String.[] (String.◌∷◌ d t) h = ground (arith, h)
codes-injective (String.◌∷◌ c s) String.[] h = ground (arith, h)
codes-injective (String.◌∷◌ c s) (String.◌∷◌ d t) h = λ i.
    String.◌∷◌ (Char-path c d (ground (arith, h)) i) (codes-injective s t (ground (arith, h)) i)

text_leb_trans : (s t u : String) → text_leb s t ≡ true → text_leb t u ≡ true → text_leb s u ≡ true
unfolding text_leb
text_leb_trans s t u h k = codes_leb_trans (codes s) (codes t) (codes u) h k

text_leb_total : (s t : String) → (text_leb s t || text_leb t s) ≡ true
unfolding text_leb
text_leb_total s t = codes_leb_total (codes s) (codes t)

text_leb_antisym : (s t : String) → text_leb s t ≡ true → text_leb t s ≡ true → s ≡ t
unfolding text_leb
text_leb_antisym s t h k = codes-injective s t (codes_leb_antisym (codes s) (codes t) h k)

insert_text_comm :
    (s t : String) (xs : List String)
    → insert_text s (insert_text t xs) ≡ insert_text t (insert_text s xs)
unfolding insert_text
insert_text_comm s t [] = ground (arith, text_leb_total s t, text_leb_antisym s t)
insert_text_comm s t (x ∷ xs) = ground (
  arith,
  text_leb_total s t,
  text_leb_antisym s t,
  text_leb_trans s t x,
  text_leb_trans t s x,
  insert_text_comm s t xs,
)

-- Two texts in the order of `sorted`, one after another.
abbrev pub IsSorted : List String → Type 0
IsSorted [] = Unit
IsSorted (s ∷ ss) = All (λ t. text_leb s t ≡ true) ss × IsSorted ss

sort_texts-Permᴰ : (xs ys : List String) → Permᴰ xs ys → sort_texts xs ≡ sort_texts ys
unfolding sort_texts
sort_texts-Permᴰ xs ys Permᴰ.nil = refl
sort_texts-Permᴰ (x ∷ xs) (y ∷ ys) (Permᴰ.cons same p) =
    λ i. insert_text (same i) (sort_texts-Permᴰ xs ys p i)
sort_texts-Permᴰ (x ∷ (y ∷ xs)) (y' ∷ (x' ∷ _)) (Permᴰ.swap first second) =
    insert_text_comm x y (sort_texts xs)
    ∙ (λ i. insert_text (second i) (insert_text (first i) (sort_texts xs)))
sort_texts-Permᴰ xs ys (Permᴰ.trans {l₂ = zs} p q) =
    sort_texts-Permᴰ xs zs p ∙ sort_texts-Permᴰ zs ys q

insert_text-first :
    (s : String) (ss : List String) → All (λ t. text_leb s t ≡ true) ss → insert_text s ss ≡ s ∷ ss
unfolding insert_text
insert_text-first s [] h = refl
insert_text-first s (t ∷ ss) (le, h) = ground (arith, le)

sort_texts_sorted : (ss : List String) → IsSorted ss → sort_texts ss ≡ ss
unfolding sort_texts
sort_texts_sorted [] h = refl
sort_texts_sorted (s ∷ ss) (first, h) =
    ap (insert_text s) (sort_texts_sorted ss h) ∙ insert_text-first s ss first

insert_text-All :
    (P : String → Type 0) (s : String) (ss : List String)
    → P s
    → All P ss
    → All P (insert_text s ss)
unfolding insert_text
insert_text-All P s [] p h = (p, tt)
insert_text-All P s (t ∷ ss) p (q, h) = elim (Bool-cases (text_leb s t)) [
  | inl le ↦ rw le (p, (q, h))
  | inr gt ↦ rw gt (q, insert_text-All P s ss p h)
]

insert_text-IsSorted : (s : String) (ss : List String) → IsSorted ss → IsSorted (insert_text s ss)
unfolding insert_text
insert_text-IsSorted s [] h = (tt, tt)
insert_text-IsSorted s (t ∷ ss) (first, h) = elim (Bool-cases (text_leb s t)) [
  | inl le ↦ rw le (
    (
      le,
      All-map (λ u. text_leb t u ≡ true) (λ u. text_leb s u ≡ true) ss
          (λ u k. text_leb_trans s t u le k) first,
    ),
    (first, h),
  )
  | inr gt ↦ rw gt (
    insert_text-All (λ u. text_leb t u ≡ true) s ss (ground (arith, gt, text_leb_total s t)) first,
    insert_text-IsSorted s ss h,
  )
]

sort_texts-IsSorted : (ss : List String) → IsSorted (sort_texts ss)
unfolding sort_texts
sort_texts-IsSorted [] = tt
sort_texts-IsSorted (s ∷ ss) = insert_text-IsSorted s (sort_texts ss) (sort_texts-IsSorted ss)

texts_of-str : (ss : List String) → texts_of (map str ss) ≡ some ss
unfolding texts_of
texts_of-str [] = refl
texts_of-str (s ∷ ss) = rw (texts_of-str ss) refl

sorted_values-str : (ss : List String) → sorted_values (map str ss) ≡ ok (map str (sort_texts ss))
unfolding sorted_values
sorted_values-str [] = unfold sort_texts in refl
sorted_values-str (s ∷ []) = unfold sort_texts in unfold insert_text in refl
sorted_values-str (s ∷ (t ∷ ss)) = rw (sorted_values, texts_of-str (s ∷ (t ∷ ss))) refl

arrayize-str :
    (ss : List String) → arrayize (arr (to_items (map str ss))) ≡ ok (map str (sort_texts ss))
unfolding arrayize
arrayize-str ss = ap sorted_values (items-to_items (map str ss)) ∙ sorted_values-str ss

-- `_arrayize` gives two lists of texts one result where one is a permutation of the other; the result
-- is in order, and `_arrayize` leaves it as it is.
pub arrayize-Perm :
    (ss ts : List String)
    → Permᴰ ss ts
    → (us : List String) × IsSorted us
      × (arrayize (arr (to_items (map str ss))) ≡ ok (map str us))
      × (arrayize (arr (to_items (map str ts))) ≡ ok (map str us))
      × (arrayize (arr (to_items (map str us))) ≡ ok (map str us))
arrayize-Perm ss ts p = (
  sort_texts ss,
  sort_texts-IsSorted ss,
  arrayize-str ss,
  arrayize-str ts ∙ ap (λ us. ok (map str us)) (sym (sort_texts-Permᴰ ss ts p)),
  arrayize-str (sort_texts ss)
      ∙ ap (λ us. ok (map str us)) (sort_texts_sorted (sort_texts ss) (sort_texts-IsSorted ss)),
)
