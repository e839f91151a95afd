-- ===== src/Delta/Report/Groups.antt =====
-- introspector/delta/report.py: grouping, then assigning, counts each change.
use introspector.Prelude.{
  ◌↔◌, ◌||◌, ℕ, ◌+◌, ◌≡◌, refl, ◌∙◌, ◌⊎◌, inl, inr, Bool, true, false, List, [], ◌∷◌, if◌then◌else◌,
  length, filter, any, arith, Bool-cases,
}
use introspector.Delta.Report.{same_change, count_in, group_by, Tally, assign, tally, no_changes}
use introspector.Store.Rows.{ChangeType}

same_change_iff : (c d : ChangeType) → (same_change c d ≡ true) ↔ (c ≡ d)
unfolding same_change
same_change_iff ChangeType.add ChangeType.add = ground arith
same_change_iff ChangeType.add ChangeType.update = ground arith
same_change_iff ChangeType.add ChangeType.delete = ground arith
same_change_iff ChangeType.update ChangeType.add = ground arith
same_change_iff ChangeType.update ChangeType.update = ground arith
same_change_iff ChangeType.update ChangeType.delete = ground arith
same_change_iff ChangeType.delete ChangeType.add = ground arith
same_change_iff ChangeType.delete ChangeType.update = ground arith
same_change_iff ChangeType.delete ChangeType.delete = ground arith

-- How often a change occurs.
abbrev pub times : ChangeType → List ChangeType → ℕ
times c cs = length (filter (same_change c) cs)

-- The number of a group, or 0.
lookup : ChangeType → List (ChangeType × ℕ) → ℕ
lookup c [] = 0
lookup c ((d, n) ∷ groups) = let rest = lookup c groups in if same_change c d then n else rest

has_group : ChangeType → List (ChangeType × ℕ) → Bool
has_group c groups = any (λ g. same_change c g.0) groups

abbrev Distinct : List (ChangeType × ℕ) → Type 0
Distinct [] = Unit
Distinct ((d, n) ∷ groups) = (has_group d groups ≡ false) × Distinct groups

unfoldable pub pick : ChangeType → Tally → ℕ
pick ChangeType.add t = t.added
pick ChangeType.update t = t.updated
pick ChangeType.delete t = t.deleted

lookup-count_in :
    (c d : ChangeType) (groups : List (ChangeType × ℕ))
    → lookup c (count_in d groups)
      ≡ (if same_change c d then lookup c groups + 1 else lookup c groups)
unfolding lookup count_in
lookup-count_in c d [] = ground arith
lookup-count_in c d ((e, n) ∷ groups) = ground (
  arith,
  lookup-count_in c d groups,
  same_change_iff c d,
  same_change_iff d e,
  same_change_iff c e,
)

has_group-count_in :
    (c d : ChangeType) (groups : List (ChangeType × ℕ))
    → has_group c (count_in d groups) ≡ (same_change c d || has_group c groups)
unfolding has_group count_in
has_group-count_in c d [] = ground arith
has_group-count_in c d ((e, n) ∷ groups) = ground (
  arith,
  has_group-count_in c d groups,
  same_change_iff c d,
  same_change_iff d e,
  same_change_iff c e,
)

count_in-Distinct :
    (d : ChangeType) (groups : List (ChangeType × ℕ))
    → Distinct groups
    → Distinct (count_in d groups)
unfolding count_in
count_in-Distinct d [] h = (unfold has_group in refl, tt)
count_in-Distinct d ((e, n) ∷ groups) (fresh, h) = elim (Bool-cases (same_change d e)) [
  | inl same ↦ rw same (fresh, h)
  | inr other ↦ rw other (
    ground (
      arith,
      has_group-count_in e d groups,
      fresh,
      other,
      same_change_iff e d,
      same_change_iff d e,
    ),
    count_in-Distinct d groups h,
  )
]

group_by-Distinct : (cs : List ChangeType) → Distinct (group_by cs)
unfolding group_by
group_by-Distinct [] = tt
group_by-Distinct (c ∷ cs) = count_in-Distinct c (group_by cs) (group_by-Distinct cs)

lookup-group_by : (c : ChangeType) (cs : List ChangeType) → lookup c (group_by cs) ≡ times c cs
unfolding group_by
lookup-group_by c [] = unfold lookup in refl
lookup-group_by c (d ∷ cs) = ground (arith, lookup-count_in c d (group_by cs), lookup-group_by c cs)

lookup_absent :
    (c : ChangeType) (groups : List (ChangeType × ℕ))
    → has_group c groups ≡ false
    → lookup c groups ≡ 0
unfolding lookup has_group
lookup_absent c [] h = refl
lookup_absent c ((d, n) ∷ groups) h = ground (arith, lookup_absent c groups)

pick-assign :
    (c d : ChangeType) (n : ℕ) (t : Tally)
    → pick c (assign d n t) ≡ (if same_change c d then n else pick c t)
unfolding pick assign same_change
pick-assign ChangeType.add ChangeType.add n t = refl
pick-assign ChangeType.add ChangeType.update n t = refl
pick-assign ChangeType.add ChangeType.delete n t = refl
pick-assign ChangeType.update ChangeType.add n t = refl
pick-assign ChangeType.update ChangeType.update n t = refl
pick-assign ChangeType.update ChangeType.delete n t = refl
pick-assign ChangeType.delete ChangeType.add n t = refl
pick-assign ChangeType.delete ChangeType.update n t = refl
pick-assign ChangeType.delete ChangeType.delete n t = refl

pick-tally :
    (c : ChangeType) (groups : List (ChangeType × ℕ)) (t : Tally)
    → Distinct groups
    → pick c (tally groups t) ≡ (if has_group c groups then lookup c groups else pick c t)
unfolding tally lookup has_group
pick-tally c [] t h = refl
pick-tally c ((d, n) ∷ groups) t (fresh, h) =
    ground
      (arith, pick-tally c groups (assign d n t) h, pick-assign c d n t, fresh, same_change_iff c d)

-- Grouping, then assigning, counts each change.
pub pick-group_by :
    (c : ChangeType) (cs : List ChangeType) → pick c (tally (group_by cs) no_changes) ≡ times c cs
pick-group_by c cs =
    pick-tally c (group_by cs) no_changes (group_by-Distinct cs)
    ∙ (by_cases (Bool-cases (has_group c (group_by cs))) ∙ lookup-group_by c cs)
  where
    none_yet : (c : ChangeType) → pick c no_changes ≡ 0
    none_yet ChangeType.add = unfold pick in refl
    none_yet ChangeType.update = unfold pick in refl
    none_yet ChangeType.delete = unfold pick in refl

    by_cases :
        (has_group c (group_by cs) ≡ true) ⊎ (has_group c (group_by cs) ≡ false)
        → (if has_group c (group_by cs) then lookup c (group_by cs) else pick c no_changes)
          ≡ lookup c (group_by cs)
    by_cases (inl there) = rw there refl
    by_cases (inr absent) = ground (arith, absent, none_yet c, lookup_absent c (group_by cs))
