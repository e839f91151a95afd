-- ===== src/Account/Sql.antt =====
-- What the clauses of the statements of introspector/account.py mean on lists of rows: `DELETE … USING`
-- takes out a row if the condition holds for it and some row that it is joined with, and a statement
-- that takes out a row to which another row refers by a foreign key fails.
use introspector.Prelude.{
  ℕ, ◌≡◌, refl, Bool, true, false, not, ◌&&◌, Option, none, some, List, [], ◌∷◌, ◌==◌, arith,
  filter, any, Bool-cases, inl, inr,
}
use introspector.Outcome.{Outcome, ok, raise, integrity_error}

module _ {A : Type 0} {B : Type 0} where
  -- The row is joined with a row that passes the test.
  unfoldable pub joins : (B → ℕ) → (A → ℕ) → (A → Bool) → List A → B → Bool
  joins key id test rows b = any (λ a. (id a == key b) && test a) rows

  -- The same by a column that may be NULL, which joins with nothing.
  unfoldable pub joins_some : (B → Option ℕ) → (A → ℕ) → (A → Bool) → List A → B → Bool
  joins_some key id test rows b = elim (key b) [
    | none ↦ false
    | some k ↦ any (λ a. (id a == k) && test a) rows
  ]

-- The rows that a DELETE leaves.
unfoldable pub without : {A : Type 0} → (A → Bool) → List A → List A
without test = filter (λ a. not (test a))

-- A foreign key is violated by a row that still refers to a deleted one.
unfoldable pub unless_referred : {A : Type 0} → Bool → A → Outcome A
unless_referred true a = raise integrity_error
unless_referred false a = ok a

module _ {A : Type 0} where
  -- No row is left that a DELETE has selected.
  pub any-without : (test : A → Bool) (rows : List A) → any test (without test rows) ≡ false
  unfolding without
  any-without test [] = refl
  any-without test (x ∷ rows) = elim (Bool-cases (test x)) [
    | inl out ↦ rw out (any-without test rows)
    | inr in' ↦ rw (in', in') (any-without test rows)
  ]

  pub any-weaken :
      (test weaker : A → Bool) (rows : List A)
      → ((x : A) → test x ≡ true → weaker x ≡ true)
      → any weaker rows ≡ false
      → any test rows ≡ false
  any-weaken test weaker [] h gone = refl
  any-weaken test weaker (x ∷ rows) h gone = ground (arith, h x, any-weaken test weaker rows h)

  pub any-weaken_true :
      (test weaker : A → Bool) (rows : List A)
      → ((x : A) → test x ≡ true → weaker x ≡ true)
      → any test rows ≡ true
      → any weaker rows ≡ true
  any-weaken_true test weaker [] h found = found
  any-weaken_true test weaker (x ∷ rows) h found =
      ground (arith, h x, any-weaken_true test weaker rows h)
