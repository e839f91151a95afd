-- ===== src/Outcome.antt =====
-- The exceptions of introspector/error.py and those of Python that the code may raise, as values.
-- The text of a message is not kept.
use introspector.Prelude.{◌≡◌, refl, ◌⊎◌, inl, inr}

pub data Exception : Type 0 where
  gf_error gf_internal gf_no_access : Exception
  key_error index_error type_error attribute_error assertion_error value_error stop_iteration :
      Exception
  integrity_error multiple_results undefined_column undefined_function syntax_error recursion_error
        client_error :
      Exception

-- A call raises an exception, or it is over with its value.
pub data Outcome {ℓ} (A : Type ℓ) : Type ℓ where
  raise : (e : Exception) → Outcome A
  ok : (a : A) → Outcome A

pub ok-eq {ℓ} : {A : Type ℓ} (a b : A) → ok a ≡ ok b → a ≡ b
ok-eq a b h = cc

pub Outcome-cases :
    {A : Type 0} (m : Outcome A) → ((e : Exception) × (m ≡ raise e)) ⊎ ((a : A) × (m ≡ ok a))
Outcome-cases (raise e) = inl (e, refl)
Outcome-cases (ok a) = inr (a, refl)

pub raise_ok {ℓ} : {A : Type ℓ} {e : Exception} {a : A} → raise e ≡ ok a → ⊥
raise_ok h = cc

module _ {ℓ κ} {A : Type ℓ} {B : Type κ} where
  infixl 5 ◌>>=◌
  -- What comes after a call runs unless the call raises.
  abbrev pub ◌>>=◌ : Outcome A → (A → Outcome B) → Outcome B
  m >>= next = elim m [ raise e ↦ raise e | ok a ↦ next a ]

  pub >>=-returns :
      (m : Outcome A) (next : A → Outcome B) {b : B}
      → (m >>= next) ≡ ok b
      → (a : A) × (m ≡ ok a) × (next a ≡ ok b)
  >>=-returns (raise e) next same = cc
  >>=-returns (ok a) next same = (a, refl, same)

  pub >>=-ext :
      (m : Outcome A) (next other : A → Outcome B)
      → ((a : A) → next a ≡ other a)
      → (m >>= next) ≡ (m >>= other)
  >>=-ext (raise e) next other same = refl
  >>=-ext (ok a) next other same = same a
