-- ===== src/Store/Tables.antt =====
-- A database table: rows in the order of insertion, and the next value of the id sequence.
use introspector.Prelude.{ℕ, ◌+◌, List, [], ◌∷◌, ◌++◌, Option, none, some, ◌==◌, if◌then◌else◌}

pub record Table {ℓ} (A : Type ℓ) : Type ℓ where
  pub rows : List A
  pub next : ℕ

module _ {ℓ} {A : Type ℓ} where
  -- db.add(row) with the flush that gives it its id
  unfoldable pub insert : (ℕ → A) → Table A → Table A
  insert make t = record { rows = t.rows ++ make t.next ∷ []; next = t.next + 1 }

  -- assignment to fields of a loaded row, by its id
  unfoldable pub update_rows : (A → ℕ) → ℕ → (A → A) → List A → List A
  update_rows id i f [] = []
  update_rows id i f (r ∷ rs) = (if id r == i then f r else r) ∷ update_rows id i f rs

  -- db.delete(row)
  unfoldable pub delete_rows : (A → ℕ) → ℕ → List A → List A
  delete_rows id i [] = []
  delete_rows id i (r ∷ rs) = let rest = delete_rows id i rs in if id r == i then rest else r ∷ rest

  unfoldable pub by_id : (A → ℕ) → ℕ → List A → Option A
  by_id id i [] = none
  by_id id i (r ∷ rs) = let rest = by_id id i rs in if id r == i then some r else rest

  unfoldable pub update : (A → ℕ) → ℕ → (A → A) → Table A → Table A
  unfolding update_rows
  update id i f t = record t { rows = update_rows id i f t.rows }

  unfoldable pub delete : (A → ℕ) → ℕ → Table A → Table A
  unfolding delete_rows
  delete id i t = record t { rows = delete_rows id i t.rows }
