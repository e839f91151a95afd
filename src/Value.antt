-- ===== src/Value.antt =====
-- JSON values, as the provider's responses and the transform specifications hold them.
use introspector.Prelude.{String, List, [], ◌∷◌, Bool, ◌≡◌, refl, ap}
use introspector.Prelude.Dict.{Dict}

mutual
  -- A number is kept as its JSON text: the code copies numbers and computes with none.
  pub data Value : Type 0 where
    null : Value
    bool : Bool → Value
    num : String → Value
    str : String → Value
    arr : Items → Value
    dict : Fields → Value

  pub data Items : Type 0 where
    no_items : Items
    item : Value → Items → Items

  pub data Fields : Type 0 where
    no_members : Fields
    member : String → Value → Fields → Fields

unfoldable pub items : Items → List Value
items no_items = []
items (item v vs) = v ∷ items vs

unfoldable pub to_items : List Value → Items
to_items [] = no_items
to_items (v ∷ vs) = item v (to_items vs)

unfoldable pub entries : Fields → Dict Value
entries no_members = []
entries (member k v fs) = (k, v) ∷ entries fs

unfoldable pub to_fields : Dict Value → Fields
to_fields [] = no_members
to_fields ((k, v) ∷ d) = member k v (to_fields d)

pub items-to_items : (vs : List Value) → items (to_items vs) ≡ vs
unfolding items to_items
items-to_items [] = refl
items-to_items (v ∷ vs) = ap (◌∷◌ v) (items-to_items vs)

pub entries-to_fields : (d : Dict Value) → entries (to_fields d) ≡ d
unfolding entries to_fields
entries-to_fields [] = refl
entries-to_fields ((k, v) ∷ d) = ap (◌∷◌ (k, v)) (entries-to_fields d)
