-- ===== src/Tests/MapperFns.antt =====
-- introspector/aws/mapper_fns.py: the actions of a policy.
use introspector.MapperFns.Policy.{policy_statement, policy}
use introspector.Prelude.Text.{lower}
use introspector.Value.{dict, Fields, Value, entries, to_fields, str, arr, to_items}
use introspector.Outcome.{value_error, raise, Outcome, ok}
use introspector.MapperFns.Cases.{policy-lowered}
use introspector.Prelude.{◌≡◌, refl, String, List, [], ◌∷◌, map}
use introspector.MapperFns.{arrayize}
use introspector.MapperFns.Sorted.{IsSorted, arrayize-Perm}
use mathlib.Core.List.{Permᴰ}

abbrev actions : List String
actions = "s3:Put" ∷ "ec2:Run" ∷ []

abbrev swapped : List String
swapped = "ec2:Run" ∷ "s3:Put" ∷ []

arrayize-Perm_example :
    (us : List String) × IsSorted us
    × (arrayize (arr (to_items (map str actions))) ≡ ok (map str us))
    × (arrayize (arr (to_items (map str swapped))) ≡ ok (map str us))
    × (arrayize (arr (to_items (map str us))) ≡ ok (map str us))
arrayize-Perm_example = arrayize-Perm actions swapped (Permᴰ.swap refl refl)

-- A statement with its keys in two cases.
abbrev written : Fields
written = to_fields (("Effect", str "Allow") ∷ ("Action", str "s3:Put") ∷ [])

abbrev lower_written : Fields
lower_written = to_fields (("effect", str "Allow") ∷ ("action", str "s3:Put") ∷ [])

abbrev no_json : String → Outcome Value
no_json text = raise value_error

policy-lowered_example :
    (policy_statement (dict written) ≡ policy_statement (dict lower_written))
    × (policy no_json (dict written) ≡ policy no_json (dict lower_written))
policy-lowered_example =
    policy-lowered no_json written lower_written
      (unfold to_fields in unfold entries in unfold lower in refl)

normal_form :
    policy_statement (dict written)
    ≡ ok (
        dict (
          to_fields
            (("Effect", str "Allow") ∷ ("Action", arr (to_items (str "s3:Put" ∷ []))) ∷ [])))
unfolding policy_statement to_fields to_items
normal_form = refl
