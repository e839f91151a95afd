-- ===== src/MapperFns/Cases.antt =====
-- introspector/aws/mapper_fns.py: the case of the keys of a policy does not matter.
use introspector.Prelude.{◌≡◌, refl, sym, ◌∙◌, ap, String, [], ◌∷◌, map}
use introspector.Prelude.Dict.{Dict, merge}
use introspector.Prelude.Text.{lower}
use introspector.Outcome.{Outcome, ok, ◌>>=◌}
use introspector.Value.{Value, dict, Fields, entries, to_fields}
use introspector.MapperFns.Policy.{
  lower_keys, statement_of, policy_statement, policy_of, policy_dict, policy,
}

-- The entries with their keys lowered, in order.
abbrev pub lowered : Dict Value → Dict Value
lowered d = map (λ e. (lower e.0, e.1)) d

lower_keys_lem : (d lc : Dict Value) → lower_keys d lc ≡ merge lc (lowered d)
unfolding lower_keys merge
lower_keys_lem [] lc = refl
lower_keys_lem ((k, v) ∷ d) lc = lower_keys_lem d _

lower_keys-lowered : (d e : Dict Value) → lowered d ≡ lowered e → lower_keys d [] ≡ lower_keys e []
lower_keys-lowered d e same = lower_keys_lem d [] ∙ (ap (merge []) same ∙ sym (lower_keys_lem e []))

-- Two objects whose entries are the same but for the case of their keys have one normal form, as
-- statements and as policies: both functions give one result or raise one exception.
pub policy-lowered :
    (loads : String → Outcome Value) (fs gs : Fields)
    → lowered (entries fs) ≡ lowered (entries gs)
    → (policy_statement (dict fs) ≡ policy_statement (dict gs))
      × (policy loads (dict fs) ≡ policy loads (dict gs))
unfolding policy_statement policy policy_dict
policy-lowered loads fs gs same =
    let keys = lower_keys-lowered (entries fs) (entries gs) same in
    (
      ap (λ lc. statement_of lc >>= λ result. ok (dict (to_fields result))) keys,
      ap (policy_of loads) keys,
    )
