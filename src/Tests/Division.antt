-- ===== src/Tests/Division.antt =====
-- introspector/aws/map.py: an account of an organization with one organizational unit.
use introspector.Prelude.{◌≡◌, refl, inr, [], ◌∷◌, ◌++◌}
use introspector.Prelude.Text.{join}
use introspector.Outcome.{ok}
use introspector.Paths.{from_import_job, scope, path}
use introspector.Division.{DivisionUri, node_arn, uri_for_path, uri_for_parent}
use introspector.Division.Laws.{IsPlainNode, uri_for_path-scope, uri_for_parent-account}
use introspector.Tests.Fixtures.{job}

abbrev org : DivisionUri
org = record {
  master_account_id = "99";
  org_id = "o-1";
  graph = record {
    accounts = ("r-1", "99" ∷ []) ∷ ("r-1/ou-2", "42" ∷ []) ∷ [];
    organizational_units = ("r-1", "ou-2" ∷ []) ∷ [];
  };
  partition = "aws";
}

account_plain : IsPlainNode org "42"
account_plain = record {
  partition = (refl, (refl, (refl, tt)));
  master = (refl, (refl, tt));
  org_colon = (refl, (refl, (refl, tt)));
  org_slash = (refl, (refl, (refl, tt)));
  tail_colon = (refl, (refl, tt));
  tail_slash = (refl, (refl, tt));
}

unit_plain : IsPlainNode org "ou-2"
unit_plain = record {
  partition = (refl, (refl, (refl, tt)));
  master = (refl, (refl, tt));
  org_colon = (refl, (refl, (refl, tt)));
  org_slash = (refl, (refl, (refl, tt)));
  tail_colon = (refl, (refl, (refl, (refl, tt))));
  tail_slash = (refl, (refl, (refl, (refl, tt))));
}

uri_for_path-scope_example :
    uri_for_path org
      (path (record { tokens = (scope "42" (from_import_job job)).tokens ++ "eu-west-1" ∷ [] }))
    ≡ ok (node_arn org "account" "42")
uri_for_path-scope_example =
    uri_for_path-scope org job "42" ("eu-west-1" ∷ [])
      (
        (refl, (refl, (refl, tt))),
        (
          (refl, (refl, tt)),
          ((refl, (refl, (refl, (refl, (refl, (refl, (refl, (refl, (refl, tt))))))))), tt),
        ),
      )
      (refl, (refl, tt))

uri_for_parent-account_example :
    uri_for_parent org (node_arn org "account" "42") ≡ ok (node_arn org "ou" "ou-2")
unfolding join
uri_for_parent-account_example =
    uri_for_parent-account org "42" "ou" "ou-2" (("r-1", "99" ∷ []) ∷ []) [] ("42" ∷ [])
      ("r-1" ∷ []) account_plain refl (refl, tt) refl
      ((refl, (refl, (refl, tt))), ((refl, (refl, (refl, (refl, tt)))), tt))
      (inr (refl, refl, refl))

parent_test :
    uri_for_parent org "arn:aws:organizations::99:account/o-1/42"
    ≡ ok "arn:aws:organizations::99:ou/o-1/ou-2"
unfolding uri_for_parent
parent_test = refl
