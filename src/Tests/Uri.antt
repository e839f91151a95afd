-- ===== src/Tests/Uri.antt =====
-- introspector/aws/uri.py: a volume whose region is its parent's.
use introspector.Prelude.{String, ◌≡◌, refl, true, false, [], ◌∷◌}
use introspector.Prelude.Dict.{Dict, put, has}
use introspector.Outcome.{ok}
use introspector.Value.{Value, str, dict, to_fields}
use introspector.Uri.{arn_fn, exact, get_with_parent, is_null}
use introspector.Uri.Inherit.{arn_fn-put}

-- No number, list or object is printed here.
abbrev no_repr : Value → String
no_repr v = ""

abbrev volume : Dict Value
volume =
    ("resource_name", str "Volume")
    ∷ ("id", str "vol-1")
    ∷ ("parent_uri", dict (to_fields (("region", str "eu-west-1") ∷ [])))
    ∷ []

region_found : get_with_parent "region" volume ≡ ok (str "eu-west-1")
unfolding get_with_parent to_fields
region_found = refl

named : has "id" volume ≡ true
unfolding has
named = refl

arn_fn-put_example :
    arn_fn no_repr "ec2" (str "aws") (str "42") volume
    ≡ arn_fn no_repr "ec2" (str "aws") (str "42") (put "region" (str "eu-west-1") volume)
arn_fn-put_example =
    arn_fn-put no_repr "ec2" (str "aws") (str "42") volume (str "eu-west-1") region_found given
      named
  where
    given : is_null (str "eu-west-1") ≡ false
    given = unfold is_null in refl

volume_arn :
    arn_fn no_repr "ec2" (str "aws") (str "42") volume
    ≡ ok (exact (str "arn:aws:ec2:eu-west-1:42:volume/vol-1"))
unfolding arn_fn to_fields
volume_arn = refl
