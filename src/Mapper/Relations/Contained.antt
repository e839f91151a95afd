-- ===== src/Mapper/Relations/Contained.antt =====
-- introspector/aws/map.py fills the interface of the divisions: what a resource is in.
use introspector.Prelude.{◌≡◌, refl, String, false, List, [], ◌∷◌, ◌++◌}
use introspector.Prelude.Dict.{Dict}
use introspector.Prelude.Text.{Lacks, AllLack}
use introspector.Outcome.{Outcome, ok}
use introspector.Value.{Value, str}
use introspector.Uri.{exact, is_text}
use introspector.Paths.{from_import_job, scope, path}
use introspector.Store.Rows.{ImportJob}
use introspector.Division.{DivisionUri, node_arn, uri_for_path, uri_for_parent}
use introspector.Division.Laws.{uri_for_path-scope}
use introspector.MapperFns.Policy.{MapperFn}
use introspector.Mapper.Relations.{Divisions, map_in_relation}

-- AWSDivisionURI as a DivisionURI
unfoldable pub aws_divisions : DivisionUri → Divisions
unfolding uri_for_path uri_for_parent
aws_divisions d = record { for_path = uri_for_path d; for_parent = uri_for_parent d }

-- A resource that is neither an organization nor a division, and that was imported below the path of
-- an account, is in that account. It is assumed that no token of the path holds a `$` and that the
-- account has no `/`.
pub map_in_relation-scope :
    (search : Value → Value → Outcome Value) (fns : Dict MapperFn) (d : DivisionUri)
    (job : ImportJob) (account uri : String) (more : List String) (category : Value)
    → AllLack b'$' (job.path_prefix ∷ (account ∷ more))
    → Lacks b'/' account
    → is_text "Organization" category ≡ false
    → is_text "Division" category ≡ false
    → map_in_relation search fns
        (aws_divisions d)
        (path (record { tokens = (scope account (from_import_job job)).tokens ++ more }))
        category
        (exact (str uri))
      ≡ ok (
          record {
            parent = exact (str uri);
            relation = "in";
            target = exact (str (node_arn d "account" account));
            attributes = [];
          }
          ∷ [])
unfolding map_in_relation aws_divisions
map_in_relation-scope search fns d job account uri more category tokens plain organization
      division =
    rw (organization, division, uri_for_path-scope d job account more tokens plain) refl
