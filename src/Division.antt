-- ===== src/Division.antt =====
-- introspector/aws/map.py: AWSDivisionURI, the uris of the nodes of the organization. The graph is the
-- `aws_graph` of the import's configuration: the accounts and the organizational units below each
-- path.
pub mod Laws
use introspector.Prelude.{
  ℕ, zero, suc, String, ◌<>◌, Option, none, some, List, [], ◌∷◌, str_eq, starts_with, if◌then◌else◌,
  is_empty, any,
}
use introspector.Prelude.Text.{is_blank, split, join}
use introspector.Prelude.Dict.{Dict}
use introspector.Outcome.{Outcome, ok, raise, index_error, assertion_error, gf_internal, ◌>>=◌}
use introspector.Paths.{last}

-- An account or a unit is kept as its `Id`.
pub record Graph : Type 0 where
  pub accounts : Dict (List String)
  pub organizational_units : Dict (List String)

pub record DivisionUri : Type 0 where
  pub master_account_id : String
  pub org_id : String
  pub graph : Graph
  pub partition : String

-- xs[i]
unfoldable pub item_at : ℕ → List String → Outcome String
item_at i [] = raise index_error
item_at zero (x ∷ xs) = ok x
item_at (suc i) (x ∷ xs) = item_at i xs

-- xs[i:]
unfoldable pub items_from : ℕ → List String → List String
items_from i [] = []
items_from zero (x ∷ xs) = x ∷ xs
items_from (suc i) (x ∷ xs) = items_from i xs

-- f'arn:{partition}:organizations::{master}:{kind}/{org}/{tail}'
unfoldable pub node_arn : DivisionUri → String → String → String
unfolding join
node_arn d kind tail = join ":" (
    "arn"
    ∷ d.partition
    ∷ "organizations"
    ∷ ""
    ∷ d.master_account_id
    ∷ join "/" (kind ∷ d.org_id ∷ tail ∷ [])
    ∷ [])

unfoldable pub organization_arn : DivisionUri → String
unfolding join
organization_arn d = join ":" (
    "arn"
    ∷ d.partition
    ∷ "organizations"
    ∷ ""
    ∷ d.master_account_id
    ∷ join "/" ("organization" ∷ d.org_id ∷ [])
    ∷ [])

unfoldable pub uri_for_path : DivisionUri → String → Outcome String
unfolding is_blank split item_at last node_arn
uri_for_path d path = if is_blank path then raise assertion_error else (do
  org_path ← item_at 1 (split b'$' path)
  tail ← last (split b'/' org_path)
  ok (node_arn d "account" tail))

-- The loop of `_path_to_account` and `_path_to_ou`: the last segment of the path above an id.
unfoldable pub path_to : String → Dict (List String) → Outcome String
unfolding split last
path_to id [] = raise gf_internal
path_to id ((path, ids) ∷ rest) =
    let later = path_to id rest in
    if any (λ i. str_eq i id) ids then last (split b'/' path) else later

unfoldable pub arn_of_node : DivisionUri → String → Outcome String
unfolding node_arn
arn_of_node d tail =
    if starts_with tail "r-"
    then ok (node_arn d "root" tail)
    else if starts_with tail "ou-"
    then ok (node_arn d "ou" tail)
    else raise gf_internal

unfoldable pub uri_for_segments : DivisionUri → String → List String → Outcome String
unfolding organization_arn item_at path_to arn_of_node
uri_for_segments d node_type org_segments =
    if str_eq node_type "root"
    then ok (organization_arn d)
    else if str_eq node_type "account"
    then (do
      account_id ← item_at 2 org_segments
      tail ← path_to account_id d.graph.accounts
      arn_of_node d tail)
    else (do
      ou_id ← item_at 2 org_segments
      tail ← path_to ou_id d.graph.organizational_units
      arn_of_node d tail)

unfoldable pub uri_for_parent : DivisionUri → String → Outcome String
unfolding split join items_from item_at uri_for_segments
uri_for_parent d uri = do
  let org_segments = split b'/' (join ":" (items_from 5 (split b':' uri)))
  node_type ← item_at 0 org_segments
  uri_for_segments d node_type org_segments
