-- ===== src/Organization.antt =====
-- introspector/aws/__init__.py: the graph of the organization. What the organization's client lists is a
-- parameter, and so is its answer to `describe_organization`. An `Id` is a text.
pub mod Provider
pub mod Again
use introspector.Prelude.{
  ℕ, zero, suc, String, ◌<>◌, Bool, true, false, none, some, Option, List, [], ◌∷◌, ◌++◌, is_empty,
  if◌then◌else◌, str_eq,
}
use introspector.Prelude.Text.{join, is_blank}
use introspector.Prelude.Dict.{Dict, get, put}
use introspector.Value.{Value, str, arr, dict, no_items, Items, item, entries}
use introspector.Outcome.{
  Outcome, ok, raise, key_error, type_error, gf_internal, client_error, recursion_error, ◌>>=◌,
}
use introspector.Services.Accounts.{setting}

-- An account, a root or an organizational unit, as its response describes it.
abbrev pub Entry : Type 0
Entry = Dict Value

pub record AwsGraph : Type 0 where
  pub accounts : Dict (List Entry)
  pub organizational_units : Dict (List Entry)

-- entry['Id']
unfoldable pub id_of : Entry → Outcome String
unfolding setting
id_of entry = do id ← setting "Id" entry; elim id [ str s ↦ ok s | v ↦ raise type_error ]

-- A node of the walk: its path, its type and its entry.
abbrev pub Node : Type 0
Node = String × String × Entry

unfoldable pub walk_accounts : String → List Entry → Outcome (List Node)
unfolding id_of
walk_accounts entry_path [] = ok []
walk_accounts entry_path (account ∷ accounts) = do
  id ← id_of account
  rest ← walk_accounts entry_path accounts
  ok ((entry_path <> ("/" <> id), "Account", account) ∷ rest)

unfoldable pub walk_entries : AwsGraph → String → List Entry → Outcome (List Node)
unfolding id_of is_blank get walk_accounts
walk_entries graph path [] = ok []
walk_entries graph path (entry ∷ entries) = do
  id ← id_of entry
  let entry_path = if is_blank path then id else path <> ("/" <> id)
  let typ = if is_blank path then "Root" else "OrganizationalUnit"
  accounts ←
      walk_accounts entry_path
        (elim (get entry_path graph.accounts) [ none ↦ [] | some found ↦ found ])
  rest ← walk_entries graph path entries
  ok ((entry_path, typ, entry) ∷ accounts ++ rest)

unfoldable pub walk_units : AwsGraph → Dict (List Entry) → Outcome (List Node)
unfolding walk_entries
walk_units graph [] = ok []
walk_units graph ((path, entries) ∷ rest) = do
  here ← walk_entries graph path entries
  later ← walk_units graph rest
  ok (here ++ later)

unfoldable pub walk_graph : Entry → AwsGraph → Outcome (List Node)
unfolding walk_units
walk_graph org graph = do
  nodes ← walk_units graph graph.organizational_units
  ok (("", "Organization", org) ∷ nodes)

-- f'arn:aws:organizations::{master}:{tail}'
unfoldable pub organizations_arn : String → String → Value
unfolding join
organizations_arn master tail =
    str (join ":" ("arn" ∷ "aws" ∷ "organizations" ∷ "" ∷ master ∷ tail ∷ []))

abbrev pub dummy_root_id : String
dummy_root_id = "r-dummy"

unfoldable pub dummy_root : String → String → Entry
unfolding organizations_arn join
dummy_root master org_id =
    ("Id", str dummy_root_id)
    ∷ ("Arn", organizations_arn master (join "/" ("root" ∷ org_id ∷ dummy_root_id ∷ [])))
    ∷ ("Name", str "Root")
    ∷ ("PolicyTypes", arr no_items)
    ∷ []

unfoldable pub account_entry : String → String → String → Entry
unfolding organizations_arn join
account_entry master org_id account_id =
    ("Id", str account_id)
    ∷ ("Arn", organizations_arn master (join "/" ("account" ∷ org_id ∷ account_id ∷ [])))
    ∷ []

unfoldable pub one_account_graph : String → String → String → AwsGraph
unfolding dummy_root account_entry
one_account_graph master org_id account_id = record {
  accounts = (dummy_root_id, account_entry master org_id account_id ∷ []) ∷ [];
  organizational_units = ("", dummy_root master org_id ∷ []) ∷ [];
}

unfoldable pub build_dummy_org_graph : String → Entry × AwsGraph
unfolding one_account_graph organizations_arn join
build_dummy_org_graph account_id =
    let org_id = "OrgDummy:" <> account_id in
    (
      ("Id", str org_id)
          ∷ ("Arn", organizations_arn account_id (join "/" ("organization" ∷ org_id ∷ [])))
          ∷ ("MasterAccountId", str account_id)
          ∷ (
            "MasterAccountArn",
            organizations_arn account_id (join "/" ("account" ∷ org_id ∷ account_id ∷ [])),
          )
          ∷ [],
      one_account_graph account_id org_id account_id,
    )

unfoldable pub text_setting : String → Dict Value → Outcome String
unfolding setting
text_setting key entry = do
  v ← setting key entry
  elim v [ str s ↦ ok s | other ↦ raise type_error ]

unfoldable pub build_sub_account_graph : String → Entry → Outcome (Entry × AwsGraph)
unfolding text_setting one_account_graph
build_sub_account_graph account_id org = do
  org_id ← text_setting "Id" org
  master ← text_setting "MasterAccountId" org
  ok (org, one_account_graph master org_id account_id)

-- The entries of a list in a response.
unfoldable pub entries_of : Items → Outcome (List Entry)
unfolding entries
entries_of no_items = ok []
entries_of (item (dict fs) vs) = do rest ← entries_of vs; ok (entries fs ∷ rest)
entries_of (item v vs) = raise type_error

unfoldable pub listed : String → Dict Value → Outcome (List Entry)
unfolding setting entries_of
listed key resp = do
  v ← setting key resp
  elim v [ arr vs ↦ entries_of vs | other ↦ raise type_error ]

unfoldable pub require_resp : Option (String × Dict Value) → Outcome (Dict Value)
require_resp none = raise gf_internal
require_resp (some (name, resp)) = ok resp

-- The answer to `describe_organization`: what `get` gives, or the code of a `ClientError`.
pub data Described : Type 0 where
  description : Option (Dict Value) → Described
  described_error : (code : Option String) → Described

module _ (list : String → Dict Value → Outcome (Option (String × Dict Value))) where
  unfoldable pub list_entries : String → Dict Value → String → Outcome (List Entry)
  unfolding require_resp listed
  list_entries operation kwargs key = do
    found ← list operation kwargs
    resp ← require_resp found
    listed key resp

  -- The loop over the units, by the function for one of them.
  unfoldable pub build_each :
      (String → AwsGraph → Outcome AwsGraph) → List Entry → AwsGraph → Outcome AwsGraph
  unfolding id_of
  build_each build [] graph = ok graph
  build_each build (entry ∷ entries) graph = do
    id ← id_of entry
    next ← build id graph
    build_each build entries next

  -- The fuel is the room on Python's stack.
  unfoldable pub build_graph : ℕ → String → List String → AwsGraph → Outcome AwsGraph
  unfolding list_entries join put build_each
  build_graph zero parent_id path graph = raise recursion_error
  build_graph (suc fuel) parent_id path graph = do
    let next_path = path ++ parent_id ∷ []
    let path_str = join "/" (path ++ parent_id ∷ [])
    accounts ← list_entries "list_accounts_for_parent" (("ParentId", str parent_id) ∷ []) "Accounts"
    let with_accounts = record graph { accounts = put path_str accounts graph.accounts }
    ous ←
        list_entries "list_organizational_units_for_parent" (("ParentId", str parent_id) ∷ [])
          "OrganizationalUnits"
    if is_empty ous
        then ok with_accounts
        else build_each (λ id g. build_graph fuel id next_path g) ous
            (record with_accounts {
              organizational_units = put path_str ous with_accounts.organizational_units;
            })

  unfoldable pub build_master_account_graph : ℕ → Entry → Dict Value → Outcome (Entry × AwsGraph)
  unfolding listed build_graph build_each
  build_master_account_graph fuel organization roots_resp = do
    roots ← listed "Roots" roots_resp
    graph ←
        build_each (λ id g. build_graph fuel id [] g) roots
          (record { accounts = []; organizational_units = ("", roots) ∷ [] })
    ok (organization, graph)

  unfoldable pub graph_of_roots : ℕ → String → Entry → Dict Value → Outcome (Entry × AwsGraph)
  unfolding get build_sub_account_graph build_master_account_graph
  graph_of_roots fuel account_id org_resp roots_resp = elim (get "introspector" roots_resp) [
    | none ↦ build_master_account_graph fuel org_resp roots_resp
    | some v ↦ elim v [
      | str why ↦
          if str_eq why "auth failure"
          then build_sub_account_graph account_id org_resp
          else build_master_account_graph fuel org_resp roots_resp
      | other ↦ build_master_account_graph fuel org_resp roots_resp
    ]
  ]

  unfoldable pub build_org_graph : ℕ → Described → String → Outcome (Entry × AwsGraph)
  unfolding setting require_resp graph_of_roots build_dummy_org_graph
  build_org_graph fuel (description none) account_id = raise type_error
  build_org_graph fuel (description (some resp)) account_id = do
    v ← setting "Organization" resp
    org_resp ← elim v [ dict fs ↦ ok (entries fs) | other ↦ raise type_error ]
    found ← list "list_roots" []
    roots_resp ← require_resp found
    graph_of_roots fuel account_id org_resp roots_resp
  build_org_graph fuel (described_error none) account_id = raise client_error
  build_org_graph fuel (described_error (some code)) account_id =
      if str_eq code "AWSOrganizationsNotInUseException"
      then ok (build_dummy_org_graph account_id)
      else raise client_error
