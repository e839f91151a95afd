-- ===== src/Account.antt =====
-- introspector/account.py: taking the rows of a provider account out of the tables. A statement is a
-- function of the session, which holds the tables and the report; the file Sql has what its clauses
-- mean. `refresh_views` is the function of introspector/bootstrap_db.py.
pub mod Sql
pub mod Statements
pub mod Imports
pub mod Views
pub mod Logs
pub mod Resources
pub mod Reset
pub mod Delete
pub mod Again
pub mod Others
use introspector.Prelude.{ℕ, [], ◌≡◌}
use introspector.Prelude.Dict.{put}
use introspector.Outcome.{Outcome, ok, ◌>>=◌}
use introspector.Store.Rows.{ProviderAccount}
use introspector.Account.Statements.{
  Session, remove_relation_attribute_deltas, remove_relation_deltas, remove_attribute_deltas,
  remove_resource_deltas, remove_relation_attributes, remove_relations, remove_attributes,
  remove_raws, remove_resources,
}
use introspector.Account.Imports.{
  remove_mapped_uris, remove_raw_imports, remove_jobs, remove_credentials, remove_account_row,
  reset_mapped_uris, reset_later_imports, reset_mapped,
}

module _ (p : ℕ) where
  -- _delete_delta_log
  unfoldable pub delete_delta_log : Session → Outcome Session
  unfolding remove_relation_attribute_deltas remove_relation_deltas remove_attribute_deltas
      remove_resource_deltas
  delete_delta_log s = do
    s1 ← remove_relation_attribute_deltas p s
    s2 ← remove_relation_deltas p s1
    s3 ← remove_attribute_deltas p s2
    remove_resource_deltas p s3

  -- _delete_resources
  unfoldable pub delete_account_resources : Session → Outcome Session
  delete_account_resources s = do
    s1 ← remove_relation_attributes p s
    s2 ← remove_relations p s1
    s3 ← remove_attributes p s2
    s4 ← remove_raws p s3
    remove_resources p s4

  -- _delete_imports
  unfoldable pub delete_imports : Session → Outcome Session
  delete_imports s = do s1 ← remove_mapped_uris p s; s2 ← remove_raw_imports p s1; remove_jobs p s2

  -- _delete_provider_account
  unfoldable pub delete_provider_account : Session → Outcome Session
  delete_provider_account s = do s1 ← remove_credentials p s; remove_account_row p s1

  -- _reset_imports
  unfoldable pub reset_imports : Session → Outcome Session
  reset_imports s = do s1 ← reset_mapped_uris p s; s2 ← reset_later_imports p s1; reset_mapped p s2

module _ (refresh_views : ℕ → Session → Outcome Session) where
  unfoldable pub reset_account : ℕ → Session → Outcome Session
  unfolding delete_delta_log delete_account_resources reset_imports
  reset_account p s = do
    s1 ← delete_delta_log p (record s { report = [] })
    s2 ← delete_account_resources p s1
    s3 ← reset_imports p s2
    refresh_views p s3

  unfoldable pub delete_account : ProviderAccount → Session → Outcome Session
  unfolding delete_delta_log delete_account_resources delete_imports delete_provider_account
  delete_account account s = do
    s1 ← delete_delta_log account.id (record s { report = [] })
    s2 ← delete_account_resources account.id s1
    s3 ← delete_imports account.id s2
    s4 ← delete_provider_account account.id s3
    refresh_views account.id s4
