-- ===== src/Paths.antt =====
-- introspector/__init__.py: PathStack.
use introspector.Prelude.{String, List, [], ◌∷◌, ◌++◌}
use introspector.Prelude.Text.{join}
use introspector.Outcome.{Outcome, ok, raise, index_error}
use introspector.Store.Rows.{ImportJob}

pub record PathStack : Type 0 where
  pub tokens : List String

unfoldable pub from_import_job : ImportJob → PathStack
from_import_job job = record { tokens = job.path_prefix ∷ [] }

unfoldable pub scope : String → PathStack → PathStack
scope token ps = record { tokens = ps.tokens ++ token ∷ [] }

unfoldable pub path : PathStack → String
unfolding join
path ps = join "$" ps.tokens

-- tokens[-1]
unfoldable pub last : List String → Outcome String
last [] = raise index_error
last (x ∷ []) = ok x
last (x ∷ (y ∷ xs)) = last (y ∷ xs)

unfoldable pub tail : PathStack → Outcome String
unfolding last
tail ps = last ps.tokens
