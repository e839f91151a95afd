-- ===== src/Delta/Report.antt =====
-- introspector/delta/report.py: the report of an import; and which job introspector/models/import_job.py
-- takes for the last one. A date is a number, the time from a fixed instant. Where two jobs start at
-- one time, the database may return either: the model returns the first.
pub mod Groups
pub mod Counts
pub mod Latest
use introspector.Prelude.{
  ℕ, ◌+◌, Bool, true, false, ◌&&◌, String, Option, none, some, List, [], ◌∷◌, ◌++◌, map, ◌==◌, ltb,
  if◌then◌else◌, filter, is_empty,
}
use introspector.Store.{Db}
use introspector.Store.Rows.{ImportJob, ResourceDelta, ResourceAttributeDelta, ChangeType}

pub record Report : Type 0 where
  pub resources_added : ℕ
  pub resources_updated : ℕ
  pub resources_deleted : ℕ
  pub attrs_added : ℕ
  pub attrs_updated : ℕ
  pub attrs_deleted : ℕ
  pub start : ℕ
  pub end : Option ℕ
  pub errors : Option (List String)

unfoldable pub same_change : ChangeType → ChangeType → Bool
same_change ChangeType.add ChangeType.add = true
same_change ChangeType.update ChangeType.update = true
same_change ChangeType.delete ChangeType.delete = true
same_change c d = false

-- SELECT change_type, COUNT(*) … GROUP BY change_type
unfoldable pub count_in : ChangeType → List (ChangeType × ℕ) → List (ChangeType × ℕ)
unfolding same_change
count_in c [] = (c, 1) ∷ []
count_in c ((d, n) ∷ groups) =
    let rest = count_in c groups in if same_change c d then (d, n + 1) ∷ groups else (d, n) ∷ rest

unfoldable pub group_by : List ChangeType → List (ChangeType × ℕ)
unfolding count_in
group_by [] = []
group_by (c ∷ cs) = count_in c (group_by cs)

-- The three local variables that a loop over the groups assigns.
pub record Tally : Type 0 where
  pub added : ℕ
  pub updated : ℕ
  pub deleted : ℕ

unfoldable pub assign : ChangeType → ℕ → Tally → Tally
assign ChangeType.add n t = record t { added = n }
assign ChangeType.update n t = record t { updated = n }
assign ChangeType.delete n t = record t { deleted = n }

unfoldable pub tally : List (ChangeType × ℕ) → Tally → Tally
unfolding assign
tally [] t = t
tally ((c, n) ∷ groups) t = tally groups (assign c n t)

abbrev pub no_changes : Tally
no_changes = record { added = 0; updated = 0; deleted = 0 }

unfoldable pub is_update_of : ImportJob → ResourceAttributeDelta → ResourceDelta → Bool
unfolding same_change
is_update_of job a d =
    (d.id == a.resource_delta_id)
    && (same_change d.change_type ChangeType.update && (d.import_job_id == job.id))

-- The join of the attributes' log with the resources' log, restricted to the updates of the job.
unfoldable pub attr_changes :
    ImportJob → List ResourceDelta → List ResourceAttributeDelta → List ChangeType
unfolding is_update_of
attr_changes job deltas [] = []
attr_changes job deltas (a ∷ attrs) =
    map (λ d. a.change_type) (filter (is_update_of job a) deltas) ++ attr_changes job deltas attrs

unfoldable pub resource_changes : ImportJob → List ResourceDelta → List ChangeType
resource_changes job deltas =
    map (λ d. d.change_type) (filter (λ d. d.import_job_id == job.id) deltas)

unfoldable pub report_for_import : ImportJob → Db → Report
unfolding group_by tally attr_changes resource_changes
report_for_import job db =
    let resources = tally (group_by (resource_changes job db.deltas.rows)) no_changes in
    let attrs =
      tally (group_by (attr_changes job db.deltas.rows db.attribute_deltas.rows)) no_changes in
    record {
      resources_added = resources.added;
      resources_updated = resources.updated;
      resources_deleted = resources.deleted;
      attrs_added = attrs.added;
      attrs_updated = attrs.updated;
      attrs_deleted = attrs.deleted;
      start = job.start_date;
      end = job.end_date;
      errors = job.error_details;
    }

unfoldable pub is_complete : ℕ → ImportJob → Bool
is_complete account j =
    (j.provider_account_id == account) && elim j.end_date [ none ↦ false | some t ↦ true ]

-- ORDER BY start_date DESC LIMIT 1
unfoldable pub latest_of : List ImportJob → Option ImportJob
latest_of [] = none
latest_of (j ∷ js) = elim (latest_of js) [
  | none ↦ some j
  | some k ↦ if ltb j.start_date k.start_date then some k else some j
]

unfoldable pub latest : ℕ → List ImportJob → Option ImportJob
unfolding is_complete latest_of
latest account jobs = latest_of (filter (is_complete account) jobs)

unfoldable pub mark_complete : ℕ → List String → ImportJob → ImportJob
mark_complete now exceptions job =
    let ended = record job { end_date = some now } in
    if is_empty exceptions then ended else record ended { error_details = some exceptions }
