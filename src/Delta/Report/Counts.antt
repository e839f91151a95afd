-- ===== src/Delta/Report/Counts.antt =====
-- introspector/delta/report.py: the numbers of the report are those of the logged changes.
use introspector.Prelude.{
  map, ◌≢◌, All, ◌++◌, ℕ, ◌+◌, ◌≡◌, refl, ◌∙◌, inl, inr, ◌&&◌, List, [], ◌∷◌, ◌==◌, if◌then◌else◌,
  length, filter, any, arith, Bool-cases,
}
use introspector.Store.{Db}
use introspector.Store.Rows.{ResourceAttributeDelta, ImportJob, ResourceDelta, ChangeType}
use introspector.Delta.Report.Groups.{pick-group_by, pick, times}
use introspector.Delta.Report.{
  attr_changes, is_update_of, report_for_import, same_change, group_by, tally, no_changes,
  resource_changes,
}
use introspector.Store.Removal.{NodupBy}

times_of-map :
    (c : ChangeType) (job : ImportJob) (deltas : List ResourceDelta)
    → times c (resource_changes job deltas)
      ≡ length (filter (λ d. same_change c d.change_type && (d.import_job_id == job.id)) deltas)
unfolding resource_changes
times_of-map c job [] = refl
times_of-map c job (d ∷ deltas) = ground (arith, times_of-map c job deltas)

-- The logged changes of the resources of a job.
abbrev pub logged : ChangeType → ImportJob → List ResourceDelta → List ResourceDelta
logged c job deltas =
    filter (λ d. same_change c d.change_type && (d.import_job_id == job.id)) deltas

-- The resource counts of the report are the numbers of the additions, the updates and the deletions
-- that the job logged.
pub report_for_import-resources :
    (job : ImportJob) (db : Db)
    → ((report_for_import job db).resources_added
        ≡ length (logged ChangeType.add job db.deltas.rows))
      × ((report_for_import job db).resources_updated
          ≡ length (logged ChangeType.update job db.deltas.rows))
      × ((report_for_import job db).resources_deleted
          ≡ length (logged ChangeType.delete job db.deltas.rows))
unfolding report_for_import
report_for_import-resources job db = (
  counted ChangeType.add (unfold pick in refl),
  counted ChangeType.update (unfold pick in refl),
  counted ChangeType.delete (unfold pick in refl),
)
  where
    counted :
        (c : ChangeType) {n : ℕ}
        → n ≡ pick c (tally (group_by (resource_changes job db.deltas.rows)) no_changes)
        → n ≡ length (logged c job db.deltas.rows)
    counted c h =
        h
        ∙ (pick-group_by c (resource_changes job db.deltas.rows)
            ∙ times_of-map c job db.deltas.rows)

times_of-append :
    (c : ChangeType) (xs ys : List ChangeType) → times c (xs ++ ys) ≡ times c xs + times c ys
times_of-append c [] ys = omega arith
times_of-append c (x ∷ xs) ys = ground (arith, times_of-append c xs ys)

no_update :
    (job : ImportJob) (a : ResourceAttributeDelta) (x : ResourceDelta) (deltas : List ResourceDelta)
    → All (λ d. d.id ≢ x.id) deltas
    → x.id ≡ a.resource_delta_id
    → filter (is_update_of job a) deltas ≡ []
unfolding is_update_of
no_update job a x [] h same = refl
no_update job a x (d ∷ deltas) (ne, h) same =
    ground (arith, no_update job a x deltas h same, ne, same)

-- The join has a row for a logged attribute, or none.
times_of-join :
    (c : ChangeType) (job : ImportJob) (a : ResourceAttributeDelta) (deltas : List ResourceDelta)
    → NodupBy (λ d. d.id) deltas
    → times c (map (λ d. a.change_type) (filter (is_update_of job a) deltas))
      ≡ (if same_change c a.change_type && any (is_update_of job a) deltas then 1 else 0)
times_of-join c job a [] nd = ground arith
times_of-join c job a (d ∷ deltas) (fresh, nd) = elim (Bool-cases (is_update_of job a d)) [
  | inl here ↦
      rw (here, no_update job a d deltas fresh (unfold is_update_of in ground (arith, here)))
        (ground arith)
  | inr not_here ↦ rw not_here (times_of-join c job a deltas nd)
]

-- The logged changes of the attributes, of the updates of a job.
abbrev pub logged_attrs :
    ChangeType
    → ImportJob
    → List ResourceDelta
    → List ResourceAttributeDelta
    → List ResourceAttributeDelta
logged_attrs c job deltas attrs =
    filter (λ a. same_change c a.change_type && any (is_update_of job a) deltas) attrs

times_of-attr_changes :
    (c : ChangeType) (job : ImportJob) (deltas : List ResourceDelta)
    (attrs : List ResourceAttributeDelta)
    → NodupBy (λ d. d.id) deltas
    → times c (attr_changes job deltas attrs) ≡ length (logged_attrs c job deltas attrs)
unfolding attr_changes
times_of-attr_changes c job deltas [] nd = refl
times_of-attr_changes c job deltas (a ∷ attrs) nd =
    times_of-append c (map (λ d. a.change_type) (filter (is_update_of job a) deltas))
      (attr_changes job deltas attrs)
    ∙ ground (arith, times_of-join c job a deltas nd, times_of-attr_changes c job deltas attrs nd)

-- The attribute counts of the report are the numbers of the additions, the changes and the deletions
-- of attributes that belong to an update that the job logged, where no two logged changes of
-- resources have one id.
pub report_for_import-attrs :
    (job : ImportJob) (db : Db)
    → NodupBy (λ d. d.id) db.deltas.rows
    → ((report_for_import job db).attrs_added
        ≡ length (logged_attrs ChangeType.add job db.deltas.rows db.attribute_deltas.rows))
      × ((report_for_import job db).attrs_updated
          ≡ length (logged_attrs ChangeType.update job db.deltas.rows db.attribute_deltas.rows))
      × ((report_for_import job db).attrs_deleted
          ≡ length (logged_attrs ChangeType.delete job db.deltas.rows db.attribute_deltas.rows))
unfolding report_for_import
report_for_import-attrs job db nd = (
  counted ChangeType.add (unfold pick in refl),
  counted ChangeType.update (unfold pick in refl),
  counted ChangeType.delete (unfold pick in refl),
)
  where
    changes : List ChangeType
    changes = attr_changes job db.deltas.rows db.attribute_deltas.rows

    counted :
        (c : ChangeType) {n : ℕ}
        → n ≡ pick c (tally (group_by changes) no_changes)
        → n ≡ length (logged_attrs c job db.deltas.rows db.attribute_deltas.rows)
    counted c h =
        h
        ∙ (pick-group_by c changes
            ∙ times_of-attr_changes c job db.deltas.rows db.attribute_deltas.rows nd)
