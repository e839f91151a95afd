-- ===== src/Tests/Report.antt =====
-- introspector/delta/report.py: a log of two resources and one attribute, and three jobs.
use introspector.Prelude.{◌≡◌, refl, some, none, List, [], ◌∷◌, length, arith}
use introspector.Value.{str}
use introspector.Store.{Db}
use introspector.Store.Rows.{
  ImportJob, ResourceDelta, ResourceAttributeDelta, ChangeType, AttributeChange, raw_added, stanzas,
}
use introspector.Delta.Report.{report_for_import, latest}
use introspector.Delta.Report.Counts.{
  logged, logged_attrs, report_for_import-resources, report_for_import-attrs,
}
use introspector.Tests.Fixtures.{job, db}

abbrev added : ResourceDelta
added = record {
  id = 1;
  provider_account_id = 7;
  import_job_id = 1;
  resource_id = 1;
  change_type = ChangeType.add;
  change_details = raw_added (str "new");
}

abbrev changed : ResourceDelta
changed = record {
  id = 2;
  provider_account_id = 7;
  import_job_id = 1;
  resource_id = 2;
  change_type = ChangeType.update;
  change_details = stanzas [];
}

abbrev attr_delta : ResourceAttributeDelta
attr_delta = record {
  id = 1;
  provider_account_id = 7;
  resource_delta_id = 2;
  resource_attribute_id = 1;
  change_type = ChangeType.delete;
  change_details = AttributeChange.current none "State" (str "pending");
}

abbrev logged_db : Db
logged_db = record db {
  deltas = record { rows = added ∷ changed ∷ []; next = 3 };
  attribute_deltas = record { rows = attr_delta ∷ []; next = 2 };
}

report_for_import-resources_example :
    ((report_for_import job logged_db).resources_added
      ≡ length (logged ChangeType.add job logged_db.deltas.rows))
    × ((report_for_import job logged_db).resources_updated
        ≡ length (logged ChangeType.update job logged_db.deltas.rows))
    × ((report_for_import job logged_db).resources_deleted
        ≡ length (logged ChangeType.delete job logged_db.deltas.rows))
report_for_import-resources_example = report_for_import-resources job logged_db

report_for_import-attrs_example :
    ((report_for_import job logged_db).attrs_added
      ≡ length
          (logged_attrs ChangeType.add job logged_db.deltas.rows logged_db.attribute_deltas.rows))
    × ((report_for_import job logged_db).attrs_updated
        ≡ length (
            logged_attrs ChangeType.update job logged_db.deltas.rows
              logged_db.attribute_deltas.rows))
    × ((report_for_import job logged_db).attrs_deleted
        ≡ length (
            logged_attrs ChangeType.delete job logged_db.deltas.rows
              logged_db.attribute_deltas.rows))
report_for_import-attrs_example =
    report_for_import-attrs job logged_db ((omega arith, tt), (tt, tt))

deleted_attrs : (report_for_import job logged_db).attrs_deleted ≡ 1
unfolding report_for_import
deleted_attrs = refl

abbrev done : ImportJob
done = record job { id = 2; end_date = some 120 }

abbrev done_later : ImportJob
done_later = record job { id = 3; start_date = 130; end_date = some 150 }

abbrev jobs : List ImportJob
jobs = job ∷ done ∷ done_later ∷ []

latest_example : latest 7 jobs ≡ some done_later
unfolding latest
latest_example = refl
