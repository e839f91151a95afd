-- ===== src/Tests/Attrs.antt =====
-- introspector/delta/attrs.py at a resource with two attributes, of which one changes and one goes.
use introspector.Prelude.{◌≡◌, refl, true, none, some, arith, eq_iff}
use introspector.Value.{str}
use introspector.Store.{Db}
use introspector.Delta.Attrs.{differs, in_scope, at_key, diff_attrs}
use introspector.Delta.Attrs.Keys.{row_at, value_of}
use introspector.Delta.Attrs.WellFormed.{IsWellFormed}
use introspector.Delta.Attrs.Tracking.{NodupAttrs, find_mapped}
use introspector.Delta.Attrs.Content.{Settled}
use introspector.Delta.Attrs.Update.{diff_attrs-Settled}
use introspector.Delta.Attrs.Replay.{replay, entries_of, view, replay-diff_attrs}
use introspector.Tests.Fixtures.{text_diff, db, vpc_scope, mapped_attrs}

abbrev updated : Db
updated = (diff_attrs text_diff vpc_scope 1 (str "old") (str "new") mapped_attrs db).1

changed_lem :
    diff_attrs text_diff vpc_scope 1 (str "old") (str "new") mapped_attrs db ≡ (true, updated)
unfolding diff_attrs differs text_diff
changed_lem = refl

well_formed : IsWellFormed vpc_scope db.attributes
unfolding row_at in_scope at_key
well_formed = record {
  ids = ((omega arith, tt), (tt, tt));
  below = (omega arith, (omega arith, tt));
  keys = (λ _. refl, (λ _. refl, tt));
}

nodup : NodupAttrs mapped_attrs
nodup = ((λ same. ground (arith, eq_iff "Cidr" "Owner"), tt), (tt, tt))

diff_attrs-Settled_example :
    Settled text_diff
      (find_mapped (some "provider") "Cidr" mapped_attrs)
      none
      (value_of (row_at vpc_scope (some "provider") "Cidr" updated.attributes.rows))
diff_attrs-Settled_example =
    diff_attrs-Settled text_diff vpc_scope 1 (str "old") (str "new") mapped_attrs db updated
      (some "provider") "Cidr" well_formed nodup changed_lem

replay-diff_attrs_example :
    replay
      (entries_of db.deltas.next updated.attribute_deltas.rows)
      (view vpc_scope db.attributes.rows)
      (some "provider")
      "Owner"
    ≡ view vpc_scope updated.attributes.rows (some "provider") "Owner"
replay-diff_attrs_example =
    replay-diff_attrs text_diff vpc_scope 1 (str "old") (str "new") mapped_attrs db updated
      (some "provider") "Owner" well_formed nodup tt changed_lem
