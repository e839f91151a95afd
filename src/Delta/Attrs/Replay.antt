-- ===== src/Delta/Attrs/Replay.antt =====
-- introspector/delta/attrs.py: the rows that `diff_attrs` adds to `resource_attribute_delta`, read as
-- changes of the attributes' values.
use mathlib.Core.Path.{fun_ext, subst}
use introspector.Prelude.{
  ℕ, ◌<◌, ◌≡◌, refl, sym, ◌∙◌, ap, inl, inr, String, true, ◌&&◌, Option, none, some, List, [], ◌∷◌,
  ◌++◌, arith, str_eq, opt_eq, ◌==◌, if◌then◌else◌, filter, filter-append, All, Bool-cases,
  Option-cases,
}
use introspector.Prelude.Dict.{Dict}
use introspector.Value.{Value}
use introspector.Store.{Db}
use introspector.Store.Rows.{ResourceAttribute, ResourceAttributeDelta, AttributeChange, ChangeType}
use introspector.Delta.Attrs.{
  MappedAttribute, Scope, in_scope, at_key, find_existing_attr, forget, log_attribute, differs,
  add_attr, change_attr, drop_attr, drop_attrs, add_delta, sync_attrs, diff_attrs,
}
use introspector.Delta.Attrs.Keys.{row_at, value_of}
use introspector.Delta.Attrs.WellFormed.{IsWellFormed}
use introspector.Delta.Attrs.Tracking.{IsTracked, NodupAttrs, DistinctKeys, hit-IsTracked}
use introspector.Delta.Attrs.Steps.{
  changed, change_attr_at, change_attr-IsWellFormed, drop_attr_at, drop_attr-IsWellFormed,
  drop_attr_live, sync_attrs_miss, sync_attrs_hit,
}
use introspector.Delta.Attrs.Content.{miss_now, miss_other, add_attr-IsTracked}
use introspector.Delta.Attrs.Update.{start-IsTracked, diff_attrs-true}

-- The values of a scope by key.
abbrev pub View : Type 0
View = Option String → String → Option Value

abbrev pub view : Scope → List ResourceAttribute → View
view s rs k n = value_of (row_at s k n rs)

-- What one entry of the log says of the value at a key.
unfoldable pub apply_change : ChangeType → AttributeChange → View → View
apply_change ChangeType.add (AttributeChange.current t m v) w k n =
    if str_eq m n && opt_eq t k then some v else w k n
apply_change ChangeType.delete (AttributeChange.current t m v) w k n =
    if str_eq m n && opt_eq t k then none else w k n
apply_change ChangeType.update (AttributeChange.replaced t m old new delta) w k n =
    if str_eq m n && opt_eq t k then some new else w k n
apply_change _ _ w k n = w k n

unfoldable pub replay : List ResourceAttributeDelta → View → View
unfolding apply_change
replay [] w = w
replay (d ∷ ds) w = replay ds (apply_change d.change_type d.change_details w)

-- The entries of one resource delta.
unfoldable pub entries_of : ℕ → List ResourceAttributeDelta → List ResourceAttributeDelta
entries_of d ds = filter (λ x. x.resource_delta_id == d) ds

replay-append :
    (ds : List ResourceAttributeDelta) (d : ResourceAttributeDelta) (w : View)
    → replay (ds ++ d ∷ []) w ≡ apply_change d.change_type d.change_details (replay ds w)
unfolding replay
replay-append [] d w = refl
replay-append (e ∷ ds) d w = replay-append ds d (apply_change e.change_type e.change_details w)

entries_of-append :
    (d : ℕ) (ds : List ResourceAttributeDelta) (x : ResourceAttributeDelta)
    → x.resource_delta_id ≡ d
    → entries_of d (ds ++ x ∷ []) ≡ entries_of d ds ++ x ∷ []
unfolding entries_of
entries_of-append d ds x e = rw filter-append (ground arith)

-- The view after one more entry of the resource delta.
replay-entry :
    (d : ℕ) (start : View) (ds : List ResourceAttributeDelta) (x : ResourceAttributeDelta)
    (k : Option String) (n : String)
    → x.resource_delta_id ≡ d
    → replay (entries_of d (ds ++ x ∷ [])) start k n
      ≡ apply_change x.change_type x.change_details (replay (entries_of d ds) start) k n
replay-entry d start ds x k n e =
    ap (λ (l : List ResourceAttributeDelta). replay l start k n) (entries_of-append d ds x e)
    ∙ ap (λ (w : View). w k n) (replay-append (entries_of d ds) x start)

module _ (json_diff : Value → Value → Dict Value) (s : Scope) (d : ℕ) (start : View) where
  -- The log so far leads from the first values to the stored ones.
  abbrev pub IsLogged : Db → Type 0
  IsLogged db =
      (k : Option String) (n : String)
      → view s db.attributes.rows k n ≡ replay (entries_of d db.attribute_deltas.rows) start k n

  -- With one more entry the stored view has to change as the entry says.
  log-IsLogged :
      (account i : ℕ) (c : ChangeType) (details : AttributeChange) (db : Db)
      (rows : List ResourceAttribute)
      → IsLogged db
      → ((k : Option String) (n : String)
          → view s rows k n ≡ apply_change c details (view s db.attributes.rows) k n)
      → (k : Option String) (n : String)
      → view s rows k n
        ≡ replay
            (entries_of d (log_attribute account d i c details db).attribute_deltas.rows)
            start
            k
            n
  unfolding log_attribute
  log-IsLogged account i c details db rows logged step k n =
      step k n
      ∙ (ap (λ (w : View). apply_change c details w k n) (fun_ext (λ k. fun_ext (λ n. logged k n)))
          ∙ sym (replay-entry d start db.attribute_deltas.rows _ k n refl))

  add_attr-IsLogged :
      (a : MappedAttribute) (db : Db)
      → row_at s a.attr_type a.name db.attributes.rows ≡ none
      → IsLogged db
      → IsLogged (add_attr json_diff s d a db)
  unfolding add_attr
  add_attr-IsLogged a db empty h =
      log-IsLogged s.provider_account_id db.attributes.next ChangeType.add
        (AttributeChange.current a.attr_type a.name a.value) db _ h
        λ k n.
          unfold apply_change in
          ground (arith, miss_now json_diff s d a db k n, miss_other json_diff s d a db k n)

  change_attr-IsLogged :
      (e : ResourceAttribute) (a : MappedAttribute) (db : Db)
      → IsWellFormed s db.attributes
      → row_at s a.attr_type a.name db.attributes.rows ≡ some e
      → IsLogged db
      → IsLogged (change_attr json_diff s d e a db)
  unfolding change_attr
  change_attr-IsLogged e a db wf found h = elim (Bool-cases (differs json_diff e.value a.value)) [
    | inl new ↦ rw new (
        log-IsLogged s.provider_account_id e.id ChangeType.update
          (AttributeChange.replaced e.attr_type e.name e.value a.value (json_diff e.value a.value))
          db _ h
          λ k n.
            unfold apply_change at_key in
            ground (arith, new, change_attr_at json_diff s d e a db wf found k n))
    | inr old ↦ rw old h
  ]

  drop_attr-IsLogged :
      (e : ResourceAttribute) (db : Db)
      → IsWellFormed s db.attributes
      → row_at s e.attr_type e.name db.attributes.rows ≡ some e
      → IsLogged db
      → IsLogged (drop_attr json_diff s d e db)
  unfolding drop_attr
  drop_attr-IsLogged e db wf le h =
      log-IsLogged s.provider_account_id e.id ChangeType.delete
        (AttributeChange.current e.attr_type e.name e.value) db _ h
        λ k n.
          unfold apply_change at_key in ground (arith, drop_attr_at json_diff s d e db wf le k n)

  drop_attrs-IsLogged :
      (es : List ResourceAttribute) (db : Db)
      → IsWellFormed s db.attributes
      → All (λ e. row_at s e.attr_type e.name db.attributes.rows ≡ some e) es
      → DistinctKeys es
      → IsLogged db
      → IsLogged (drop_attrs json_diff s d es db)
  unfolding drop_attrs
  drop_attrs-IsLogged [] db wf live distinct h = h
  drop_attrs-IsLogged (e ∷ es) db wf (le, live) (fresh, distinct) h =
      drop_attrs-IsLogged es (drop_attr json_diff s d e db)
        (drop_attr-IsWellFormed json_diff s d e db wf)
        (drop_attr_live json_diff s d e db es wf le live fresh) distinct
        (drop_attr-IsLogged e db wf le h)

  pub sync_attrs-IsLogged :
      (attrs : List MappedAttribute) (es : List ResourceAttribute) (db : Db)
      → IsTracked s attrs es db.attributes
      → NodupAttrs attrs
      → IsLogged db
      → IsLogged (sync_attrs json_diff s d attrs es db)
  sync_attrs-IsLogged [] es db tr nd h =
      unfold sync_attrs in drop_attrs-IsLogged es db tr.wf tr.live tr.distinct h
  sync_attrs-IsLogged (a ∷ attrs) es db tr nd h = elim (Option-cases (find_existing_attr es a)) [
    | inl miss ↦ rw (sync_attrs_miss json_diff s d a attrs es db miss) (
        sync_attrs-IsLogged attrs es (add_attr json_diff s d a db)
          (add_attr-IsTracked json_diff s d a attrs es db tr nd miss) nd.1
          (add_attr-IsLogged a db (sym tr.cover.0 ∙ miss) h))
    | inr (e, hit) ↦
        let found = sym tr.cover.0 ∙ hit in
        rw (sync_attrs_hit json_diff s d a attrs es db e hit) (
          sync_attrs-IsLogged attrs (forget e es) (change_attr json_diff s d e a db)
            (hit-IsTracked s a attrs es db.attributes _ e (changed json_diff s d e a) tr hit
              (change_attr-IsWellFormed json_diff s d e a db tr.wf)
              (change_attr_at json_diff s d e a db tr.wf found) nd)
            nd.1 (change_attr-IsLogged e a db tr.wf found h))
  ]

entries_of_fresh :
    (d : ℕ) (ds : List ResourceAttributeDelta)
    → All (λ x. x.resource_delta_id < d) ds
    → entries_of d ds ≡ []
unfolding entries_of
entries_of_fresh d [] h = refl
entries_of_fresh d (x ∷ ds) (lt, h) = ground (arith, entries_of_fresh d ds h)

-- The log is complete: the entries that `diff_attrs` adds under its resource delta, replayed over the
-- values that the scope held before, give at every key the value, or the absence of one, that the
-- table holds afterwards. It is assumed that row ids are distinct and below the sequence, that no two
-- rows of the scope have one key, that the mapper found no key twice, and that earlier entries name
-- earlier resource deltas.
pub replay-diff_attrs :
    (json_diff : Value → Value → Dict Value) (s : Scope) (job : ℕ) (previous current : Value)
    (attrs : List MappedAttribute) (db db' : Db) (k : Option String) (n : String)
    → IsWellFormed s db.attributes
    → NodupAttrs attrs
    → All (λ x. x.resource_delta_id < db.deltas.next) db.attribute_deltas.rows
    → diff_attrs json_diff s job previous current attrs db ≡ (true, db')
    → replay (entries_of db.deltas.next db'.attribute_deltas.rows) (view s db.attributes.rows) k n
      ≡ view s db'.attributes.rows k n
unfolding add_delta
replay-diff_attrs json_diff s job previous current attrs db db' k n wf nd old h =
    subst
      (λ (e : Db).
        replay (entries_of db.deltas.next e.attribute_deltas.rows) (view s db.attributes.rows) k n
        ≡ view s e.attributes.rows k n)
      (diff_attrs-true json_diff s job previous current attrs db db' h)
      (sym (
        sync_attrs-IsLogged json_diff s db.deltas.next (view s db.attributes.rows) attrs
          (filter (in_scope s) db.attributes.rows) (add_delta json_diff s job previous current db)
          (start-IsTracked s attrs db.attributes wf) nd logged k n))
  where
    logged :
        (k : Option String) (n : String)
        → view s db.attributes.rows k n
          ≡ replay
              (entries_of db.deltas.next db.attribute_deltas.rows)
              (view s db.attributes.rows)
              k
              n
    logged k n = unfold replay in rw (entries_of_fresh db.deltas.next db.attribute_deltas.rows old)
