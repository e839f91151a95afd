-- ===== src/Delta/Partial/Removed.antt =====
-- introspector/delta/partial.py: what `map_partial_deletes` leaves of the raw documents and the attributes.
use introspector.Outcome.{ok}
use introspector.Prelude.{
  some, str_eq, none, ◌≢◌, ◌∙◌, sym, ap, All, String, ℕ, ◌≡◌, refl, inl, inr, Bool, false, not,
  ◌&&◌, ◌||◌, List, [], ◌∷◌, map, ◌==◌, arith, filter, any,
}
use introspector.Spec.{ImportSpec}
use introspector.Store.{Db}
use introspector.Delta.Resource.{log_resource, scope_of}
use introspector.Store.Tables.{delete, Table}
use introspector.Store.Filters.{
  any-and, and_swap, not-or, any-filter, filter-cong, any-cong, any-map, filter-filter, any-append,
  Within-All, delete_rows_lem, filter-true, filter-Within-cong,
}
use introspector.Delta.Partial.{
  with_raws, delete_partials, map_partial_deletes, is_unmapped, delete_partial,
}
use mathlib.Core.Path.{subst}
use introspector.Store.Removal.{NodupBy-filter, remove_all-filter, NodupBy, remove_all, Within}
use introspector.Delta.Attrs.{in_scope, drop_attr, Scope, drop_attrs}
use introspector.Delta.Resource.Unique.{is_raw}
use introspector.Store.Rows.{ResourceAttribute, ImportJob, Resource, ResourceRaw}
use introspector.Prelude.Dict.{Dict}
use introspector.Value.{Value}

module _ (json_diff : Value → Value → Dict Value) (job : ImportJob) (source : String) where
  drop_attrs-raws :
      (s : Scope) (d : ℕ) (es : List ResourceAttribute) (db : Db)
      → (drop_attrs json_diff s d es db).raws ≡ db.raws
  unfolding drop_attrs drop_attr
  drop_attrs-raws s d [] db = refl
  drop_attrs-raws s d (e ∷ es) db = drop_attrs-raws s d es (drop_attr json_diff s d e db)

  drop_attrs-resources :
      (s : Scope) (d : ℕ) (es : List ResourceAttribute) (db : Db)
      → (drop_attrs json_diff s d es db).resources ≡ db.resources
  unfolding drop_attrs drop_attr
  drop_attrs-resources s d [] db = refl
  drop_attrs-resources s d (e ∷ es) db = drop_attrs-resources s d es (drop_attr json_diff s d e db)

  drop_attrs-attributes :
      (s : Scope) (d : ℕ) (es : List ResourceAttribute) (db : Db)
      → (drop_attrs json_diff s d es db).attributes.rows
        ≡ remove_all (λ a. a.id) es db.attributes.rows
  unfolding drop_attrs drop_attr delete remove_all
  drop_attrs-attributes s d [] db = refl
  drop_attrs-attributes s d (e ∷ es) db =
      drop_attrs-attributes s d es (drop_attr json_diff s d e db)

  abbrev source_scope : Resource → Scope
  source_scope r = scope_of job source r.id

  delete_partial-raws :
      (r : Resource) (w : ResourceRaw) (db : Db)
      → (delete_partial json_diff job source (r, w) db).raws.rows
        ≡ filter (λ x. not (x.id == w.id)) db.raws.rows
  unfolding delete_partial delete log_resource
  delete_partial-raws r w db =
      ap (λ (t : Table ResourceRaw). t.rows)
        (drop_attrs-raws (source_scope r) db.deltas.next
          (filter (in_scope (source_scope r)) db.attributes.rows) _)
      ∙ delete_rows_lem (λ x. x.id) w.id db.raws.rows

  delete_partial-resources :
      (r : Resource) (w : ResourceRaw) (db : Db)
      → (delete_partial json_diff job source (r, w) db).resources ≡ db.resources
  unfolding delete_partial log_resource
  delete_partial-resources r w db =
      drop_attrs-resources (source_scope r) db.deltas.next
        (filter (in_scope (source_scope r)) db.attributes.rows) _

  delete_partial-attributes :
      (r : Resource) (w : ResourceRaw) (db : Db)
      → NodupBy (λ a. a.id) db.attributes.rows
      → (delete_partial json_diff job source (r, w) db).attributes.rows
        ≡ filter (λ a. not (in_scope (source_scope r) a)) db.attributes.rows
  unfolding delete_partial log_resource
  delete_partial-attributes r w db nd =
      drop_attrs-attributes (source_scope r) db.deltas.next
        (filter (in_scope (source_scope r)) db.attributes.rows) _
      ∙ remove_all-filter (λ a. a.id) (in_scope (source_scope r)) db.attributes.rows nd

  delete_partials-resources :
      (ds : List (Resource × ResourceRaw)) (db : Db)
      → (delete_partials json_diff job source ds db).resources ≡ db.resources
  unfolding delete_partials
  delete_partials-resources [] db = refl
  delete_partials-resources ((r, w) ∷ ds) db =
      delete_partials-resources ds (delete_partial json_diff job source (r, w) db)
      ∙ delete_partial-resources r w db

  delete_partials-raws :
      (ds : List (Resource × ResourceRaw)) (db : Db)
      → (delete_partials json_diff job source ds db).raws.rows
        ≡ filter (λ w. not (any (λ d. w.id == d.1.id) ds)) db.raws.rows
  unfolding delete_partials
  delete_partials-raws [] db = sym (filter-true db.raws.rows)
  delete_partials-raws ((r, w) ∷ ds) db =
      delete_partials-raws ds (delete_partial json_diff job source (r, w) db)
      ∙ (ap (filter (λ x. not (any (λ d. x.id == d.1.id) ds))) (delete_partial-raws r w db)
          ∙ (filter-filter (λ x. not (any (λ d. x.id == d.1.id) ds)) (λ x. not (x.id == w.id))
                db.raws.rows
              ∙ filter-cong _ _ db.raws.rows
                  (λ x. not-or (x.id == w.id) (any (λ d. x.id == d.1.id) ds))))

  delete_partials-attributes :
      (ds : List (Resource × ResourceRaw)) (db : Db)
      → NodupBy (λ a. a.id) db.attributes.rows
      → (delete_partials json_diff job source ds db).attributes.rows
        ≡ filter (λ a. not (any (λ d. in_scope (source_scope d.0) a) ds)) db.attributes.rows
  unfolding delete_partials
  delete_partials-attributes [] db nd = sym (filter-true db.attributes.rows)
  delete_partials-attributes ((r, w) ∷ ds) db nd =
      let next = delete_partial json_diff job source (r, w) db in
      let rows = delete_partial-attributes r w db nd in
      delete_partials-attributes ds next (
        subst (NodupBy (λ a. a.id)) (sym rows) (
          NodupBy-filter (λ a. a.id) (λ a. not (in_scope (source_scope r) a)) db.attributes.rows
            nd))
      ∙ (ap (filter (λ a. not (any (λ d. in_scope (source_scope d.0) a) ds))) rows
          ∙ (filter-filter (λ a. not (any (λ d. in_scope (source_scope d.0) a) ds))
                (λ a. not (in_scope (source_scope r) a)) db.attributes.rows
              ∙ filter-cong _ _ db.attributes.rows (λ a.
                not-or (in_scope (source_scope r) a)
                  (any (λ d. in_scope (source_scope d.0) a) ds))))

  -- The rows of the query, tested by the raw document and by the resource.
  any-with_raws :
      (f : Resource × ResourceRaw → Bool) (ws : List ResourceRaw) (rs : List Resource)
      → any f (with_raws json_diff job source ws rs)
        ≡ any (λ r. any (λ w. is_raw source r.id w && f (r, w)) ws) rs
  unfolding with_raws is_raw
  any-with_raws f ws [] = refl
  any-with_raws f ws (r ∷ rs) =
      any-append f
        (map (λ w. (r, w)) (filter (λ w. (w.resource_id == r.id) && str_eq w.source source) ws))
        (with_raws json_diff job source ws rs)
      ∙ (ap (λ b. b || any f (with_raws json_diff job source ws rs))
            (any-map f r (filter (λ w. (w.resource_id == r.id) && str_eq w.source source) ws)
              ∙ (any-filter (λ w. f (r, w)) _ ws
                  ∙ any-cong _ _ ws
                      (λ w. and_swap (w.resource_id == r.id) (str_eq w.source source) (f (r, w)))))
          ∙ ap
              (λ b.
                any (λ w. (str_eq w.source source && (w.resource_id == r.id)) && f (r, w)) ws || b)
              (any-with_raws f ws rs))

  absent_raw :
      (i : ℕ) (w : ResourceRaw) (ws : List ResourceRaw)
      → All (λ y. y.id ≢ w.id) ws
      → any (λ y. is_raw source i y && (w.id == y.id)) ws ≡ false
  absent_raw i w [] h = refl
  absent_raw i w (y ∷ ws) (ne, h) = ground (arith, absent_raw i w ws h, ne)

  same_raw :
      (i : ℕ) (w : ResourceRaw) (ws : List ResourceRaw)
      → NodupBy (λ x. x.id) ws
      → Within w ws
      → any (λ x. is_raw source i x && (w.id == x.id)) ws ≡ is_raw source i w
  same_raw i w [] nd h = absurd h
  same_raw i w (x ∷ ws) (fresh, nd) (inl here) = ground (
    arith,
    ap (λ (v : ResourceRaw). v.id) here,
    ap (is_raw source i) here,
    absent_raw i w ws (subst (λ v. All (λ y. y.id ≢ v.id) ws) (sym here) fresh),
  )
  same_raw i w (x ∷ ws) (fresh, nd) (inr later) =
      ground (arith, same_raw i w ws nd later, Within-All (λ y. y.id ≢ x.id) w ws later fresh)

  -- `map_partial_deletes` returns, keeps the resources, and leaves exactly the raw documents of the
  -- source, and the attributes of the source of a resource that has such a document, whose resource
  -- its query does not select. It is assumed that the specification is not empty and that the ids of
  -- the stored rows are distinct.
  pub map_partial_deletes-leaves :
      (path : String) (spec : ImportSpec) (db : Db)
      → spec ≢ some []
      → NodupBy (λ w. w.id) db.raws.rows
      → NodupBy (λ a. a.id) db.attributes.rows
      → (db' : Db) × (map_partial_deletes json_diff job source path spec db ≡ ok db')
        × (db'.resources ≡ db.resources)
        × (db'.raws.rows
            ≡ filter
                (λ w. not (
                  any
                    (λ r. is_unmapped json_diff job source path spec db r && is_raw source r.id w)
                    db.resources.rows))
                db.raws.rows)
        × (db'.attributes.rows
            ≡ filter
                (λ a. not (
                  any
                    (λ r.
                      is_unmapped json_diff job source path spec db r
                      && (any (is_raw source r.id) db.raws.rows && in_scope (source_scope r) a))
                    db.resources.rows))
                db.attributes.rows)
  map_partial_deletes-leaves path spec db some_service nd nd' =
      let selected = filter (is_unmapped json_diff job source path spec db) db.resources.rows in
      let ds = with_raws json_diff job source db.raws.rows selected in
      (
        delete_partials json_diff job source ds db,
        returns spec some_service,
        delete_partials-resources ds db,
        delete_partials-raws ds db
            ∙ filter-Within-cong _ _ db.raws.rows (λ w h. ap not (
                any-with_raws (λ d. w.id == d.1.id) db.raws.rows selected
                ∙ (any-cong _ _ selected (λ r. same_raw r.id w db.raws.rows nd h)
                    ∙ any-filter (λ r. is_raw source r.id w) _ db.resources.rows))),
        delete_partials-attributes ds db nd'
            ∙ filter-cong _ _ db.attributes.rows (λ a. ap not (
                any-with_raws (λ d. in_scope (source_scope d.0) a) db.raws.rows selected
                ∙ (any-cong _ _ selected
                      (λ r. any-and (is_raw source r.id) (in_scope (source_scope r) a) db.raws.rows)
                    ∙ any-filter
                        (λ r. any (is_raw source r.id) db.raws.rows && in_scope (source_scope r) a)
                        _ db.resources.rows))),
      )
    where
      returns :
          (spec : ImportSpec)
          → spec ≢ some []
          → map_partial_deletes json_diff job source path spec db
            ≡ ok (
                delete_partials json_diff job source
                  (with_raws json_diff job source db.raws.rows
                    (filter (is_unmapped json_diff job source path spec db) db.resources.rows))
                  db)
      returns none h = unfold map_partial_deletes in refl
      returns (some []) h = absurd (h refl)
      returns (some (s ∷ ss)) h = unfold map_partial_deletes in refl
