-- ===== src/Delta/Prefix/Again.antt =====
-- introspector/delta/resource.py: a second run of `map_resource_prefix` finds nothing left to map.
use introspector.Delta.Prefix.Imports.{apply_results-imports}
use introspector.Store.Removal.{Within}
use introspector.Store.Tables.{update, Table, update_rows}
use introspector.Prelude.{
  map, ◌≡◌, refl, sym, ◌∙◌, ap, inl, inr, String, Bool, true, false, Option, List, [], ◌∷◌, ◌==◌,
  filter, any, arith, Bool-cases, if◌then◌else◌,
}
use introspector.Prelude.Dict.{Dict, put}
use introspector.Outcome.{Outcome, ok, ok-eq, >>=-returns}
use introspector.Value.{Value, str}
use introspector.Store.{Db}
use introspector.Store.Rows.{ImportJob, RawImport}
use introspector.Store.Responses.{raw_resources}
use introspector.Uri.{Uri}
use introspector.Delta.Attrs.{MappedAttribute}
use introspector.Delta.Resource.{MappedResource}
use introspector.Delta.Partial.{context_of}
use introspector.Delta.Prefix.{
  is_pending, set_mapped, import_resource_name, apply_results, map_import, map_imports,
  map_resource_prefix,
}

true-false : true ≡ false → ⊥
true-false h = cc

-- The raw imports after each of a list of them was marked.
marked : List RawImport → List RawImport → List RawImport
marked [] rows = rows
marked (r ∷ rs) rows =
    marked rs (update_rows (λ x. x.id) r.id (λ x. record x { mapped = true }) rows)

mark : List RawImport → RawImport → RawImport
mark rs x = if any (λ r. x.id == r.id) rs then record x { mapped = true } else x

map-mark :
    (r : RawImport) (rs rows : List RawImport)
    → map (mark rs) (update_rows (λ x. x.id) r.id (λ x. record x { mapped = true }) rows)
      ≡ map (mark (r ∷ rs)) rows
unfolding update_rows mark
map-mark r rs [] = refl
map-mark r rs (x ∷ rows) = elim (Bool-cases (x.id == r.id)) [
  | inl same ↦
      rw (same, map-mark r rs rows)
        (elim (Bool-cases (any (λ r. x.id == r.id) rs)) [
          | inl there ↦ rw there refl
          | inr gone ↦ rw gone refl
        ])
  | inr other ↦ rw (other, map-mark r rs rows) refl
]

map-mark_none : (rows : List RawImport) → map (mark []) rows ≡ rows
unfolding mark
map-mark_none [] = refl
map-mark_none (x ∷ rows) = ap (◌∷◌ x) (map-mark_none rows)

marked_lem : (rs rows : List RawImport) → marked rs rows ≡ map (mark rs) rows
unfolding marked
marked_lem [] rows = sym (map-mark_none rows)
marked_lem (r ∷ rs) rows = marked_lem rs _ ∙ map-mark r rs rows

module _ (job : ImportJob) (path_prefix : String) where
  abbrev pub pending : RawImport → Bool
  pending = is_pending job path_prefix

  found-id :
      (x : RawImport) (rows : List RawImport)
      → Within x rows
      → pending x ≡ true
      → any (λ r. x.id == r.id) (filter pending rows) ≡ true
  found-id x [] w h = absurd w
  found-id x (y ∷ rows) (inl here) h = elim (Bool-cases (pending y)) [
    | inl waiting ↦ rw waiting (ground (arith, ap (λ (r : RawImport). r.id) here))
    | inr closed ↦ absurd (true-false (sym h ∙ (ap pending here ∙ closed)))
  ]
  found-id x (y ∷ rows) (inr later) h = elim (Bool-cases (pending y)) [
    | inl waiting ↦ rw waiting (ground (arith, found-id x rows later h))
    | inr closed ↦ rw closed (found-id x rows later h)
  ]

  mapped_not_pending : (x : RawImport) → pending (record x { mapped = true }) ≡ false
  unfolding is_pending
  mapped_not_pending x = ground arith

  none_pending :
      (rs rows : List RawImport)
      → ((x : RawImport) → Within x rows → pending x ≡ true → any (λ r. x.id == r.id) rs ≡ true)
      → filter pending (map (mark rs) rows) ≡ []
  unfolding mark
  none_pending rs [] h = refl
  none_pending rs (x ∷ rows) h =
      let rest = none_pending rs rows (λ y w. h y (inr w)) in
      elim (Bool-cases (any (λ r. x.id == r.id) rs)) [
        | inl there ↦ rw (there, mapped_not_pending x, rest) refl
        | inr gone ↦ elim (Bool-cases (pending x)) [
          | inl waiting ↦ absurd (true-false (sym (h x (inl refl) waiting) ∙ gone))
          | inr closed ↦ rw (gone, closed, rest) refl
        ]
      ]

  module _ (json_diff : Value → Value → Dict Value)
      (map_resources : Value
        → Dict Value
        → String
        → String
        → Outcome (List (MappedResource Uri × List MappedAttribute)))
      (resource_name : Option String) where
    map_import-imports :
        (r : RawImport) (db db' : Db)
        → map_import json_diff job map_resources resource_name r db ≡ ok db'
        → db'.raw_imports.rows
          ≡ update_rows (λ x. x.id) r.id (λ x. record x { mapped = true }) db.raw_imports.rows
    unfolding map_import set_mapped update
    map_import-imports r db db' h =
        let (resources, _, rest) = >>=-returns (raw_resources r) _ h in
        let (results, _, rest') =
          >>=-returns
            (map_resources resources (put "path" (str r.path) (context_of r)) r.service
              (import_resource_name resource_name r))
            _ rest in
        let (applied, done, end) =
          >>=-returns (apply_results json_diff job r.path r.id results db) _ rest' in
        ap (λ (d : Db). d.raw_imports.rows) (sym (ok-eq _ _ end))
        ∙ ap
            (λ (t : Table RawImport).
              update_rows (λ x. x.id) r.id (λ x. record x { mapped = true }) t.rows)
            (apply_results-imports json_diff job r.path r.id results db applied done)

    map_imports-imports :
        (rs : List RawImport) (db db' : Db)
        → map_imports json_diff job map_resources resource_name rs db ≡ ok db'
        → db'.raw_imports.rows ≡ marked rs db.raw_imports.rows
    unfolding map_imports marked
    map_imports-imports [] db db' h = ap (λ (d : Db). d.raw_imports.rows) (sym (ok-eq _ _ h))
    map_imports-imports (r ∷ rs) db db' h =
        let (next, first, rest) =
          >>=-returns (map_import json_diff job map_resources resource_name r db) _ h in
        map_imports-imports rs next db' rest ∙ ap (marked rs) (map_import-imports r db next first)

    -- Once `map_resource_prefix` has returned, every raw import that it selects is marked as mapped: a
    -- second run on the database that it leaves returns, too, and changes nothing.
    pub map_resource_prefix_again :
        (db db' : Db)
        → map_resource_prefix json_diff job map_resources resource_name path_prefix db ≡ ok db'
        → (filter (is_pending job path_prefix) db'.raw_imports.rows ≡ [])
          × (map_resource_prefix json_diff job map_resources resource_name path_prefix db' ≡ ok db')
    unfolding map_resource_prefix map_imports
    map_resource_prefix_again db db' h =
        let rows =
          map_imports-imports (filter pending db.raw_imports.rows) db db' h
          ∙ marked_lem (filter pending db.raw_imports.rows) db.raw_imports.rows in
        let left : filter pending db'.raw_imports.rows ≡ [] =
          ap (filter pending) rows
          ∙ none_pending (filter pending db.raw_imports.rows) db.raw_imports.rows
              (λ x w. found-id x db.raw_imports.rows w) in
        (left, ap (λ rs. map_imports json_diff job map_resources resource_name rs db') left)
