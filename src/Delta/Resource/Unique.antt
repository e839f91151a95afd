-- ===== src/Delta/Resource/Unique.antt =====
-- introspector/delta/resource.py: the uniqueness of the resources' uris and of the raw documents of a
-- source, and that `apply_resource` keeps it.
use introspector.Prelude.{
  ℕ, ◌≡◌, refl, String, Bool, true, false, ◌&&◌, Option, none, some, List, [], ◌∷◌, arith, str_eq,
  ◌==◌, find, filter, any, eq_iff,
}
use introspector.Outcome.{ok}
use introspector.Store.{Db}
use introspector.Store.Rows.{Resource, ResourceRaw}
use introspector.Delta.Resource.{is_uri, one_or_none, raws_at}

-- `provider_uri`: no two resources of an account have one uri.
abbrev pub NodupUris : List Resource → Type 0
NodupUris [] = Unit
NodupUris (r ∷ rs) = (any (is_uri r.provider_account_id r.uri) rs ≡ false) × NodupUris rs

unfoldable pub is_raw : String → ℕ → ResourceRaw → Bool
is_raw source i w = str_eq w.source source && (w.resource_id == i)

-- `payload_source`: no resource has two raw documents of one source.
abbrev pub NodupRaws : List ResourceRaw → Type 0
NodupRaws [] = Unit
NodupRaws (w ∷ ws) = (any (is_raw w.source w.resource_id) ws ≡ false) × NodupRaws ws

-- The resource of the uri is the one with the id.
unfoldable pub owned : Option Resource → ℕ → Bool
owned none i = false
owned (some r) i = r.id == i

any_none :
    (account : ℕ) (uri : String) (i : ℕ) (rs : List Resource)
    → any (is_uri account uri) rs ≡ false
    → any (λ r. (r.id == i) && is_uri account uri r) rs ≡ false
any_none account uri i [] h = refl
any_none account uri i (r ∷ rs) h = ground (arith, any_none account uri i rs)

is_uri_same :
    (account : ℕ) (uri : String) (r : Resource) (rs : List Resource)
    → is_uri account uri r ≡ true
    → any (is_uri r.provider_account_id r.uri) rs ≡ false
    → any (is_uri account uri) rs ≡ false
unfolding is_uri
is_uri_same account uri r [] h k = refl
is_uri_same account uri r (x ∷ rs) h k =
    ground (
      arith,
      is_uri_same account uri r rs h,
      eq_iff r.uri uri,
      eq_iff x.uri uri,
      eq_iff x.uri r.uri,
    )

-- The query's join, as the lookup of the one resource.
pub join_lem :
    (account : ℕ) (uri : String) (i : ℕ) (rs : List Resource)
    → NodupUris rs
    → any (λ r. (r.id == i) && is_uri account uri r) rs ≡ owned (find (is_uri account uri) rs) i
unfolding owned
join_lem account uri i [] nd = refl
join_lem account uri i (r ∷ rs) (fresh, nd) =
    ground
      (arith, join_lem account uri i rs nd, any_none account uri i rs, is_uri_same account uri r rs)

filter_none :
    (source : String) (i : ℕ) (ws : List ResourceRaw)
    → any (is_raw source i) ws ≡ false
    → filter (is_raw source i) ws ≡ []
filter_none source i [] h = refl
filter_none source i (w ∷ ws) h = ground (arith, filter_none source i ws)

is_raw_same :
    (source : String) (i : ℕ) (w : ResourceRaw) (ws : List ResourceRaw)
    → is_raw source i w ≡ true
    → any (is_raw w.source w.resource_id) ws ≡ false
    → any (is_raw source i) ws ≡ false
unfolding is_raw
is_raw_same source i w [] h k = refl
is_raw_same source i w (x ∷ ws) h k = ground (
  arith,
  is_raw_same source i w ws h,
  eq_iff w.source source,
  eq_iff x.source source,
  eq_iff x.source w.source,
)

-- `query.one_or_none()` finds at most one, so that it is the first one.
one_or_none-raw :
    (source : String) (i : ℕ) (ws : List ResourceRaw)
    → NodupRaws ws
    → one_or_none (filter (is_raw source i) ws) ≡ ok (find (is_raw source i) ws)
unfolding one_or_none
one_or_none-raw source i [] nd = refl
one_or_none-raw source i (w ∷ ws) (fresh, nd) =
    ground
      (arith, one_or_none-raw source i ws nd, filter_none source i ws, is_raw_same source i w ws)

-- The two constraints on the tables.
pub record IsUnique (db : Db) : Type 0 where
  pub uris : NodupUris db.resources.rows
  pub raws : NodupRaws db.raws.rows

-- The raw document of a source for the resource of a uri.
unfoldable pub stored_raw : ℕ → String → String → Db → Option ResourceRaw
stored_raw account source uri db = elim (find (is_uri account uri) db.resources.rows) [
  | none ↦ none
  | some r ↦ find (is_raw source r.id) db.raws.rows
]

filter-ext :
    (p q : ResourceRaw → Bool) (ws : List ResourceRaw)
    → ((w : ResourceRaw) → p w ≡ q w)
    → filter p ws ≡ filter q ws
filter-ext p q [] h = refl
filter-ext p q (w ∷ ws) h = ground (arith, h w, filter-ext p q ws h)

filter_nothing :
    (p : ResourceRaw → Bool) (ws : List ResourceRaw)
    → ((w : ResourceRaw) → p w ≡ false)
    → filter p ws ≡ []
filter_nothing p [] h = refl
filter_nothing p (w ∷ ws) h = ground (arith, h w, filter_nothing p ws h)

owned_raws :
    (source : String) (o : Option Resource) (ws : List ResourceRaw)
    → NodupRaws ws
    → one_or_none (filter (λ w. str_eq w.source source && owned o w.resource_id) ws)
      ≡ ok (elim o [ none ↦ none | some r ↦ find (is_raw source r.id) ws ])
unfolding owned
owned_raws source none ws nd =
    rw (filter_nothing (λ w. str_eq w.source source && false) ws (λ w. ground arith))
      (unfold one_or_none in refl)
owned_raws source (some r) ws nd =
    rw
      (filter-ext (λ w. str_eq w.source source && (r.id == w.resource_id)) (is_raw source r.id) ws
        (λ w. unfold is_raw in ground arith))
      (one_or_none-raw source r.id ws nd)

pub one_or_none-raws_at :
    (account : ℕ) (source uri : String) (db : Db)
    → IsUnique db
    → one_or_none (raws_at account source uri db) ≡ ok (stored_raw account source uri db)
unfolding raws_at stored_raw
one_or_none-raws_at account source uri db u =
    rw
      (filter-ext
        (λ w.
          str_eq w.source source
          && any (λ r. (r.id == w.resource_id) && is_uri account uri r) db.resources.rows)
        (λ w.
          str_eq w.source source
          && owned (find (is_uri account uri) db.resources.rows) w.resource_id)
        db.raws.rows
        (λ w. ground (arith, join_lem account uri w.resource_id db.resources.rows u.uris)))
      (owned_raws source (find (is_uri account uri) db.resources.rows) db.raws.rows u.raws)
