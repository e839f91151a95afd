-- ===== src/Importer/Regions.antt =====
-- introspector/aws/region.py: RegionCache. What the botocore package knows of a service's endpoints and
-- what a call of STS in a region answers are parameters; the answer does not change during an import.
use introspector.Prelude.{
  String, Bool, none, some, List, [], ◌∷◌, filter, if◌then◌else◌, ◌≡◌, refl, str_eq, eq_iff, arith,
  inl, inr, Option-cases, Bool-cases, ◌∙◌, ap, sym,
}
use introspector.Prelude.Dict.{Dict, get, put, get-put}
use introspector.Value.{Value, str}

pub record RegionCache : Type 0 where
  pub load_metadata : (service : String) → Dict Value
  pub get_available_endpoints : (prefix : Value) → List String
  pub region_is_available : (region : String) → Bool

-- sm['metadata'].get('endpointPrefix', service)
unfoldable pub endpoint_prefix : RegionCache → String → Value
unfolding get
endpoint_prefix r service = elim (get "endpointPrefix" (r.load_metadata service)) [
  | none ↦ str service
  | some prefix ↦ prefix
]

unfoldable pub get_and_cache_region : RegionCache → String → Dict Bool → Bool × Dict Bool
unfolding get put
get_and_cache_region r region cache = elim (get region cache) [
  | none ↦ (r.region_is_available region, put region (r.region_is_available region) cache)
  | some cached ↦ (cached, cache)
]

-- The loop over the regions, with the cache that it leaves.
unfoldable pub available_regions : RegionCache → List String → Dict Bool → List String × Dict Bool
unfolding get_and_cache_region
available_regions r [] cache = ([], cache)
available_regions r (region ∷ regions) cache =
    let here = get_and_cache_region r region cache in
    let later = available_regions r regions here.1 in
    (if here.0 then region ∷ later.0 else later.0, later.1)

unfoldable pub regions_for_service : RegionCache → String → Dict Bool → List String × Dict Bool
unfolding available_regions endpoint_prefix
regions_for_service r service cache =
    available_regions r (r.get_available_endpoints (endpoint_prefix r service)) cache

-- What the cache holds of a region is what a call of STS in it answers.
abbrev pub IsCache : RegionCache → Dict Bool → Type 0
IsCache r cache =
    (region : String) (b : Bool) → get region cache ≡ some b → b ≡ r.region_is_available region

get_and_cache_region-answers :
    (r : RegionCache) (region : String) (cache : Dict Bool)
    → IsCache r cache
    → (get_and_cache_region r region cache).0 ≡ r.region_is_available region
unfolding get_and_cache_region
get_and_cache_region-answers r region cache right = elim (Option-cases (get region cache)) [
  | inl new ↦ rw (new, get_and_cache_region) refl
  | inr (b, old) ↦ rw (old, get_and_cache_region) (right region b old)
]

get_and_cache_region-IsCache :
    (r : RegionCache) (region : String) (cache : Dict Bool)
    → IsCache r cache
    → IsCache r (get_and_cache_region r region cache).1
unfolding get_and_cache_region
get_and_cache_region-IsCache r region cache right = elim (Option-cases (get region cache)) [
  | inl new ↦
      rw (new, get_and_cache_region)
        λ other b found. elim (Bool-cases (str_eq region other)) [
          | inl same ↦ ground (
            arith,
            get-put region other (r.region_is_available region) cache,
            same,
            found,
            ap r.region_is_available ((eq_iff region other).0 same),
          )
          | inr differs ↦ right other b (
              sym (get-put region other (r.region_is_available region) cache ∙ rw differs refl)
              ∙ found)
        ]
  | inr (b, old) ↦ rw (old, get_and_cache_region) right
]

available_regions_lem :
    (r : RegionCache) (regions : List String) (cache : Dict Bool)
    → IsCache r cache
    → ((available_regions r regions cache).0 ≡ filter r.region_is_available regions)
      × IsCache r (available_regions r regions cache).1
unfolding available_regions
available_regions_lem r [] cache right = (refl, right)
available_regions_lem r (region ∷ regions) cache right =
    let answers = get_and_cache_region-answers r region cache right in
    let (later, kept) =
      available_regions_lem r regions (get_and_cache_region r region cache).1
        (get_and_cache_region-IsCache r region cache right) in
    (rw (answers, later) refl, kept)

-- From a cache that holds only what a call of STS in a region answers, as the empty one does,
-- `regions_for_service` yields the endpoints of the service in which the call succeeds, in their order,
-- and leaves such a cache.
pub regions_for_service-IsCache :
    (r : RegionCache) (service : String) (cache : Dict Bool)
    → IsCache r cache
    → ((regions_for_service r service cache).0
        ≡ filter r.region_is_available (r.get_available_endpoints (endpoint_prefix r service)))
      × IsCache r (regions_for_service r service cache).1
unfolding regions_for_service
regions_for_service-IsCache r service cache right =
    available_regions_lem r (r.get_available_endpoints (endpoint_prefix r service)) cache right
