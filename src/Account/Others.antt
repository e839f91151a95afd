-- ===== src/Account/Others.antt =====
-- introspector/account.py: the rows of other accounts.
use introspector.Store.Tables.{Table}
use introspector.Store.{Db}
use introspector.Prelude.{
  ℕ, String, ◌≡◌, ◌≢◌, sym, refl, Bool, true, false, ◌&&◌, List, [], ◌∷◌, map, ◌==◌, filter, any,
  arith, inl, inr, Bool-cases, All,
}
use introspector.Store.Rows.{RawImport}
use introspector.Store.Removal.{NodupBy}
use introspector.Account.Sql.{joins, without}
use introspector.Account.Statements.{
  Session, in_jobs, in_resources, of_relation_deltas, of_resource_deltas, of_relations,
  delete_where,
}
use introspector.Account.Imports.{is_later, unmapped}
use introspector.Account.Reset.{after_reset, without_mapped, IsClosed, reset_account-returns}
use introspector.Account.Views.{QueryFolder, refresh_views}
use introspector.Account.{reset_account}
use introspector.Outcome.{Outcome, ok}
use mathlib.Core.Path.{subst}
use introspector.Account.Resources.{without_resources}
use introspector.Account.Logs.{without_log}

module _ {A : Type 0} where
  -- Rows that a DELETE does not select stay.
  filter-without :
      (mine test : A → Bool) (rows : List A)
      → ((x : A) → mine x ≡ true → test x ≡ false)
      → filter mine (without test rows) ≡ filter mine rows
  unfolding without
  filter-without mine test [] apart = refl
  filter-without mine test (x ∷ rows) apart =
      ground (arith, apart x, filter-without mine test rows apart)

  no_match :
      (id : A → ℕ) (k i : ℕ) (test : A → Bool) (rows : List A)
      → (i == k) ≡ true
      → All (λ x. id x ≢ i) rows
      → any (λ a. (id a == k) && test a) rows ≡ false
  no_match id k i test [] same fresh = refl
  no_match id k i test (x ∷ rows) same (ne, fresh) =
      ground (arith, no_match id k i test rows same fresh)

  -- A row joins with one row of a table at most.
  any-apart :
      (id : A → ℕ) (k : ℕ) (test other : A → Bool) (rows : List A)
      → NodupBy id rows
      → ((a : A) → test a ≡ true → other a ≡ false)
      → any (λ a. (id a == k) && test a) rows ≡ true
      → any (λ a. (id a == k) && other a) rows ≡ false
  any-apart id k test other [] nd apart h = refl
  any-apart id k test other (x ∷ rows) (fresh, nd) apart h = elim (Bool-cases (id x == k)) [
    | inl same ↦
        let none_test = no_match id k (id x) test rows same fresh in
        let none_other = no_match id k (id x) other rows same fresh in
        ground (arith, same, none_test, none_other, apart x)
    | inr differs ↦ ground (arith, differs, any-apart id k test other rows nd apart)
  ]

module _ (p q : ℕ) (other : p ≢ q) (s : Session) where
  apart_jobs :
      {B : Type 0} (key : B → ℕ)
      → NodupBy (λ j. j.id) s.jobs
      → (b : B) → in_jobs q key s.jobs b ≡ true
      → in_jobs p key s.jobs b ≡ false
  unfolding in_jobs joins
  apart_jobs key nd b =
      any-apart (λ j. j.id) (key b) (λ j. j.provider_account_id == q)
        (λ j. j.provider_account_id == p) s.jobs nd (λ j. ground arith)

  apart_resources :
      {B : Type 0} (key : B → ℕ)
      → NodupBy (λ r. r.id) s.db.resources.rows
      → (b : B) → in_resources q key s.db.resources.rows b ≡ true
      → in_resources p key s.db.resources.rows b ≡ false
  unfolding in_resources joins
  apart_resources key nd b =
      any-apart (λ r. r.id) (key b) (λ r. r.provider_account_id == q)
        (λ r. r.provider_account_id == p) s.db.resources.rows nd (λ r. ground arith)

  raw_imports_kept :
      (rows : List RawImport)
      → NodupBy (λ j. j.id) s.jobs
      → filter
          (in_jobs q (λ x. x.import_job_id) s.jobs)
          (map (unmapped p s.jobs) (without (is_later p s.jobs) rows))
        ≡ filter (in_jobs q (λ x. x.import_job_id) s.jobs) rows
  unfolding without is_later unmapped
  raw_imports_kept [] nd = refl
  raw_imports_kept (x ∷ rows) nd =
      let same : in_jobs q (λ y. y.import_job_id) s.jobs (record x { mapped = false })
          ≡ in_jobs q (λ y. y.import_job_id) s.jobs x =
        unfold in_jobs joins in refl in
      ground (
        arith,
        same,
        apart_jobs (λ (y : RawImport). y.import_job_id) nd x,
        raw_imports_kept rows nd,
      )

-- The rows of a table that a test selects are those of another.
abbrev pub Agree : {A : Type 0} → (A → Bool) → Table A → Table A → Type 0
Agree test t u = filter test t.rows ≡ filter test u.rows

-- What belongs to an account is the same in two databases, by the jobs and the rows of the second.
abbrev pub Keeps : ℕ → Db → Session → Type 0
Keeps q after s =
    Agree (λ r. r.provider_account_id == q) after.resources s.db.resources
    × Agree (in_resources q (λ x. x.resource_id) s.db.resources.rows) after.raws s.db.raws
    × Agree (in_resources q (λ x. x.resource_id) s.db.resources.rows) after.attributes
        s.db.attributes
    × Agree (in_resources q (λ x. x.resource_id) s.db.resources.rows) after.relations s.db.relations
    × Agree (of_relations q (λ x. x.relation_id) s) after.relation_attributes
        s.db.relation_attributes
    × Agree (in_jobs q (λ x. x.import_job_id) s.jobs) after.deltas s.db.deltas
    × Agree (of_resource_deltas q (λ x. x.resource_delta_id) s) after.attribute_deltas
        s.db.attribute_deltas
    × Agree (in_jobs q (λ x. x.import_job_id) s.jobs) after.relation_deltas s.db.relation_deltas
    × Agree (of_relation_deltas q (λ x. x.resource_relation_delta_id) s)
        after.relation_attribute_deltas s.db.relation_attribute_deltas
    × Agree (in_jobs q (λ x. x.import_job_id) s.jobs) after.raw_imports s.db.raw_imports

-- The session that the statements leave keeps what belongs to another account.
after_reset-others :
    (p q : ℕ) (s : Session)
    → p ≢ q
    → NodupBy (λ j. j.id) s.jobs
    → NodupBy (λ r. r.id) s.db.resources.rows
    → NodupBy (λ r. r.id) s.db.relations.rows
    → NodupBy (λ d. d.id) s.db.deltas.rows
    → NodupBy (λ d. d.id) s.db.relation_deltas.rows
    → Keeps q (after_reset p s).db s
unfolding after_reset without_mapped without_resources without_log delete_where of_relations
    of_resource_deltas of_relation_deltas joins
after_reset-others p q s other jobs_nd resources_nd relations_nd deltas_nd relation_deltas_nd = (
  filter-without (λ r. r.provider_account_id == q) (λ r. r.provider_account_id == p)
      s.db.resources.rows (λ r. ground arith),
  filter-without _ _ s.db.raws.rows (apart_resources p q other s (λ x. x.resource_id) resources_nd),
  filter-without _ _ s.db.attributes.rows
      (apart_resources p q other s (λ x. x.resource_id) resources_nd),
  filter-without _ _ s.db.relations.rows
      (apart_resources p q other s (λ x. x.resource_id) resources_nd),
  filter-without _ _ s.db.relation_attributes.rows (λ x.
      any-apart (λ r. r.id) x.relation_id _ _ s.db.relations.rows relations_nd
        (apart_resources p q other s (λ x. x.resource_id) resources_nd)),
  filter-without _ _ s.db.deltas.rows (apart_jobs p q other s (λ x. x.import_job_id) jobs_nd),
  filter-without _ _ s.db.attribute_deltas.rows (λ x.
      any-apart (λ d. d.id) x.resource_delta_id _ _ s.db.deltas.rows deltas_nd
        (apart_jobs p q other s (λ x. x.import_job_id) jobs_nd)),
  filter-without _ _ s.db.relation_deltas.rows
      (apart_jobs p q other s (λ x. x.import_job_id) jobs_nd),
  filter-without _ _ s.db.relation_attribute_deltas.rows (λ x.
      any-apart (λ d. d.id) x.resource_relation_delta_id _ _ s.db.relation_deltas.rows
        relation_deltas_nd (apart_jobs p q other s (λ x. x.import_job_id) jobs_nd)),
  raw_imports_kept p q other s s.db.raw_imports.rows jobs_nd,
)

-- `reset_account` of one account returns and keeps what belongs to another: its resources, their raw
-- documents, attributes, relations and the attributes of those, the log of its imports and its raw
-- imports. It is assumed that the import jobs, the resources, the relations and the rows of the log have
-- ids of their own, that no relation of another account's resource leads to one of the account, and that
-- the queries of the views return and change no table.
pub reset_account-others :
    (folder : QueryFolder) (execute : String → ℕ → Session → Outcome Session)
    → ((query : String) (p : ℕ) (s : Session)
        → (s' : Session) × (execute query p s ≡ ok s') × (s'.db ≡ s.db))
    → (p q : ℕ) (s : Session) → p ≢ q
    → IsClosed p s
    → NodupBy (λ j. j.id) s.jobs
    → NodupBy (λ r. r.id) s.db.resources.rows
    → NodupBy (λ r. r.id) s.db.relations.rows
    → NodupBy (λ d. d.id) s.db.deltas.rows
    → NodupBy (λ d. d.id) s.db.relation_deltas.rows
    → (s' : Session) × (reset_account (refresh_views folder execute) p s ≡ ok s') × Keeps q s'.db s
reset_account-others folder execute refreshes p q s other closed jobs_nd resources_nd relations_nd
      deltas_nd relation_deltas_nd =
    let (s', done, same) = reset_account-returns folder execute refreshes p s closed in
    (
      s',
      done,
      subst (λ db. Keeps q db s) (sym same)
          (after_reset-others p q s other jobs_nd resources_nd relations_nd deltas_nd
            relation_deltas_nd),
    )
