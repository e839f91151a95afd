-- ===== src/Account/Again.antt =====
-- introspector/account.py: what `reset_account` leaves to `map_resource_prefix`, and of other accounts.
use introspector.Account.Statements.{Session, in_jobs}
use introspector.Account.Imports.{is_later, unmapped}
use introspector.Account.Logs.{without_log}
use introspector.Account.Resources.{without_resources}
use introspector.Account.Reset.{without_mapped, after_reset, IsClosed, reset_account-returns}
use introspector.Account.Views.{QueryFolder, refresh_views}
use introspector.Account.{reset_account}
use introspector.Outcome.{Outcome, ok}
use introspector.Store.{Db}
use introspector.Prelude.{
  ◌∙◌, sym, ap, ℕ, String, ◌≡◌, refl, Bool, true, false, ◌&&◌, List, [], ◌∷◌, map, ◌==◌, filter,
  any, arith, inl, inr, Bool-cases,
}
use introspector.Store.Rows.{ImportJob, RawImport}
use introspector.Store.Removal.{Within}
use introspector.Delta.Prefix.{is_pending}
use introspector.Account.Sql.{joins, without}

-- raw_import.mapped = False
abbrev pub to_map : RawImport → RawImport
to_map r = record r { mapped = false }

found_job :
    (job : ImportJob) (jobs : List ImportJob) (i : ℕ)
    → Within job jobs
    → (i == job.id) ≡ true
    → any (λ j. (j.id == i) && (j.provider_account_id == job.provider_account_id)) jobs ≡ true
found_job job [] i w same = absurd w
found_job job (j ∷ jobs) i (inl here) same =
    ground
      (arith, ap (λ (k : ImportJob). k.id) here, ap (λ (k : ImportJob). k.provider_account_id) here)
found_job job (j ∷ jobs) i (inr later) same = ground (arith, found_job job jobs i later same)

module _ (job : ImportJob) (path_prefix : String) (jobs : List ImportJob)
    (known : Within job jobs) where
  abbrev at_first : RawImport → Bool
  at_first r = (r.phase == 0) && is_pending job path_prefix (to_map r)

  pending_of_job :
      (r : RawImport)
      → is_pending job path_prefix r ≡ true
      → in_jobs job.provider_account_id (λ x. x.import_job_id) jobs r ≡ true
  unfolding is_pending in_jobs joins
  pending_of_job r h = found_job job jobs r.import_job_id known (ground arith)

  filter-unmapped :
      (rows : List RawImport)
      → filter (is_pending job path_prefix) (
          map
            (unmapped job.provider_account_id jobs)
            (without (is_later job.provider_account_id jobs) rows))
        ≡ map to_map (filter at_first rows)
  unfolding without is_later unmapped
  filter-unmapped [] = refl
  filter-unmapped (x ∷ rows) =
      elim (Bool-cases (in_jobs job.provider_account_id (λ y. y.import_job_id) jobs x)) [
        | inl ours ↦ ground (arith, ours, filter-unmapped rows)
        | inr other ↦
            let left : is_pending job path_prefix x ≡ true → ⊥ =
              λ h. cc (sym (pending_of_job x h) ∙ other) in
            let closed : is_pending job path_prefix (to_map x) ≡ true → ⊥ =
              λ h. cc (sym (pending_of_job (to_map x) h) ∙ (unfold in_jobs joins in other)) in
            ground (arith, other, filter-unmapped rows, left, closed)
      ]

-- `reset_account` returns, and then the raw imports that `map_resource_prefix` of an import job of the
-- account has to map are those of the first phase that lie below its path, mapped before or not, in
-- their order. It is assumed that the job is in its table, that no relation of another account's
-- resource leads to one of the account, and that the queries of the views return and change no table.
pub reset_account-is_pending :
    (folder : QueryFolder) (execute : String → ℕ → Session → Outcome Session)
    → ((query : String) (p : ℕ) (s : Session)
        → (s' : Session) × (execute query p s ≡ ok s') × (s'.db ≡ s.db))
    → (job : ImportJob) (path_prefix : String) (s : Session) → Within job s.jobs
    → IsClosed job.provider_account_id s
    → (s' : Session) × (reset_account (refresh_views folder execute) job.provider_account_id s
        ≡ ok s')
      × (filter (is_pending job path_prefix) s'.db.raw_imports.rows
          ≡ map to_map (
              filter
                (λ r. (r.phase == 0) && is_pending job path_prefix (to_map r))
                s.db.raw_imports.rows))
unfolding after_reset without_mapped without_resources without_log
reset_account-is_pending folder execute refreshes job path_prefix s known closed =
    let (s', done, same) =
      reset_account-returns folder execute refreshes job.provider_account_id s closed in
    (
      s',
      done,
      ap (λ (db : Db). filter (is_pending job path_prefix) db.raw_imports.rows) same
          ∙ filter-unmapped job path_prefix s.jobs known s.db.raw_imports.rows,
    )
