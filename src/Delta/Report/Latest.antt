-- ===== src/Delta/Report/Latest.antt =====
-- introspector/models/import_job.py: the job that `ImportJob.latest` returns.
use introspector.Prelude.{
  some, All-map, All, ◌≤◌, ℕ, ◌≡◌, refl, inl, inr, true, List, [], ◌∷◌, filter, any, arith,
  Bool-cases,
}
use introspector.Delta.Report.{ltb, latest_of, is_complete, latest}
use introspector.Store.Removal.{Within}
use introspector.Store.Rows.{ImportJob}

below_All :
    (j k : ImportJob) (jobs : List ImportJob)
    → k.start_date ≤ j.start_date
    → All (λ i. i.start_date ≤ k.start_date) jobs
    → All (λ i. i.start_date ≤ j.start_date) jobs
below_All j k jobs lt h =
    All-map (λ i. i.start_date ≤ k.start_date) (λ i. i.start_date ≤ j.start_date) jobs
      (λ i le. omega (arith, le, lt)) h

-- `ImportJob.latest` returns a completed job of the account than which no completed job of the account
-- started later, where the account has a completed job.
pub latest_lem :
    (account : ℕ) (jobs : List ImportJob)
    → any (is_complete account) jobs ≡ true
    → (j : ImportJob) × (latest account jobs ≡ some j)
      × Within j (filter (is_complete account) jobs)
      × All (λ k. k.start_date ≤ j.start_date) (filter (is_complete account) jobs)
unfolding latest
latest_lem account jobs h = search_of (filter (is_complete account) jobs) (found jobs h)
  where
    found :
        (jobs : List ImportJob)
        → any (is_complete account) jobs ≡ true
        → (filter (is_complete account) jobs ≡ [])
        → ⊥
    found [] h e = ground (arith, h)
    found (j ∷ jobs) h e = ground (arith, h, e, found jobs)

    search_of :
        (js : List ImportJob)
        → ((js ≡ []) → ⊥)
        → (j : ImportJob) × (latest_of js ≡ some j)
          × Within j js
          × All (λ k. k.start_date ≤ j.start_date) js
    search_of [] h = absurd (h refl)
    search_of (j ∷ []) h = (j, unfold latest_of in refl, inl refl, (omega arith, tt))
    search_of (j ∷ (k ∷ js)) h =
        let (best, same, here, above) = search_of (k ∷ js) (λ e. ground (arith, e)) in
        elim (Bool-cases (ltb j.start_date best.start_date)) [
          | inl later ↦
              (best, rw (latest_of, same, later) refl, inr here, (ground (arith, later), above))
          | inr first ↦ (
            j,
            rw (latest_of, same, first) refl,
            inl refl,
            (omega arith, below_All j best (k ∷ js) (ground (arith, first)) above),
          )
        ]
