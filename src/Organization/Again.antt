-- ===== src/Organization/Again.antt =====
-- introspector/aws/__init__.py: a second import finds the provider account of the first.
use introspector.Organization.Provider.{
  resolve_org_id, provider_for, Identity, Providers, at_most_one, is_credential, credential_row,
  require_credential, has_external_id, is_account, account_row, create_provider_and_credential,
  get_or_create_provider,
}
use introspector.Organization.{Described}
use mathlib.Core.Path.{subst}
use introspector.Prelude.{
  ℕ, String, Bool, true, none, some, Option, List, [], ◌∷◌, ◌++◌, filter, if◌then◌else◌, ◌≡◌, refl,
  arith, ap, sym, ◌∙◌, inl, inr, ◌⊎◌, Bool-cases, filter-append, eq_refl,
}
use introspector.Outcome.{ok, raise, gf_error, ◌>>=◌, ok-eq, raise_ok, >>=-returns}
use introspector.Store.Tables.{Table, insert}
use introspector.Store.Rows.{ProviderAccount, ProviderCredential}

module _ {A : Type 0} where
  -- What a query finds: nothing, one row, or more.
  at_most_one-cases :
      (found : List A) {o : Option A}
      → at_most_one found ≡ ok o
      → (found ≡ []) × (o ≡ none) ⊎ ((a : A) × (found ≡ a ∷ []) × (o ≡ some a))
  unfolding at_most_one
  at_most_one-cases [] h = inl (refl, sym (ok-eq _ _ h))
  at_most_one-cases (a ∷ []) h = inr (a, refl, sym (ok-eq _ _ h))
  at_most_one-cases (a ∷ (b ∷ rest)) h = absurd (raise_ok h)

  only_added :
      (test : A → Bool) (rows : List A) (row : A)
      → filter test rows ≡ []
      → test row ≡ true
      → filter test (rows ++ row ∷ []) ≡ row ∷ []
  only_added test rows row empty matches =
      filter-append test rows (row ∷ []) ∙ rw (empty, matches) refl

module _ (identity : Identity) where
  module _ (provider_id : ℕ) where
    abbrev with_credential : Providers → Providers
    with_credential db = record db {
      credentials = insert (credential_row identity provider_id) db.credentials;
    }

    require-added :
        (db : Providers)
        → filter (is_credential identity provider_id) db.credentials.rows ≡ []
        → require_credential identity provider_id db ≡ ok (with_credential db)
    unfolding require_credential at_most_one
    require-added db empty = rw (empty, require_credential) refl

    require-kept :
        (db : Providers) (c : ProviderCredential)
        → filter (is_credential identity provider_id) db.credentials.rows ≡ c ∷ []
        → require_credential identity provider_id db ≡ ok db
    unfolding require_credential at_most_one
    require-kept db c one = rw (one, require_credential) refl

    own-is_credential :
        (i : ℕ) → is_credential identity provider_id (credential_row identity provider_id i) ≡ true
    unfolding is_credential credential_row
    own-is_credential i = rw (eq_refl identity.account) (ground arith)

    -- Requiring a credential again changes nothing.
    require_credential_again :
        (db next : Providers)
        → require_credential identity provider_id db ≡ ok next
        → (require_credential identity provider_id next ≡ ok next) × (next.accounts ≡ db.accounts)
    unfolding insert require_credential
    require_credential_again db next h =
        let (o, found, rest) =
          >>=-returns
            (at_most_one (filter (is_credential identity provider_id) db.credentials.rows)) _ h in
        elim (at_most_one-cases (filter (is_credential identity provider_id) db.credentials.rows)
          found) [
            | inl (empty, nothing) ↦
                subst
                  (λ n.
                    (require_credential identity provider_id n ≡ ok n) × (n.accounts ≡ db.accounts))
                  (ok-eq _ _ (sym (require-added db empty) ∙ h))
                  (
                    require-kept (with_credential db) _ (
                        only_added (is_credential identity provider_id) db.credentials.rows
                          (credential_row identity provider_id db.credentials.next) empty
                          (own-is_credential db.credentials.next)),
                    refl,
                  )
            | inr (c, one, there) ↦
                subst
                  (λ n.
                    (require_credential identity provider_id n ≡ ok n) × (n.accounts ≡ db.accounts))
                  (ok-eq _ _ (sym (require-kept db c one) ∙ h)) (require-kept db c one, refl)
          ]

  module _ (confirm : Identity → Bool) (external_id : Option ℕ) (org_id : String) where
    own-is_account :
        (i : ℕ)
        → is_account identity confirm external_id org_id
            (account_row identity confirm external_id org_id i)
          ≡ true
    unfolding is_account account_row has_external_id
    own-is_account i =
        elim external_id
          as (λ e.
            is_account identity confirm e org_id (account_row identity confirm e org_id i) ≡ true) [
              | none ↦ rw (eq_refl org_id) refl
              | some e ↦ rw (eq_refl org_id) (ground arith)
            ]

    found_account :
        (db : Providers) (a : ProviderAccount)
        → filter (is_account identity confirm external_id org_id) db.accounts.rows ≡ a ∷ []
        → provider_for identity confirm external_id org_id db
          ≡ (require_credential identity a.id db >>= λ next. ok (a, next))
    unfolding provider_for at_most_one
    found_account db a one = rw (one, provider_for) refl

    again_for :
        (a : ProviderAccount) (start next : Providers)
        → filter (is_account identity confirm external_id org_id) start.accounts.rows ≡ a ∷ []
        → require_credential identity a.id start ≡ ok next
        → provider_for identity confirm external_id org_id next ≡ ok (a, next)
    again_for a start next one required =
        let (kept, same) = require_credential_again a.id start next required in
        found_account next a (
          ap
            (λ (t : Table ProviderAccount).
              filter (is_account identity confirm external_id org_id) t.rows)
            same
          ∙ one)
        ∙ rw kept refl

    fresh_account :
        (db : Providers)
        → filter (is_account identity confirm external_id org_id) db.accounts.rows ≡ []
        → provider_for identity confirm external_id org_id db ≡ (
            if confirm identity
            then create_provider_and_credential identity confirm external_id org_id db
            else raise gf_error)
    unfolding provider_for at_most_one
    fresh_account db empty = rw (empty, provider_for) refl

    kept_for :
        (a : ProviderAccount) (start db' : Providers) (b : ProviderAccount)
        → filter (is_account identity confirm external_id org_id) start.accounts.rows ≡ a ∷ []
        → ◌>>=◌ {B = ProviderAccount × Providers}
            (require_credential identity a.id start)
            (λ next. ok (a, next))
          ≡ ok (b, db')
        → provider_for identity confirm external_id org_id db' ≡ ok (b, db')
    kept_for a start db' b one h =
        let (next, required, end) = >>=-returns (require_credential identity a.id start) _ h in
        subst
          (λ (s : ProviderAccount × Providers).
            provider_for identity confirm external_id org_id s.1 ≡ ok s)
          (ok-eq _ _ end) (again_for a start next one required)

    created_for :
        (db db' : Providers) (a : ProviderAccount)
        → filter (is_account identity confirm external_id org_id) db.accounts.rows ≡ []
        → create_provider_and_credential identity confirm external_id org_id db ≡ ok (a, db')
        → provider_for identity confirm external_id org_id db' ≡ ok (a, db')
    unfolding create_provider_and_credential insert
    created_for db db' a empty h =
        kept_for (account_row identity confirm external_id org_id db.accounts.next)
          (record db {
            accounts = insert (account_row identity confirm external_id org_id) db.accounts;
          })
          db' a
          (only_added (is_account identity confirm external_id org_id) db.accounts.rows
            (account_row identity confirm external_id org_id db.accounts.next) empty
            (own-is_account db.accounts.next))
          h

    provider_for_again :
        (db : Providers) (a : ProviderAccount) (db' : Providers)
        → provider_for identity confirm external_id org_id db ≡ ok (a, db')
        → provider_for identity confirm external_id org_id db' ≡ ok (a, db')
    unfolding provider_for
    provider_for_again db a db' h =
        let found = filter (is_account identity confirm external_id org_id) db.accounts.rows in
        let (o, looked, rest) = >>=-returns (at_most_one found) _ h in
        elim (at_most_one-cases found looked) [
          | inl (empty, nothing) ↦ elim (Bool-cases (confirm identity)) [
            | inl agreed ↦
                created_for db db' a empty (sym (fresh_account db empty ∙ rw agreed refl) ∙ h)
            | inr refused ↦
                absurd
                  (raise_ok {e = gf_error} (sym (fresh_account db empty ∙ rw refused refl) ∙ h))
          ]
          | inr (b, one, there) ↦ kept_for b db db' a one (sym (found_account db b one) ∙ h)
        ]

-- Once `_get_or_create_provider` has returned a provider account, a later call with the same identity
-- and the same answer of the organization returns that account, and changes nothing.
pub get_or_create_provider_again :
    (identity : Identity) (confirm : Identity → Bool) (external_id : Option ℕ)
    (described : Described) (db : Providers) (a : ProviderAccount) (db' : Providers)
    → get_or_create_provider identity confirm external_id described db ≡ ok (a, db')
    → get_or_create_provider identity confirm external_id described db' ≡ ok (a, db')
unfolding get_or_create_provider
get_or_create_provider_again identity confirm external_id described db a db' h =
    let (org_id, resolved, rest) = >>=-returns (resolve_org_id identity described) _ h in
    rw resolved (provider_for_again identity confirm external_id org_id db a db' rest)
