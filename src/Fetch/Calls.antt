-- ===== src/Fetch/Calls.antt =====
-- introspector/aws/fetch.py: what an import makes of its result.
use introspector.Fetch.{
  is_throttled, starts_with, is_auth_failure, client_error, resource_name_of, Client, Reply,
  answered, key_missing, invalid_params, refused, Listed, list, list_named, list_call, list_result,
  refused_result, saved_error, is_retried,
}
use introspector.Outcome.{Exception, ok-eq, raise_ok, Outcome, ok, raise}
use introspector.Prelude.{
  String, Bool, true, false, none, some, Option, [], ◌∷◌, ◌≡◌, refl, ◌⊎◌, inl, inr, str_eq, eq_iff,
  if◌then◌else◌, arith, Bool-cases, Option-cases,
}
use introspector.Prelude.Dict.{Dict, get}
use introspector.Value.{Value, str, dict, arr, no_items, to_fields, entries}
use introspector.Store.Rows.{RawImport}
use introspector.Store.Responses.{error_key, raw_resources, unnamed_resources}
use introspector.Fetch.Classes.{ClientClass, map_error_code}

-- {introspector: why}
unfoldable pub is_saved : Dict Value → Bool
is_saved ((key, str why) ∷ []) = str_eq key error_key
is_saved r = false

none-some : {A : Type 0} {a : A} → none ≡ some a → ⊥
none-some h = cc

-- What is returned in place of a response is saved as an error.
abbrev Saves : Outcome Listed → Type 0
Saves m = (name : String) (r : Dict Value) → m ≡ ok (some (name, r)) → is_saved r ≡ true

either : (test : Bool) (m n : Outcome Listed) → Saves m → Saves n → Saves (if test then m else n)
either true m n left right = left
either false m n left right = right

saved_error-Saves : (resource_name why : String) → Saves (saved_error resource_name why)
unfolding saved_error is_saved
saved_error-Saves resource_name why name r h = ground arith

none-Saves : Saves (ok none)
none-Saves name r h = absurd (none-some (ok-eq _ _ h))

raise-Saves : (e : Exception) → Saves (raise e)
raise-Saves e name r h = absurd (raise_ok h)

refused_result-Saves :
    (cls : ClientClass) (resource_name : String) (code : Option String)
    → Saves (refused_result cls resource_name code)
unfolding refused_result
refused_result-Saves cls resource_name none = raise-Saves _
refused_result-Saves cls resource_name (some code) =
    let saved : (why : String) → Saves (saved_error resource_name why) =
      saved_error-Saves resource_name in
    either (str_eq code "UnsupportedOperation") _ _ (saved _) (
      either (str_eq code "MissingParameter") _ _ (saved _) (
        either (str_eq code "OptInRequired") _ _ (saved _) (
          either (is_auth_failure code) _ _ (saved _) (
            either (str_eq code "InvalidClientTokenId") _ _ (saved _) (
              either (starts_with code "NoSuch") _ _ none-Saves
                (either (is_throttled (some code)) _ _ (raise-Saves client_error) unmapped))))))
  where
    unmapped : Saves (elim (map_error_code cls code resource_name) [
      | none ↦ raise client_error
      | some why ↦ saved_error resource_name why
    ])
    unmapped =
        elim (map_error_code cls code resource_name)
          as (λ o.
            Saves
              (elim o [ none ↦ raise client_error | some why ↦ saved_error resource_name why ])) [
                | none ↦ raise-Saves _
                | some why ↦ saved_error-Saves resource_name why
              ]

list_result-is_saved :
    (cls : ClientClass) (resource_name : String) (reply : Reply) (name : String) (r : Dict Value)
    → list_result cls resource_name reply ≡ ok (some (name, r))
    → (reply ≡ answered r) ⊎ (is_saved r ≡ true)
unfolding list_result saved_error is_saved
list_result-is_saved cls resource_name (answered result) name r h = inl (ground arith)
list_result-is_saved cls resource_name key_missing name r h = absurd (raise_ok h)
list_result-is_saved cls resource_name invalid_params name r h = inr (ground arith)
list_result-is_saved cls resource_name (refused code) name r h =
    inr (refused_result-Saves cls resource_name code name r h)

saved_resources :
    (r : Dict Value) (row : RawImport)
    → is_saved r ≡ true
    → row.raw ≡ dict (to_fields r)
    → str_eq error_key row.resource_name ≡ false
    → raw_resources row ≡ ok (arr no_items)
unfolding is_saved raw_resources unnamed_resources to_fields entries get
saved_resources ((key, str why) ∷ []) row saved raw other =
    let away : str_eq key row.resource_name ≡ false = rw ((eq_iff key error_key).0 saved) other in
    rw (raw, raw_resources) (rw (away, unnamed_resources) (rw saved refl))
saved_resources _ row saved raw other = cc

module _ {C : Type 0} (client : Client C) (cls : ClientClass) (key : String)
    (kwargs : Dict Value) where
  named-is_saved :
      (resource_name : String) (retry : Bool) (c : C) (name : String) (r : Dict Value)
      → (list_named client cls resource_name key kwargs retry c).0 ≡ ok (some (name, r))
      → ((before : C) × ((list_call client cls key kwargs before).0 ≡ answered r))
        ⊎ (is_saved r ≡ true)
  unfolding list_named
  named-is_saved resource_name retry c name r h =
      let first = list_call client cls key kwargs c in
      elim (Bool-cases (is_retried first.0)) [
        | inl again ↦ elim (Bool-cases retry) [
          | inl yes' ↦ at_call first.1 (
              list_result-is_saved cls resource_name (list_call client cls key kwargs first.1).0
                name r (rw (again, yes') at h))
          | inr no' ↦ absurd (raise_ok (rw (again, no') at h))
        ]
        | inr enough ↦
            at_call c (list_result-is_saved cls resource_name first.0 name r (rw enough at h))
      ]
    where
      at_call :
          (before : C)
          → ((list_call client cls key kwargs before).0 ≡ answered r) ⊎ (is_saved r ≡ true)
          → ((before : C) × ((list_call client cls key kwargs before).0 ≡ answered r))
            ⊎ (is_saved r ≡ true)
      at_call before (inl there) = inl (before, there)
      at_call before (inr saved) = inr saved

  -- A response that `list` returns is an answer of the client, or the raw import that it is saved as has
  -- no resources; a resource named like the key of an error is excepted.
  pub list-raw_resources :
      (retry_on_throttle : Bool) (c : C) {name : String} {r : Dict Value}
      → (list client cls key kwargs retry_on_throttle c).0 ≡ ok (some (name, r))
      → ((before : C) × ((list_call client cls key kwargs before).0 ≡ answered r))
        ⊎ ((row : RawImport)
            → row.raw ≡ dict (to_fields r)
            → str_eq error_key row.resource_name ≡ false
            → raw_resources row ≡ ok (arr no_items))
  unfolding list
  list-raw_resources retry c {name} {r} h = elim (Option-cases (get key client.py_to_op_name)) [
    | inl unknown ↦ absurd (raise_ok (rw (unknown, list) at h))
    | inr (op_name, known) ↦
        elim (named-is_saved (resource_name_of key op_name) retry c name r
          (rw (known, list) at h)) [
            | inl answer ↦ inl answer
            | inr saved ↦ inr (λ row raw other. saved_resources r row saved raw other)
          ]
  ]
