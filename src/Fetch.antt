-- ===== src/Fetch.antt =====
-- introspector/aws/fetch.py: the proxies of the clients of the botocore package, which list and get
-- the resources of a service. The client is a parameter with a state of its own, since one request
-- may be answered differently the next time; what a call answers is a `Reply`.
pub mod Classes
pub mod Calls
use introspector.Prelude.{
  ℕ, String, Bool, true, false, none, some, Option, List, [], ◌∷◌, ◌||◌, filter, any, is_empty,
  str_eq, starts_with, if◌then◌else◌, length,
}
use introspector.Prelude.Text.{split, ends_with, text_from}
use introspector.Prelude.Like.{codes}
use introspector.Prelude.Dict.{Dict, get, merge}
use introspector.Value.{Value, str, null}
use introspector.Outcome.{Outcome, ok, raise, gf_internal, key_error, client_error}
use introspector.Store.Responses.{error_key}
use introspector.Fetch.Classes.{ClientClass, list_args, paginate_args, map_error_code}

-- What becomes of a call: its result, a `KeyError`, a `ParamValidationError`, or a `ClientError` with
-- the code of its response.
pub data Reply : Type 0 where
  answered : Dict Value → Reply
  key_missing : Reply
  invalid_params : Reply
  refused : (code : Option String) → Reply

pub record Client (C : Type 0) : Type 0 where
  pub py_to_op_name : Dict String
  pub can_paginate : String → Bool
  pub output_members : String → List String
  pub paginate : String → Dict Value → C → Reply × C
  pub call : String → Dict Value → C → Reply × C

-- What `list` gives: nothing, or a resource's name and the response for it.
abbrev pub Listed : Type 0
Listed = Option (String × Dict Value)

-- {key: full_result[key] for key in members if key in full_result}
unfoldable pub picked : List String → Dict Value → Dict Value
unfolding get
picked [] full_result = []
picked (key ∷ members) full_result =
    let rest = picked members full_result in
    elim (get key full_result) [ none ↦ rest | some v ↦ (key, v) ∷ rest ]

-- In place of a response, the reason why there is none.
unfoldable pub saved_error : String → String → Outcome Listed
saved_error resource_name why = ok (some (resource_name, (error_key, str why) ∷ []))

unfoldable pub is_auth_failure : String → Bool
is_auth_failure code =
    any (λ c. str_eq c code)
      ("AuthFailure" ∷ "AccessDeniedException" ∷ "UnauthorizedOperation" ∷ "AccessDenied" ∷ [])

unfoldable pub is_throttled : Option String → Bool
is_throttled none = false
is_throttled (some code) = str_eq code "Throttling" || str_eq code "ThrottlingException"

-- The answer to a `ClientError`, except for a throttled call that is to be made again.
unfoldable pub refused_result : ClientClass → String → Option String → Outcome Listed
unfolding saved_error is_auth_failure is_throttled map_error_code
refused_result cls resource_name none = raise client_error
refused_result cls resource_name (some code) =
    if str_eq code "UnsupportedOperation"
    then saved_error resource_name "unsupported in region"
    else if str_eq code "MissingParameter"
    then saved_error resource_name "missing parameter"
    else if str_eq code "OptInRequired"
    then saved_error resource_name "missing opt-in"
    else if is_auth_failure code
    then saved_error resource_name "auth failure"
    else if str_eq code "InvalidClientTokenId"
    then saved_error resource_name "invalid token"
    else if starts_with code "NoSuch"
    then ok none
    else if is_throttled (some code)
    then raise client_error
    else (elim (map_error_code cls code resource_name) [
      | none ↦ raise client_error
      | some why ↦ saved_error resource_name why
    ])

unfoldable pub list_result : ClientClass → String → Reply → Outcome Listed
unfolding saved_error refused_result
list_result cls resource_name (answered result) = ok (some (resource_name, result))
list_result cls resource_name key_missing = raise gf_internal
list_result cls resource_name invalid_params = saved_error resource_name "needs param input"
list_result cls resource_name (refused code) = refused_result cls resource_name code

unfoldable pub is_retried : Reply → Bool
unfolding is_throttled
is_retried (refused code) = is_throttled code
is_retried reply = false

-- op_name[prefix:], without the verb of the method's name
unfoldable pub resource_name_of : String → String → String
unfolding split text_from
resource_name_of key op_name = elim (split b'_' key) [
  | [] ↦ op_name
  | verb ∷ rest ↦ text_from (length (codes verb)) op_name
]

-- {key: full_result.get(key) for key in members}, without the entries that are null
unfoldable pub picked_values : List String → Dict Value → Dict Value
unfolding get
picked_values [] full_result = []
picked_values (key ∷ members) full_result =
    let rest = picked_values members full_result in
    elim (get key full_result) [ none ↦ rest | some null ↦ rest | some v ↦ (key, v) ∷ rest ]

unfoldable pub is_get_denied : String → Bool
is_get_denied error =
    any (λ c. str_eq c error)
      ("AuthFailure" ∷ "MethodNotAllowed" ∷ "AccessDeniedException" ∷ "AccessDenied" ∷ [])

-- What `get` makes of an answer: the entries that are not null, if there are any; `None` as the value of
-- a call without permission.
unfoldable pub get_result : List String → Reply → Outcome (Option (Dict Value))
unfolding picked_values ends_with
get_result members (answered full_result) =
    let result = picked_values members full_result in
    ok (if is_empty result then none else some result)
get_result members key_missing = raise key_error
get_result members invalid_params = raise client_error
get_result members (refused none) = raise client_error
get_result members (refused (some error)) =
    if starts_with error "NoSuch"
      || (ends_with error "NotFoundError"
          || (ends_with error "NotFound" || str_eq error "ResourceNotFoundException"))
    then ok none
    else if is_get_denied error
    then ok none
    else raise client_error

module _ {C : Type 0} (client : Client C) (cls : ClientClass) where
  -- One call, by pages where the client knows how.
  unfoldable pub list_call : String → Dict Value → C → Reply × C
  unfolding merge picked list_args paginate_args
  list_call key kwargs c =
      let extra_kwargs = merge (list_args cls key) kwargs in
      if client.can_paginate key
      then client.paginate key (merge (paginate_args cls key) extra_kwargs) c
      else (let answer = client.call key extra_kwargs c in
          (
            elim answer.0 [
              | answered full_result ↦ answered (picked (client.output_members key) full_result)
              | reply ↦ reply
            ],
            answer.1,
          ))

  unfoldable pub list_named : String → String → Dict Value → Bool → C → Outcome Listed × C
  unfolding list_call list_result is_retried
  list_named resource_name key kwargs retry_on_throttle c =
      let first = list_call key kwargs c in
      let second = list_call key kwargs first.1 in
      if is_retried first.0
      then (if retry_on_throttle
          then (list_result cls resource_name second.0, second.1)
          else (raise client_error, first.1))
      else (list_result cls resource_name first.0, first.1)

  -- ClientProxy.list
  unfoldable pub list : String → Dict Value → Bool → C → Outcome Listed × C
  unfolding get resource_name_of list_named
  list key kwargs retry_on_throttle c = elim (get key client.py_to_op_name) [
    | none ↦ (raise key_error, c)
    | some op_name ↦ list_named (resource_name_of key op_name) key kwargs retry_on_throttle c
  ]

  -- ServiceProxy.list
  unfoldable pub service_list : String → Dict Value → C → Outcome Listed × C
  unfolding list
  service_list resource kwargs c = list resource kwargs true c

  -- ClientProxy.get
  unfoldable pub get_resource : String → Dict Value → C → Outcome (Option (Dict Value)) × C
  unfolding get_result
  get_resource key kwargs c =
      let answer = client.call key kwargs c in
      (get_result (client.output_members key) answer.0, answer.1)
