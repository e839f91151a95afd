-- ===== src/Uri/Services.antt =====
-- introspector/aws/uri.py: the uri functions of the services that have one. Python's text of a
-- number, a list or an object in an f-string is the parameter `repr`.
use introspector.Prelude.{String, ◌<>◌, true, false, ◌&&◌, ◌||◌, List, [], ◌∷◌, if◌then◌else◌}
use introspector.Prelude.Text.{join}
use introspector.Prelude.Dict.{Dict, has}
use introspector.Outcome.{Outcome, ok, raise, gf_internal, type_error, ◌>>=◌}
use introspector.Value.{Value, null, bool, str, arr, dict, items, Fields}
use introspector.Uri.Args.{
  Uri, security_group, concat, arg, require, is_null, is_text, non_null, zone_to_region,
  get_with_parent, or_else, item_of, require_account_id, lower_of, require_region,
}

module _ (repr : Value → String) where
  -- str(v), as an f-string has it
  unfoldable pub show : Value → String
  show null = "None"
  show (bool true) = "True"
  show (bool false) = "False"
  show (str s) = s
  show v = repr v

  unfoldable pub iam_uri_fn : Value → Value → Value → Dict Value → Outcome Uri
  unfolding is_text require show concat
  iam_uri_fn resource_name partition account_id kwargs =
      if is_text "policy-version" resource_name
      then (do
        policy_arn ← require "policy_arn" kwargs
        version_id ← require "version_id" kwargs
        concat (show policy_arn ∷ ":" ∷ show version_id ∷ []))
      else if is_text "RolePolicy" resource_name
          || (is_text "UserPolicy" resource_name || is_text "GroupPolicy" resource_name)
      then (do
        arn ← require "arn" kwargs
        policy_name ← require "policy_name" kwargs
        concat (show arn ∷ ":" ∷ show policy_name ∷ []))
      else if is_text "PasswordPolicy" resource_name
      then concat (show account_id ∷ "/PasswordPolicy" ∷ [])
      else if is_text "instance-profile" resource_name
      then (do
        id ← require "id" kwargs
        concat (
            "arn:"
            ∷ show partition
            ∷ ":iam::"
            ∷ show account_id
            ∷ ":"
            ∷ show resource_name
            ∷ "/"
            ∷ show id
            ∷ []))
      else if is_text "signing-certificate" resource_name
      then (do
        id ← require "certificate_id" kwargs
        concat (
            "arn:"
            ∷ show partition
            ∷ ":iam::"
            ∷ show account_id
            ∷ ":"
            ∷ show resource_name
            ∷ "/"
            ∷ show id
            ∷ []))
      else raise gf_internal

  unfoldable pub elb_in_region : Value → Value → Value → Dict Value → Value → Outcome Uri
  unfolding is_text require show concat
  elb_in_region resource_name partition account_id kwargs region =
      if is_text "loadbalancer" resource_name
      then (do
        name ← require "name" kwargs
        concat (
            "arn:"
            ∷ show partition
            ∷ ":elasticloadbalancing:"
            ∷ show region
            ∷ ":"
            ∷ show account_id
            ∷ ":loadbalancer/"
            ∷ show name
            ∷ []))
      else if is_text "Listener" resource_name
      then (do
        loadbalancer_name ← require "loadbalancer_name" kwargs
        listener_id ← require "listener_id" kwargs
        concat (
            "arn:"
            ∷ show partition
            ∷ ":elasticloadbalancing:"
            ∷ show region
            ∷ ":"
            ∷ show account_id
            ∷ ":listener/"
            ∷ show loadbalancer_name
            ∷ "/"
            ∷ show listener_id
            ∷ []))
      else raise gf_internal

  unfoldable pub elb_arn_fn : Value → Value → Value → Dict Value → Outcome Uri
  unfolding require item_of elb_in_region
  elb_arn_fn resource_name partition account_id kwargs = do
    context ← require "context" kwargs
    region ← item_of "region" context
    elb_in_region resource_name partition account_id kwargs region

  -- The region of an EC2 resource, or the one of its zone.
  unfoldable pub ec2_region : Dict Value → Outcome Value
  unfolding get_with_parent zone_to_region non_null
  ec2_region kwargs = do
    region ← get_with_parent "region" kwargs
    found ← or_else region (do
      zone ← get_with_parent "zone" kwargs
      elim zone [ null ↦ ok null | z ↦ zone_to_region z ])
    non_null found

  unfoldable pub ec2_arn_fn : Value → Value → Value → Dict Value → Outcome Uri
  unfolding is_text has require ec2_region lower_of show concat
  ec2_arn_fn resource_name account partition kwargs =
      if is_text "security-group" resource_name && (if has "id" kwargs then false else true)
      then ok (security_group kwargs)
      else (do
        id ← require "id" kwargs
        region ← ec2_region kwargs
        name ← lower_of resource_name
        concat (
            "arn:"
            ∷ show partition
            ∷ ":ec2:"
            ∷ show region
            ∷ ":"
            ∷ show account
            ∷ ":"
            ∷ show name
            ∷ "/"
            ∷ show id
            ∷ []))

  unfoldable pub logs_uri_fn : Value → Value → Value → Dict Value → Outcome Uri
  unfolding is_text require get_with_parent lower_of show concat
  logs_uri_fn partition account_id resource_name kwargs =
      if is_text "metric-filter" resource_name
      then (do
        arn ← get_with_parent "arn" kwargs
        name ← require "filter_name" kwargs
        concat (show arn ∷ ":" ∷ show resource_name ∷ ":" ∷ show name ∷ []))
      else if is_text "log-group" resource_name
      then (do
        region ← get_with_parent "region" kwargs
        id ← require "log_group_id" kwargs
        name ← lower_of resource_name
        concat (
            "arn:"
            ∷ show partition
            ∷ ":logs:"
            ∷ show region
            ∷ ":"
            ∷ show account_id
            ∷ ":"
            ∷ show name
            ∷ ":"
            ∷ show id
            ∷ ":*"
            ∷ []))
      else raise gf_internal

  unfoldable pub config_uri_fn : Value → Dict Value → Outcome Uri
  unfolding is_text require require_region require_account_id show concat
  config_uri_fn resource_name kwargs =
      if is_text "ConfigurationRecorder" resource_name
      then (do
        name ← require "name" kwargs
        region ← require_region kwargs
        account_id ← require_account_id kwargs
        concat (
            "configurationRecorders/" ∷ show account_id ∷ "/" ∷ show region ∷ "/" ∷ show name ∷ []))
      else raise gf_internal

  -- The two generations of the API gateway differ in the name of the API.
  unfoldable pub gateway_uri_fn : String → Value → Value → Value → Dict Value → Outcome Uri
  unfolding is_text arg non_null require_region get_with_parent show concat
  gateway_uri_fn api_name partition account_id resource_name kwargs = do
    id ← non_null (arg "id" kwargs)
    region ← require_region kwargs
    let api =
        "arn:"
        <> (show partition
            <> (":execute-api:" <> (show region <> (":" <> (show account_id <> ":")))))
    if is_text api_name resource_name
        then concat (api ∷ show id ∷ [])
        else if is_text "Stage" resource_name
        then (do
          found ← get_with_parent "apiId" kwargs
          api_id ← non_null found
          concat (api ∷ show api_id ∷ "/" ∷ show id ∷ []))
        else raise gf_internal

  unfoldable pub apigatewayv2_uri_fn : Value → Value → Value → Dict Value → Outcome Uri
  unfolding gateway_uri_fn
  apigatewayv2_uri_fn = gateway_uri_fn "Api"

  unfoldable pub apigateway_uri_fn : Value → Value → Value → Dict Value → Outcome Uri
  unfolding gateway_uri_fn
  apigateway_uri_fn = gateway_uri_fn "RestApi"

  unfoldable pub redshift_uri_fn : Value → Value → Value → Dict Value → Outcome Uri
  unfolding is_text arg non_null require_region show concat
  redshift_uri_fn partition account_id resource_name kwargs = do
    id ← non_null (arg "id" kwargs)
    region ← require_region kwargs
    if is_text "cluster" resource_name
        then concat (
            "arn:"
            ∷ show partition
            ∷ ":redshift:"
            ∷ show region
            ∷ ":"
            ∷ show account_id
            ∷ ":cluster:"
            ∷ show id
            ∷ [])
        else raise gf_internal

  -- The dimensions of a metric that have a value.
  unfoldable pub dimension_texts : List Value → Outcome (List String)
  unfolding item_of is_null show concat
  dimension_texts [] = ok []
  dimension_texts (dim ∷ dims) = do
    value ← item_of "Value" dim
    if is_null value then dimension_texts dims else (do
      name ← item_of "Name" dim
      texts ← dimension_texts dims
      ok ((show name <> ("_" <> show value)) ∷ texts))

  -- The items of a list; `None` and other empty values count as the empty list. A text or an object
  -- would be iterated by characters or keys, and the subscript of the first one raises.
  unfoldable pub dimension_list : Value → Outcome (List Value)
  unfolding items
  dimension_list null = ok []
  dimension_list (bool false) = ok []
  dimension_list (arr vs) = ok (items vs)
  dimension_list (dict Fields.no_members) = ok []
  dimension_list (str String.[]) = ok []
  dimension_list _ = raise type_error

  unfoldable pub cloudwatch_metrics : Dict Value → Outcome Uri
  unfolding require require_region require_account_id dimension_list dimension_texts show join
      concat
  cloudwatch_metrics kwargs = do
    region ← require_region kwargs
    account_id ← require_account_id kwargs
    name ← require "metric_name" kwargs
    namespace ← require "metric_namespace" kwargs
    given ← require "metric_dimensions" kwargs
    dims ← dimension_list given
    texts ← dimension_texts dims
    concat (
        "metrics/"
        ∷ show account_id
        ∷ "/"
        ∷ show region
        ∷ "/"
        ∷ show namespace
        ∷ "/"
        ∷ show name
        ∷ "/"
        ∷ join "$" texts
        ∷ [])

  unfoldable pub elastic_beanstalk : Value → Value → Value → Dict Value → Outcome Uri
  unfolding is_text require get_with_parent show concat
  elastic_beanstalk partition account_id resource_name kwargs =
      if is_text "applicationversion" resource_name
      then (do
        version_label ← require "id" kwargs
        application_name ← require "application_name" kwargs
        region ← get_with_parent "region" kwargs
        concat (
            "arn:"
            ∷ show partition
            ∷ ":elasticbeanstalk:"
            ∷ show region
            ∷ ":"
            ∷ show account_id
            ∷ ":applicationversion/"
            ∷ show application_name
            ∷ "/"
            ∷ show version_label
            ∷ []))
      else raise gf_internal
