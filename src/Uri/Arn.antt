-- ===== src/Uri/Arn.antt =====
-- introspector/aws/uri.py: `arn_fn`, by the service, and its end for the services that have no uri
-- function of their own.
use introspector.Prelude.{
  String, ◌<>◌, Bool, ◌&&◌, ◌||◌, Option, none, some, [], ◌∷◌, str_eq, if◌then◌else◌,
}
use introspector.Prelude.Text.{join}
use introspector.Prelude.Dict.{Dict, get, has, remove}
use introspector.Outcome.{Outcome, ok, raise, gf_internal, gf_error, ◌>>=◌}
use introspector.Value.{Value, null, str}
use introspector.Uri.Args.{
  Uri, exact, like, concat, arg, arg_or, require, is_text, non_null, get_with_parent, lower_of,
}
use introspector.Uri.Services.{
  show, iam_uri_fn, elb_arn_fn, ec2_arn_fn, logs_uri_fn, config_uri_fn, apigateway_uri_fn,
  apigatewayv2_uri_fn, redshift_uri_fn, cloudwatch_metrics, elastic_beanstalk,
}

module _ (repr : Value → String) where
  -- The end of `arn_fn`: the services that have no function of their own.
  unfoldable pub region_or_empty : String → Value → Outcome Value
  region_or_empty service null = if str_eq service "route53" then ok (str "") else raise gf_internal
  region_or_empty service region = ok region

  unfoldable pub keeps_case : String → Bool
  keeps_case service =
      str_eq service "autoscaling"
      || (str_eq service "kms"
          || (str_eq service "route53"
              || (str_eq service "ssm"
                  || (str_eq service "eks" || str_eq service "elasticbeanstalk"))))

  unfoldable pub plain_arn : String → Value → Value → Value → Value → Value → Outcome Uri
  unfolding is_text keeps_case lower_of show join concat
  plain_arn service partition account_id resource_name region id =
      let start = join "" (
        "arn:"
        ∷ show repr partition
        ∷ ":"
        ∷ service
        ∷ ":"
        ∷ show repr region
        ∷ ":"
        ∷ show repr account_id
        ∷ ":"
        ∷ []) in
      if str_eq service "autoscaling" && is_text "launchConfiguration" resource_name
      then ok (like (start <> "launchConfiguration:") ("launchConfigurationName/" <> show repr id))
      else if keeps_case service
      then concat (start ∷ show repr resource_name ∷ "/" ∷ show repr id ∷ [])
      else (do
        name ← lower_of resource_name
        concat (start ∷ show repr name ∷ ":" ∷ show repr id ∷ []))

  unfoldable pub default_arn : String → Value → Value → Value → Dict Value → Outcome Uri
  unfolding arg non_null get_with_parent region_or_empty plain_arn
  default_arn service partition account_id resource_name kwargs = do
    id ← non_null (arg "id" kwargs)
    found ← get_with_parent "region" kwargs
    region ← region_or_empty service found
    plain_arn service partition account_id resource_name region id

  unfoldable pub service_arn : String → Value → Value → Value → Dict Value → Outcome Uri
  unfolding ec2_arn_fn elb_arn_fn iam_uri_fn logs_uri_fn config_uri_fn apigateway_uri_fn
      apigatewayv2_uri_fn redshift_uri_fn cloudwatch_metrics elastic_beanstalk default_arn require
  service_arn service partition account_id resource_name kwargs =
      if str_eq service "ec2"
      then ec2_arn_fn repr resource_name account_id partition kwargs
      else if str_eq service "s3"
      then (do
        name ← require "name" kwargs
        concat ("arn:" ∷ show repr partition ∷ ":s3:::" ∷ show repr name ∷ []))
      else if str_eq service "elb"
      then elb_arn_fn repr resource_name partition account_id kwargs
      else if str_eq service "iam"
      then iam_uri_fn repr resource_name partition account_id kwargs
      else if str_eq service "logs"
      then logs_uri_fn repr partition account_id resource_name kwargs
      else if str_eq service "config"
      then config_uri_fn repr resource_name kwargs
      else if str_eq service "apigateway"
      then apigateway_uri_fn repr partition account_id resource_name kwargs
      else if str_eq service "apigatewayv2"
      then apigatewayv2_uri_fn repr partition account_id resource_name kwargs
      else if str_eq service "redshift"
      then redshift_uri_fn repr partition account_id resource_name kwargs
      else if str_eq service "cloudwatch" && is_text "metric" resource_name
      then cloudwatch_metrics repr kwargs
      else if str_eq service "elasticbeanstalk" && is_text "applicationversion" resource_name
      then elastic_beanstalk repr partition account_id resource_name kwargs
      else default_arn service partition account_id resource_name kwargs

  -- `kwargs` has no key that is the name of a parameter: Python refuses such a call.
  unfoldable pub arn_fn : String → Value → Value → Dict Value → Outcome Uri
  unfolding get has require remove arg_or service_arn
  arn_fn service partition account_id kwargs = elim (get "uri" kwargs) [
    | some uri ↦ ok (exact uri)
    | none ↦ do
      resource_name ← require "resource_name" kwargs
      let rest = remove "resource_name" kwargs
      let account = arg_or account_id "account_id" rest
      service_arn service partition account resource_name rest
  ]

-- The keyword arguments that `get_arn_fn` fixes.
unfoldable pub arn_account : String → Option String → Outcome String
arn_account master none = ok master
arn_account master (some subaccount) =
    if str_eq subaccount master then ok master else raise gf_error
