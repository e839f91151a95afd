-- ===== src/Uri/Inherit.antt =====
-- introspector/aws/uri.py: a region that a resource inherits from its parent or its context stands for
-- one that it is given as its own argument.
use introspector.Uri.Args.{
  or_else, is_null, is_text, arg_or, arg, require, get_with_parent, require_region,
  require_account_id, parent_args,
}
use introspector.Prelude.{
  arith, Bool, ◌&&◌, ◌≡◌, refl, String, true, false, str_eq, sym, ◌∙◌, eq_refl, Option-cases, inl,
  inr,
}
use introspector.Prelude.Dict.{Dict, get, has, put, remove, get-put, get-remove}
use introspector.Outcome.{Outcome, >>=-ext, ok}
use introspector.Value.{Value, null, bool, num, str, arr, dict}
use introspector.Uri.Arn.{default_arn, service_arn, arn_fn}
use introspector.Uri.Services.{
  apigateway_uri_fn, apigatewayv2_uri_fn, iam_uri_fn, elb_arn_fn, ec2_arn_fn, ec2_region,
  logs_uri_fn, config_uri_fn, gateway_uri_fn, redshift_uri_fn, cloudwatch_metrics,
  elastic_beanstalk, elb_in_region,
}

-- Two dictionaries of arguments with one region, inherited or not, and the same other arguments.
pub record SameArgs (d e : Dict Value) : Type 0 where
  pub reads : (k : String) → str_eq "region" k ≡ false → get k d ≡ get k e
  pub region : get_with_parent "region" d ≡ get_with_parent "region" e

no_group : (b : Bool) → (b && false) ≡ false
no_group b = ground arith

module _ {d e : Dict Value} (same : SameArgs d e) where
  arg_lem : (k : String) → str_eq "region" k ≡ false → arg k d ≡ arg k e
  unfolding arg
  arg_lem k h = rw (arg, same.reads k h) refl

  require_lem : (k : String) → str_eq "region" k ≡ false → require k d ≡ require k e
  unfolding require
  require_lem k h = rw (require, same.reads k h) refl

  has_lem : (k : String) → str_eq "region" k ≡ false → has k d ≡ has k e
  unfolding has
  has_lem k h = rw (has, same.reads k h) refl

  parent_args_lem : parent_args d ≡ parent_args e
  unfolding parent_args
  parent_args_lem = rw (parent_args, same.reads "parent_uri" refl) refl

  parent_lem : (k : String) → str_eq "region" k ≡ false → get_with_parent k d ≡ get_with_parent k e
  unfolding get_with_parent
  parent_lem k h = rw (arg_lem k h, parent_args_lem, arg_lem "context" refl) refl

  require_region_lem : require_region d ≡ require_region e
  unfolding require_region
  require_region_lem = rw same.region refl

  require_account_id_lem : require_account_id d ≡ require_account_id e
  unfolding require_account_id
  require_account_id_lem = rw (parent_lem "path" refl) refl

  module _ (repr : Value → String) (partition account name : Value) where
    iam_lem : iam_uri_fn repr name partition account d ≡ iam_uri_fn repr name partition account e
    unfolding iam_uri_fn
    iam_lem =
        rw
          (
            require_lem "policy_arn" refl,
            require_lem "version_id" refl,
            require_lem "arn" refl,
            require_lem "policy_name" refl,
            require_lem "id" refl,
            require_lem "certificate_id" refl,
          )
          refl

    elb_lem : elb_arn_fn repr name partition account d ≡ elb_arn_fn repr name partition account e
    unfolding elb_arn_fn elb_in_region
    elb_lem =
        rw
          (
            require_lem "context" refl,
            require_lem "name" refl,
            require_lem "loadbalancer_name" refl,
            require_lem "listener_id" refl,
          )
          refl

    ec2_lem :
        has "id" d ≡ true
        → ec2_arn_fn repr name account partition d ≡ ec2_arn_fn repr name account partition e
    unfolding ec2_arn_fn ec2_region
    ec2_lem h =
        rw
          (
            has_lem "id" refl,
            sym (has_lem "id" refl) ∙ h,
            no_group (is_text "security-group" name),
            require_lem "id" refl,
            same.region,
            parent_lem "zone" refl,
          )
          refl

    logs_lem : logs_uri_fn repr partition account name d ≡ logs_uri_fn repr partition account name e
    unfolding logs_uri_fn
    logs_lem =
        rw
          (
            parent_lem "arn" refl,
            require_lem "filter_name" refl,
            same.region,
            require_lem "log_group_id" refl,
          )
          refl

    config_lem : config_uri_fn repr name d ≡ config_uri_fn repr name e
    unfolding config_uri_fn
    config_lem = rw (require_lem "name" refl, require_region_lem, require_account_id_lem) refl

    gateway_lem :
        (api : String)
        → gateway_uri_fn repr api partition account name d
          ≡ gateway_uri_fn repr api partition account name e
    unfolding gateway_uri_fn
    gateway_lem api = rw (arg_lem "id" refl, require_region_lem, parent_lem "apiId" refl) refl

    redshift_lem :
        redshift_uri_fn repr partition account name d
        ≡ redshift_uri_fn repr partition account name e
    unfolding redshift_uri_fn
    redshift_lem = rw (arg_lem "id" refl, require_region_lem) refl

    cloudwatch_lem : cloudwatch_metrics repr d ≡ cloudwatch_metrics repr e
    unfolding cloudwatch_metrics
    cloudwatch_lem =
        rw
          (
            require_region_lem,
            require_account_id_lem,
            require_lem "metric_name" refl,
            require_lem "metric_namespace" refl,
            require_lem "metric_dimensions" refl,
          )
          refl

    beanstalk_lem :
        elastic_beanstalk repr partition account name d
        ≡ elastic_beanstalk repr partition account name e
    unfolding elastic_beanstalk
    beanstalk_lem =
        rw (require_lem "id" refl, require_lem "application_name" refl, same.region) refl

    plain_lem :
        (service : String)
        → default_arn repr service partition account name d
          ≡ default_arn repr service partition account name e
    unfolding default_arn
    plain_lem service = rw (arg_lem "id" refl, same.region) refl

    service_arn_lem :
        (service : String)
        → has "id" d ≡ true
        → service_arn repr service partition account name d
          ≡ service_arn repr service partition account name e
    unfolding service_arn apigateway_uri_fn apigatewayv2_uri_fn
    service_arn_lem service h =
        rw
          (
            ec2_lem h,
            elb_lem,
            iam_lem,
            logs_lem,
            config_lem,
            gateway_lem "RestApi",
            gateway_lem "Api",
            redshift_lem,
            cloudwatch_lem,
            beanstalk_lem,
            plain_lem service,
            require_lem "name" refl,
          )
          refl

remove-SameArgs :
    {d e : Dict Value}
    → SameArgs d e
    → SameArgs (remove "resource_name" d) (remove "resource_name" e)
unfolding get_with_parent arg parent_args
remove-SameArgs {d} {e} same = record {
  reads = λ k h.
      ground
        (arith, get-remove "resource_name" k d, get-remove "resource_name" k e, same.reads k h);
  region = kept d ∙ (same.region ∙ sym (kept e));
}
  where
    kept :
        (d : Dict Value)
        → get_with_parent "region" (remove "resource_name" d) ≡ get_with_parent "region" d
    kept d =
        rw
          (
            get_with_parent,
            arg,
            parent_args,
            get-remove "resource_name" "region" d,
            get-remove "resource_name" "parent_uri" d,
            get-remove "resource_name" "context" d,
          )
          refl

or_else_given : (r : Value) (next : Outcome Value) → is_null r ≡ false → or_else r next ≡ ok r
unfolding or_else is_null
or_else_given null next h = cc
or_else_given (bool b) next h = refl
or_else_given (num n) next h = refl
or_else_given (str s) next h = refl
or_else_given (arr vs) next h = refl
or_else_given (dict fs) next h = refl

arg-put : (k : String) (r : Value) (d : Dict Value) → arg k (put k r d) ≡ r
unfolding arg
arg-put k r d = rw (arg, get-put k k r d, eq_refl k) refl

put-SameArgs :
    (d : Dict Value) (r : Value)
    → get_with_parent "region" d ≡ ok r
    → is_null r ≡ false
    → SameArgs d (put "region" r d)
unfolding get_with_parent
put-SameArgs d r h k = record {
  reads = λ j n. ground (arith, get-put "region" j r d, n);
  region = h ∙ sym (rw (get_with_parent, arg-put "region" r d) (or_else_given r _ k));
}

arn_fn_lem :
    (repr : Value → String) (service : String) (partition account_id : Value) {d e : Dict Value}
    → SameArgs d e
    → has "id" d ≡ true
    → arn_fn repr service partition account_id d ≡ arn_fn repr service partition account_id e
unfolding arn_fn has
arn_fn_lem repr service partition account_id {d} {e} same named =
    elim (Option-cases (get "uri" e)) [
      | inl absent ↦
          rw
            (
              arn_fn,
              same.reads "uri" refl,
              absent,
              require_lem same "resource_name" refl,
              arg_or,
              rest.reads "account_id" refl,
            )
            (>>=-ext (require "resource_name" e) _ _ (λ name.
              service_arn_lem rest repr partition
                (arg_or account_id "account_id" (remove "resource_name" e)) name service
                still_named))
      | inr (uri, there) ↦ rw (arn_fn, same.reads "uri" refl, there) refl
    ]
  where
    rest : SameArgs (remove "resource_name" d) (remove "resource_name" e)
    rest = remove-SameArgs same

    still_named : has "id" (remove "resource_name" d) ≡ true
    still_named = rw (has, get-remove "resource_name" "id" d) named

-- `arn_fn` gives the same uri, or the same error, whether the region of a resource is an argument of its
-- own or is inherited from the parent's uri or from the context. It is assumed that the region is
-- found, and that the resource is named by its `id`.
pub arn_fn-put :
    (repr : Value → String) (service : String) (partition account_id : Value) (kwargs : Dict Value)
    (region : Value)
    → get_with_parent "region" kwargs ≡ ok region
    → is_null region ≡ false
    → has "id" kwargs ≡ true
    → arn_fn repr service partition account_id kwargs
      ≡ arn_fn repr service partition account_id (put "region" region kwargs)
arn_fn-put repr service partition account_id kwargs region found given named =
    arn_fn_lem repr service partition account_id (put-SameArgs kwargs region found given) named
