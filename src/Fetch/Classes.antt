-- ===== src/Fetch/Classes.antt =====
-- introspector/aws/fetch.py: what the classes of the client proxies override. `has_method` tells whether
-- the client has a method.
use introspector.Prelude.{
  String, ◌<>◌, Bool, true, false, not, ◌&&◌, none, some, Option, List, [], ◌∷◌, any, str_eq,
  starts_with, if◌then◌else◌, filter,
}
use introspector.Prelude.Text.{text_from}
use introspector.Prelude.Dict.{Dict, get}
use introspector.Value.{Value, str, num, null, arr, dict, item, no_items, member, no_members}

pub data ClientClass : Type 0 where
  client_proxy ec2_proxy s3_proxy elb_proxy lambda_proxy cloudtrail_proxy rds_proxy iam_proxy :
      ClientClass

abbrev is_in : List String → String → Bool
is_in names name = any (λ n. str_eq n name) names

abbrev pub ec2_skiplist : List String
ec2_skiplist =
    "describe_reserved_instances_offerings" ∷ "describe_transit_gateway_connect_peers"
    ∷ "describe_transit_gateway_connects" ∷ "describe_spot_price_history"
    ∷ "describe_vpc_endpoint_services" ∷ "describe_aggregate_id_format"
    ∷ "describe_moving_addresses" ∷ "describe_id_format" ∷ "describe_tags"
    ∷ "describe_instance_attribute" ∷ []

abbrev pub ec2_gov_skiplist : List String
ec2_gov_skiplist =
    "describe_client_vpn_endpoints" ∷ "describe_managed_prefix_lists"
    ∷ "describe_network_insights_analyses" ∷ "describe_network_insights_paths" ∷ []

abbrev pub extra_args : Dict (Dict Value)
extra_args =
    (
      "describe_images",
      (
        "Filters",
        arr (
            item
              (dict (
                member "Name" (str "is-public")
                  (member "Values" (arr (item (str "false") no_items)) no_members)))
              no_items),
      )
          ∷ [],
    )
    ∷ ("describe_snapshots", ("OwnerIds", arr (item (str "self") no_items)) ∷ [])
    ∷ []

abbrev pub page_sizes : Dict Value
page_sizes =
    ("describe_ipv6_pools", num "10")
    ∷ ("describe_public_ipv4_pools", num "10")
    ∷ ("describe_reserved_instances_modifications", null)
    ∷ []

abbrev pub invalid_actions : List String
invalid_actions =
    "FpgaImages" ∷ "TransitGatewayMulticastDomains" ∷ "ByoipCidrs" ∷ "Ipv6Pools" ∷ "CoipPools"
    ∷ "LocalGatewayRouteTableVirtualInterfaceGroupAssociations"
    ∷ "LocalGatewayRouteTableVpcAssociations" ∷ "LocalGatewayRouteTables"
    ∷ "LocalGatewayVirtualInterfaceGroups" ∷ "LocalGatewayVirtualInterfaces" ∷ "LocalGateways" ∷ []

abbrev pub s3_skiplist : List String
s3_skiplist =
    "get_bucket_notification" ∷ "get_bucket_lifecycle"
    ∷ "list_bucket_intelligent_tiering_configurations" ∷ []

abbrev pub s3_gov_skiplist : List String
s3_gov_skiplist = "get_bucket_accelerate_configuration" ∷ []

abbrev pub elb_skiplist : List String
elb_skiplist =
    "describe_load_balancers" ∷ "describe_account_limits" ∷ "describe_instance_health"
    ∷ "describe_load_balancer_policy_types" ∷ []

abbrev pub rds_skiplist : List String
rds_skiplist =
    "describe_custom_availability_zones" ∷ "describe_installation_media" ∷ "describe_export_tasks"
    ∷ "describe_reserved_db_instances_offerings" ∷ "describe_db_engine_versions"
    ∷ "describe_valid_db_instance_modifications" ∷ "describe_option_group_options"
    ∷ "describe_db_proxies" ∷ "describe_global_clusters" ∷ "describe_db_snapshots"
    ∷ "describe_db_cluster_snapshots" ∷ []

-- S3ClientProxy._should_import
unfoldable pub s3_should_import : Bool → (String → Bool) → String → Bool
unfolding text_from
s3_should_import is_gov has_method key =
    if is_in s3_skiplist key
    then false
    else if is_gov && is_in s3_gov_skiplist key
    then false
    else if starts_with key "list_bucket_"
    then true
    else if starts_with key "get_bucket_"
    then not (has_method ("list_bucket_" <> (text_from 11 key <> "s")))
    else false

-- _should_import
unfoldable pub should_import : ClientClass → Bool → (String → Bool) → String → Bool
unfolding s3_should_import
should_import client_proxy is_gov has_method key = true
should_import ec2_proxy is_gov has_method key =
    starts_with key "describe_"
    && (not (is_in ec2_skiplist key) && not (is_gov && is_in ec2_gov_skiplist key))
should_import s3_proxy is_gov has_method key = s3_should_import is_gov has_method key
should_import elb_proxy is_gov has_method key =
    starts_with key "describe_" && not (is_in elb_skiplist key)
should_import lambda_proxy is_gov has_method key = starts_with key "list_"
should_import cloudtrail_proxy is_gov has_method key = starts_with key "describe_"
should_import rds_proxy is_gov has_method key =
    starts_with key "describe_" && not (is_in rds_skiplist key)
should_import iam_proxy is_gov has_method key = starts_with key "list_"

-- resource_names, of the methods of the client
unfoldable pub resource_names : ClientClass → Bool → List String → List String
unfolding should_import
resource_names cls is_gov methods = filter (should_import cls is_gov (is_in methods)) methods

-- _list_args
unfoldable pub list_args : ClientClass → String → Dict Value
unfolding get
list_args ec2_proxy key = elim (get key extra_args) [ none ↦ [] | some args ↦ args ]
list_args cls key = []

-- _paginate_args
unfoldable pub paginate_args : ClientClass → String → Dict Value
unfolding get
paginate_args ec2_proxy key =
    (
      "PaginationConfig",
      dict (
          member "PageSize" (elim (get key page_sizes) [ none ↦ num "100" | some size ↦ size ])
            no_members),
    )
    ∷ []
paginate_args cls key = []

-- _map_error_code
unfoldable pub map_error_code : ClientClass → String → String → Option String
map_error_code ec2_proxy code resource_name =
    if str_eq code "InvalidSpotDatafeed.NotFound"
    then some "Missing subscription"
    else if str_eq code "InvalidAction" && is_in invalid_actions resource_name
    then some "Missing Input params"
    else none
map_error_code cls code resource_name = none

-- AWSFetch.SVC_CLASS.get(service, ClientProxy)
unfoldable pub client_class : String → ClientClass
client_class service =
    if str_eq service "ec2"
    then ec2_proxy
    else if str_eq service "s3"
    then s3_proxy
    else if str_eq service "elb"
    then elb_proxy
    else if str_eq service "iam"
    then iam_proxy
    else if str_eq service "rds"
    then rds_proxy
    else if str_eq service "lambda"
    then lambda_proxy
    else if str_eq service "cloudtrail"
    then cloudtrail_proxy
    else client_proxy
