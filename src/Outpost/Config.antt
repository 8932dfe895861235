-- ===== src/Outpost/Config.antt =====
-- `validate_config` of crates/outpost/src/lib.rs, with the tests of each destination.
use mongodb_dam.Common.{
  Bool, false, not, ◌&&◌, ◌||◌, Option, none, some, Bytes, List, [], ◌∷◌, ltb, if◌then◌else◌,
  bytes_eq, one_of, any_control, codes,
}
use Prim.Native.String.{String}
use mongodb_dam.Common.Outcome.{Outcome, ok, err, ◌>>◌}
use mongodb_dam.Common.Space.{is_blank, trim}
use mongodb_dam.Schema.Validate.{is_some}
use mongodb_dam.Outpost.State.{
  Platform, Url, OutpostConfig, DestinationConfig, http, s3, HttpDestinationConfig,
  S3DestinationConfig,
}
use mongodb_dam.Outpost.Identity.{is_empty}
use mongodb_dam.Outpost.ObjectKey.{normalized_s3_prefix}

-- The texts of the errors.
pub data ConfigError : Type 0 where
  empty_identity empty_endpoint empty_token invalid_url insecure_url url_credentials : ConfigError
  empty_bucket bucket_space bucket_control empty_prefix prefix_control : ConfigError
  no_request_bytes : ConfigError

abbrev ensure : Bool → ConfigError → Outcome ConfigError (Unit {0})
ensure holds e = if holds then ok tt else err e

-- `matches!(host, Some(…))`
abbrev pub host_is : List String → Option Bytes → Bool
host_is names none = false
host_is names (some host) = one_of names host

-- HTTPS, or HTTP to one of the hosts.
unfoldable pub is_secure : List String → Url → Bool
unfolding bytes_eq one_of
is_secure names url =
    bytes_eq url.scheme (codes "https")
    || (bytes_eq url.scheme (codes "http") && host_is names url.host_str)

abbrev pub has_credentials : Url → Bool
has_credentials url = not (is_empty url.username) || is_some url.password

unfoldable pub check_url : List String → Option Url → Outcome ConfigError (Unit {0})
unfolding is_secure
check_url names none = err invalid_url
check_url names (some url) = do
  ensure (is_secure names url) insecure_url
  ensure (not (has_credentials url)) url_credentials

module _ (S : Platform) where
  unfoldable pub validate_http_destination : HttpDestinationConfig → Outcome ConfigError (Unit {0})
  unfolding is_blank check_url
  validate_http_destination destination = do
    ensure (not (is_blank destination.endpoint)) empty_endpoint
    ensure (not (is_blank destination.bearer_token)) empty_token
    check_url ("127.0.0.1" ∷ "localhost" ∷ "mock-endpoint" ∷ []) (S.parse_url destination.endpoint)

  unfoldable pub check_endpoint : Option Bytes → Outcome ConfigError (Unit {0})
  unfolding check_url
  check_endpoint none = ok tt
  check_endpoint (some value) = check_url ("127.0.0.1" ∷ "localhost" ∷ []) (S.parse_url value)

  unfoldable pub validate_s3_destination : S3DestinationConfig → Outcome ConfigError (Unit {0})
  unfolding check_endpoint any_control bytes_eq normalized_s3_prefix
  validate_s3_destination destination =
      let bucket = trim destination.bucket in
      let prefix = normalized_s3_prefix destination.prefix in
      do
        ensure (not (is_empty bucket)) empty_bucket
        ensure (bytes_eq bucket destination.bucket) bucket_space
        ensure (not (any_control bucket)) bucket_control
        ensure (not (is_empty prefix)) empty_prefix
        ensure (not (any_control prefix)) prefix_control
        check_endpoint destination.endpoint_url

  unfoldable pub validate_destination : DestinationConfig → Outcome ConfigError (Unit {0})
  unfolding validate_http_destination validate_s3_destination
  validate_destination (http destination) = validate_http_destination destination
  validate_destination (s3 destination) = validate_s3_destination destination

  unfoldable pub validate_config : OutpostConfig → Outcome ConfigError (Unit {0})
  unfolding validate_destination is_blank
  validate_config config = do
    ensure (not (is_blank config.customer_id)) empty_identity
    ensure (not (is_blank config.tenant_id)) empty_identity
    ensure (not (is_blank config.source_id)) empty_identity
    ensure (not (is_blank config.regional_cell_id)) empty_identity
    ensure (not (is_blank config.cluster_name)) empty_identity
    validate_destination config.destination
    ensure (ltb 0 config.max_request_bytes) no_request_bytes
