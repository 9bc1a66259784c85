-- ===== src/Storage/S3/Construction.antt =====
-- S3Backend::new of crates/storage/src/s3.rs: the settings of the client, and what it may talk to.
use oa_libs.Base.{
  Bool, true, false, none, some, inl, inr, Option-cases, ◌≡◌, ◌↔◌, ◌++◌, Result, map_err, arith,
}
use oa_libs.Std.Text.{Text, codes, strip_prefix}
use oa_libs.Std.Text.Laws.{strip_prefix_iff}
use oa_libs.Storage.Traits.{StorageError, backend}

-- The settings of `AmazonS3Builder` that the source makes.
pub record StoreConfig : Type 0 where
  pub endpoint : Text
  pub region : Text
  pub bucket : Text
  pub access_key_id : Text
  pub secret_access_key : Text
  pub allow_http : Bool
  pub virtual_hosted_style_request : Bool

-- `endpoint.starts_with("http://")`.
is_plain : Text → Bool
is_plain endpoint = elim (strip_prefix (codes "http://") endpoint) as (λ _. Bool) [
  | none ↦ false
  | some _ ↦ true
]

-- The calls on the builder.
store_config : Text → Text → Text → Text → Text → StoreConfig
unfolding is_plain
store_config endpoint region bucket access_key secret_key = record {
  endpoint = endpoint;
  region = region;
  bucket = bucket;
  access_key_id = access_key;
  secret_access_key = secret_key;
  allow_http = is_plain endpoint;
  virtual_hosted_style_request = false;
}

-- S3Backend::new, over `AmazonS3Builder::build`, whose error is its text.
pub new_backend :
    {Store : Type 0}
    → (StoreConfig → Result Store Text)
    → Text
    → Text
    → Text
    → Text
    → Text
    → Result Store StorageError
unfolding store_config
new_backend build endpoint region bucket access_key secret_key =
    map_err backend (build (store_config endpoint region bucket access_key secret_key))

-- The client may use a connection without TLS exactly if the endpoint itself begins with `http://`.
allow_http_iff :
    (endpoint region bucket access_key secret_key : Text)
    → ((store_config endpoint region bucket access_key secret_key).allow_http ≡ true)
      ↔ ((rest : Text) × (endpoint ≡ codes "http://" ++ rest))
unfolding store_config is_plain
allow_http_iff endpoint region bucket access_key secret_key =
    elim (Option-cases (strip_prefix (codes "http://") endpoint)) [
      | inl missed ↦ (
        λ h. absurd (ground arith),
        λ (rest, form). absurd (ground (arith, strip_prefix_iff (codes "http://") endpoint rest)),
      )
      | inr (rest, found) ↦ (
        λ h. (rest, (strip_prefix_iff (codes "http://") endpoint rest).0 found),
        λ form. ground arith,
      )
    ]
