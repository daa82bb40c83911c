-- ===== src/Startup/Storage.antt =====
-- pkg/storage/storage.go: the client of the object store, from its configuration.
use transcodex.Base.{
  ◌≡◌, refl, sym, ◌∙◌, inl, inr, Bool, true, false, not, ◌&&◌, Option, none, some, if◌then◌else◌,
  Bool-cases,
}
use transcodex.Base.Text.{codes, same_text}
use transcodex.Db.Schema.{Text}
use transcodex.Env.{is_empty, trim_space}
use transcodex.Startup.{
  Services, Outcome, opened, failed, endpoint_missing, bucket_missing, endpoint_invalid,
  host_missing, scheme_unsupported, access_key_missing, secret_key_missing, storage_refused,
  bucket_unchecked, bucket_absent,
}

-- `storage.Config` and the client that it leads to
pub record StorageConfig : Type 0 where
  pub endpoint : Text
  pub access_key : Text
  pub secret_key : Text
  pub bucket : Text
  pub use_ssl : Bool

pub data Credentials : Type 0 where
  iam : Credentials
  static : Text → Text → Credentials

pub record Client : Type 0 where
  pub host : Text
  pub secure : Bool
  pub credentials : Credentials
  pub bucket : Text

unfoldable pub credentials_of : StorageConfig → Outcome Credentials
credentials_of c =
    if is_empty c.access_key && is_empty c.secret_key
    then opened iam
    else if is_empty c.access_key
    then failed access_key_missing
    else if is_empty c.secret_key
    then failed secret_key_missing
    else opened (static c.access_key c.secret_key)

abbrev pub check_bucket : Client → Option Bool → Outcome Client
check_bucket k none = failed bucket_unchecked
check_bucket k (some false) = failed bucket_absent
check_bucket k (some true) = opened k

module _ (s : Services) where
  -- `normalizeEndpoint`: the host, and whether to use SSL
  unfoldable pub normalize_endpoint : Text → Bool → Outcome (Text × Bool)
  normalize_endpoint raw fallback_ssl = elim (s.parse_url (trim_space raw)) [
    | none ↦ failed endpoint_invalid
    | some url ↦
        if is_empty url.scheme
        then opened (trim_space raw, fallback_ssl)
        else if is_empty url.host
        then failed host_missing
        else if same_text url.scheme (codes "http")
        then opened (url.host, false)
        else if same_text url.scheme (codes "https")
        then opened (url.host, true)
        else failed scheme_unsupported
  ]

  unfoldable pub connect : StorageConfig → Text × Bool → Outcome Credentials → Outcome Client
  connect c (host, secure) (failed e) = failed e
  connect c (host, secure) (opened k) =
      if not (s.creates_storage host secure)
      then failed storage_refused
      else check_bucket
          (record { host = host; secure = secure; credentials = k; bucket = c.bucket })
          (s.bucket_exists c.bucket)

  -- `storage.NewClient`
  unfoldable pub new_storage : StorageConfig → Outcome Client
  unfolding connect credentials_of
  new_storage c =
      if is_empty c.endpoint
      then failed endpoint_missing
      else if is_empty c.bucket
      then failed bucket_missing
      else elim (normalize_endpoint c.endpoint c.use_ssl) [
        | failed e ↦ failed e
        | opened address ↦ connect c address (credentials_of c)
      ]

-- A client that agrees with its configuration
abbrev pub IsConfigured : Services → StorageConfig → Outcome Client → Type 0
IsConfigured s c (failed e) = Unit
IsConfigured s c (opened k) =
    (is_empty c.endpoint ≡ false)
    × (is_empty c.bucket ≡ false)
    × (k.bucket ≡ c.bucket)
    × (s.bucket_exists c.bucket ≡ some true)
    × (is_empty c.access_key ≡ is_empty c.secret_key)
    × (normalize_endpoint s c.endpoint c.use_ssl ≡ opened (k.host, k.secure))

module _ (s : Services) (c : StorageConfig) (address : Text × Bool)
    (endpoint : is_empty c.endpoint ≡ false) (bucket : is_empty c.bucket ≡ false)
    (normal : normalize_endpoint s c.endpoint c.use_ssl ≡ opened address) where
  check_bucket-IsConfigured :
      (k : Credentials) (found : Option Bool)
      → s.bucket_exists c.bucket ≡ found
      → is_empty c.access_key ≡ is_empty c.secret_key
      → IsConfigured s c (
          check_bucket
            (record { host = address.0; secure = address.1; credentials = k; bucket = c.bucket })
            found)
  check_bucket-IsConfigured k none found keys = tt
  check_bucket-IsConfigured k (some false) found keys = tt
  check_bucket-IsConfigured k (some true) found keys = (endpoint, bucket, refl, found, keys, normal)

  connect-IsConfigured :
      (k : Credentials)
      → is_empty c.access_key ≡ is_empty c.secret_key
      → IsConfigured s c (connect s c address (opened k))
  unfolding connect
  connect-IsConfigured k keys = elim (Bool-cases (s.creates_storage address.0 address.1)) [
    | inr e ↦ rw e tt
    | inl e ↦ rw e (check_bucket-IsConfigured k _ refl keys)
  ]

  credentials-IsConfigured : IsConfigured s c (connect s c address (credentials_of c))
  unfolding credentials_of connect
  credentials-IsConfigured = elim (Bool-cases (is_empty c.access_key)) [
    | inl e ↦ elim (Bool-cases (is_empty c.secret_key)) [
      | inl f ↦ rw (e, f) (connect-IsConfigured iam (e ∙ sym f))
      | inr f ↦ rw (e, f) tt
    ]
    | inr e ↦ elim (Bool-cases (is_empty c.secret_key)) [
      | inl f ↦ rw (e, f) tt
      | inr f ↦ rw (e, f) (connect-IsConfigured (static c.access_key c.secret_key) (e ∙ sym f))
    ]
  ]

module _ (s : Services) (c : StorageConfig) where
  normal-IsConfigured :
      (o : Outcome (Text × Bool))
      → normalize_endpoint s c.endpoint c.use_ssl ≡ o
      → is_empty c.endpoint ≡ false
      → is_empty c.bucket ≡ false
      → IsConfigured s c
          (elim o [ failed e ↦ failed e | opened address ↦ connect s c address (credentials_of c) ])
  normal-IsConfigured (failed e) h endpoint bucket = tt
  normal-IsConfigured (opened address) h endpoint bucket =
      credentials-IsConfigured s c address endpoint bucket h

  -- A client is returned only for an endpoint and a bucket that are given, a bucket that exists, and
  -- both keys or neither; it goes to the normalised endpoint, with SSL as that says.
  new_storage-IsConfigured : IsConfigured s c (new_storage s c)
  unfolding new_storage
  new_storage-IsConfigured = elim (Bool-cases (is_empty c.endpoint)) [
    | inl e ↦ rw e tt
    | inr e ↦ rw e (elim (Bool-cases (is_empty c.bucket)) [
      | inl f ↦ rw f tt
      | inr f ↦ rw f (normal-IsConfigured _ refl e f)
    ])
  ]
