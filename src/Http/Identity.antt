-- ===== src/Http/Identity.antt =====
-- crates/http-adapter/src/extractor.rs and middleware.rs: whose bucket a request counts against.
use Prim.Native.String.{String}
use that_limit.Prelude.{
  ◌≡◌, ◌⊎◌, inl, inr, Bool, Option, none, some, if◌then◌else◌, Result, ok, err, ok_or, arith,
}
use that_limit.Bucket.{BucketId, IpAddr, public, protected}
use that_limit.Store.{Error as StoreError}
use that_limit.Config.{Error as ConfigError}
use that_limit.Http.Host.{before}

-- `Error` of lib.rs
pub data Error : Type 0 where
  cfg : ConfigError → Error
  store : StoreError → Error
  unauthorized invalid_token missing_host : Error

-- A `HeaderValue`, by what `is_empty` and `to_str` give.
pub record HeaderValue : Type 0 where
  pub is_empty : Bool
  pub to_str : Option String

-- What the handler reads of a request: the bearer token of its `Authorization` header, if there is
-- one, and its other headers by name.
pub record Request : Type 0 where
  pub bearer : Option String
  pub header : String → Option HeaderValue

-- `Request::extensions`, where the middleware leaves the `sub` claim.
pub record Parts : Type 0 where
  pub header : String → Option HeaderValue
  pub claims : Option String

infixl 5 ◌>>=◌
abbrev ◌>>=◌ {ℓ κ} : {A : Type ℓ} {B : Type κ} → Option A → (A → Option B) → Option B
none >>= f = none
some a >>= f = f a

abbrev or_else {ℓ} : {A : Type ℓ} → Option A → Option A → Option A
or_else none o = o
or_else (some a) o = some a

abbrev not_empty : HeaderValue → Option HeaderValue
not_empty h = if h.is_empty then none else some h

-- `find_token_claims`, over `insecure_decode`, which gives the `sub` claim or fails. The token's
-- signature is not checked here.
unfoldable pub find_token_claims : (String → Option String) → Request → Result Error Parts
find_token_claims decode req = elim req.bearer [
  | none ↦ ok (record { header = req.header; claims = none })
  | some token ↦ elim (decode token) [
    | none ↦ err invalid_token
    | some sub ↦ ok (record { header = req.header; claims = some sub })
  ]
]

-- `Host::from_request_parts`
unfoldable pub host : Parts → Result Error String
host parts =
    ok_or (do h ← parts.header "x-forwarded-host"; h' ← not_empty h; h'.to_str) missing_host

-- The address in the headers: the first entry of `X-Forwarded-For`, or else of `X-Real-IP`.
address : (String → Option IpAddr) → Parts → Option IpAddr
address parse_ip parts = do
  v ← or_else (parts.header "x-forwarded-for") (parts.header "x-real-ip")
  s ← v.to_str
  parse_ip (before b',' s)

-- `Identifier::from_request_parts`
unfoldable pub identifier : (String → Option IpAddr) → Parts → Result Error BucketId
unfolding address
identifier parse_ip parts = elim parts.claims [
  | some sub ↦ ok (protected sub)
  | none ↦ elim (address parse_ip parts) [ none ↦ err unauthorized | some ip ↦ ok (public ip) ]
]

module _ (decode : String → Option String) (parse_ip : String → Option IpAddr) (req : Request) where
  abbrev pub identify : Result Error BucketId
  identify = elim (find_token_claims decode req) [
    | err e ↦ err e
    | ok parts ↦ identifier parse_ip parts
  ]

  -- A request with a token counts against the token's subject, and one whose token does not decode
  -- is refused. In neither case do its other headers matter.
  pub identify_token :
      (token : String)
      → req.bearer ≡ some token
      → identify ≡ elim (decode token) [ none ↦ err invalid_token | some sub ↦ ok (protected sub) ]
  unfolding find_token_claims identifier
  identify_token token h = ground (arith, h)

  -- A request without a token counts against the first comma-separated part of `X-Forwarded-For`,
  -- or of `X-Real-IP` if the former is absent. It is refused if that part is not an address, and
  -- then `X-Real-IP` is not read in place of `X-Forwarded-For`.
  pub identify_address :
      (v : HeaderValue)
      → req.bearer ≡ none
      → (req.header "x-forwarded-for" ≡ some v)
        ⊎ ((req.header "x-forwarded-for" ≡ none) × (req.header "x-real-ip" ≡ some v))
      → identify ≡ elim v.to_str [
        | none ↦ err unauthorized
        | some s ↦ elim (parse_ip (before b',' s)) [
          | none ↦ err unauthorized
          | some ip ↦ ok (public ip)
        ]
      ]
  unfolding find_token_claims identifier
  identify_address v h (inl f) = ground (arith, h, f)
  identify_address v h (inr (f, g)) = ground (arith, h, f, g)
