-- ===== src/Auth.antt =====
-- Tokens of users: pkg/auth/auth.go and caveats.go, and RefreshToken of pkg/service/auth_service.go. The
-- caveats of the program that uses the library, and the JSON of all of them, are a parameter; a draw of
-- a random key, which may fail, is an argument of the operation that makes it.
pub mod Access
pub mod Refresh
pub mod Frame
pub mod Once
use anclax.Prelude.{
  ℕ, ◌+◌, Bool, true, false, ◌&&◌, String, List, [], ◌∷◌, ◌++◌, Option, none, some, if◌then◌else◌,
  str_eq, ltb, length, take, drop,
}
use anclax.Prelude.Int.{ℤ}
use anclax.Text.{Bytes, bytes_eq, has_suffix}
use anclax.Text.Decimal.{format_int}
use anclax.Errors.{Err, Sentinel}
use anclax.Db.{World, Reply, ok, fail, M, ◌>>=◌, ◌>>◌, return, throw, catch}
use anclax.Store.{lift, wrapped}
use anclax.Runner.{Parameters}
use anclax.Macaroons.{
  Library, JsonToken, Macaroon, CaveatParser, CaveatConstructor, encode_caveat, parse_caveat,
  wrap_reply, register,
}
use anclax.Macaroons.Manager.{create_token, parse, invalidate_token, invalidate_tokens_by_group}

-- The encoded caveats of the access token; what they decode to is returned next to the caveat.
pub record RefreshOnlyCaveat : Type 0 where
  pub group : Bytes
  pub access_caveats : List Bytes

pub data AuthCaveat (Other : Type 0) : Type 0 where
  user_context : ℤ → ℤ → AuthCaveat Other
  refresh_only : RefreshOnlyCaveat → AuthCaveat Other
  other : Other → AuthCaveat Other

-- What a caveat sees of the HTTP request, and the values that it may set for the handlers.
pub record Request : Type 0 where
  pub method : String
  pub path : Bytes

pub record Locals : Type 0 where
  pub user_id : Option ℤ
  pub org_id : Option ℤ

abbrev pub no_locals : Locals
no_locals = record { user_id = none; org_id = none }

unfoldable pub get_user_id : Locals → Reply ℤ
get_user_id l = elim l.user_id [
  | none ↦ fail (Err.sentinel Sentinel.user_identity_not_exist)
  | some id ↦ ok id
]

unfoldable pub get_org_id : Locals → Reply ℤ
get_org_id l = elim l.org_id [
  | none ↦ fail (Err.sentinel Sentinel.user_identity_not_exist)
  | some id ↦ ok id
]

abbrev is_set : Option ℤ → Bool
is_set none = false
is_set (some id) = true

-- "user:%d".
unfoldable pub user_token_group : ℤ → Bytes
user_token_group id = b'u' ∷ b's' ∷ b'e' ∷ b'r' ∷ b':' ∷ format_int id

-- "/auth/refresh".
abbrev pub refresh_path : Bytes
refresh_path =
    b'/' ∷ b'a' ∷ b'u' ∷ b't' ∷ b'h' ∷ b'/' ∷ b'r' ∷ b'e' ∷ b'f' ∷ b'r' ∷ b'e' ∷ b's' ∷ b'h' ∷ []

unfoldable pub is_refresh : Request → Bool
unfolding has_suffix
is_refresh r = str_eq r.method "POST" && has_suffix r.path refresh_path

-- "Bearer ".
abbrev bearer : Bytes
bearer = b'B' ∷ b'e' ∷ b'a' ∷ b'r' ∷ b'e' ∷ b'r' ∷ b' ' ∷ []

unfoldable pub token_of_header : Bytes → Bytes
unfolding bytes_eq
token_of_header header =
    if ltb 7 (length header) && bytes_eq (take 7 header) bearer then drop 7 header else header

abbrev unauthorized : {A : Type 0} → String → M A
unauthorized what = throw (Err.wrap what (Err.sentinel Sentinel.unauthorized))

abbrev invalid_refresh : {A : Type 0} → String → M A
invalid_refresh what = throw (Err.wrap what (Err.sentinel Sentinel.invalid_refresh_token))

pub record Credentials : Type 0 where
  pub access_token : Bytes
  pub refresh_token : Bytes

module _ (Other : Type 0) (marshal : AuthCaveat Other → Reply Bytes)
    (tokens : Bytes → List JsonToken) (hmac_sha256 : Bytes → Bytes → Bytes) where
  abbrev pub library : Library
  library = record {
    Caveat = AuthCaveat Other;
    marshal = marshal;
    tokens = tokens;
    hmac_sha256 = hmac_sha256;
  }

  module _ (validate_other : Other → Request → Locals → Reply Locals) where
    unfoldable pub validate : AuthCaveat Other → Request → Locals → Reply Locals
    unfolding is_refresh
    validate (AuthCaveat.user_context user org) r l =
        if is_set l.user_id && is_set l.org_id
        then fail (
            Err.wrap "user_context caveat already exists"
              (Err.sentinel Sentinel.caveat_check_failed))
        else ok (record l { user_id = some user; org_id = some org })
    validate (AuthCaveat.refresh_only c) r l =
        if is_refresh r
        then ok l
        else fail
            (Err.wrap "the token is for refresh only" (Err.sentinel Sentinel.caveat_check_failed))
    validate (AuthCaveat.other c) r l = validate_other c r l

    abbrev pub and_then : Reply Locals → (Locals → Reply Locals) → Reply Locals
    and_then (fail e) f = fail e
    and_then (ok l) f = f l

    unfoldable pub validate_all : List (AuthCaveat Other) → Request → Locals → Reply Locals
    unfolding validate
    validate_all [] r l = ok l
    validate_all (c ∷ cs) r l = and_then (validate c r l) (λ l'. validate_all cs r l')

    -- The token and the values that it sets; a request with an error goes no further.
    unfoldable pub authfunc :
        CaveatParser library → Bytes → Request → Locals → M (Macaroon library × Locals)
    unfolding token_of_header validate_all
    authfunc parser [] r l = unauthorized "missing authorization header"
    authfunc parser (c ∷ header) r l = do
      token ←
          catch (parse library parser (token_of_header (c ∷ header)))
            (λ e. unauthorized "failed to parse macaroon token")
      l' ←
          catch (lift (validate_all token.caveats r l))
            (λ e. unauthorized "failed to validate caveat")
      return (token, l')

  module _ (marshal_task : Parameters → Bytes) (now : ℕ) where
    -- The loop over the caveats of the access token.
    unfoldable pub encode_access : List (AuthCaveat Other) → Reply (List Bytes)
    unfolding encode_caveat
    encode_access [] = ok []
    encode_access (c ∷ cs) = elim (encode_caveat library c) [
      | fail e ↦ fail (Err.wrap "failed to encode access token caveat" e)
      | ok encoded ↦ elim (encode_access cs) [ fail e ↦ fail e | ok rest ↦ ok (encoded ∷ rest) ]
    ]

    unfoldable pub create_access_token :
        Reply Bytes → Bytes → ℕ → List (AuthCaveat Other) → M (Macaroon library)
    unfolding create_token
    create_access_token random_key group ttl caveats =
        wrapped "failed to create macaroon token"
          (create_token library marshal_task random_key now caveats ttl group)

    -- An access token that is not nil.
    unfoldable pub create_refresh_token :
        Reply Bytes → Bytes → Macaroon library → ℕ → M (Macaroon library)
    unfolding encode_access create_access_token
    create_refresh_token random_key group access ttl = do
      encoded ← lift (encode_access access.caveats)
      create_access_token random_key group ttl
          (AuthCaveat.refresh_only (record { group = group; access_caveats = encoded }) ∷ [])

    unfoldable pub create_user_tokens :
        Reply Bytes
        → Reply Bytes
        → (ℤ → Macaroon library → M (Unit {0}))
        → ℕ
        → ℕ
        → ℤ
        → ℤ
        → List (AuthCaveat Other)
        → M (Macaroon library × Macaroon library)
    unfolding create_access_token create_refresh_token user_token_group
    create_user_tokens key refresh_key hook access_ttl refresh_ttl user org caveats = do
      access ←
          create_access_token key (user_token_group user) access_ttl
            (caveats ++ AuthCaveat.user_context user org ∷ [])
      refresh ←
          wrapped "failed to create refresh token"
            (create_refresh_token refresh_key (user_token_group user) access refresh_ttl)
      wrapped "failed to call hook" (hook user access)
      return (access, refresh)

  -- The loop over the encoded caveats of a refresh token.
  unfoldable pub parse_access : CaveatParser library → List Bytes → M (List (AuthCaveat Other))
  unfolding parse_caveat
  parse_access parser [] = return []
  parse_access parser (encoded ∷ rest) = do
    caveat ←
        catch (lift (parse_caveat library parser encoded))
          (λ e. invalid_refresh "failed to parse access token caveat")
    caveats ← parse_access parser rest
    return (caveat ∷ caveats)

  abbrev pub refresh_only_of : List (AuthCaveat Other) → M RefreshOnlyCaveat
  refresh_only_of (AuthCaveat.refresh_only c ∷ []) = return c
  refresh_only_of (c ∷ []) = invalid_refresh "caveat is not a RefreshOnlyCaveat"
  refresh_only_of _ = invalid_refresh "refresh token must have exactly one caveat"

  unfoldable pub parse_refresh_token :
      CaveatParser library
      → Bytes
      → M (Macaroon library × RefreshOnlyCaveat × List (AuthCaveat Other))
  unfolding parse parse_access
  parse_refresh_token parser refresh_token = do
    token ← wrapped "failed to parse macaroon token" (parse library parser refresh_token)
    roc ← refresh_only_of token.caveats
    caveats ← parse_access parser roc.access_caveats
    return (token, roc, caveats)

  unfoldable pub invalidate_user_tokens : ℤ → M (Unit {0})
  unfolding user_token_group invalidate_tokens_by_group
  invalidate_user_tokens id = invalidate_tokens_by_group (user_token_group id)

  abbrev pub invalidate_group_of : Bytes → M (Unit {0})
  invalidate_group_of [] = return tt
  invalidate_group_of (c ∷ group) =
      wrapped "failed to invalidate token group" (invalidate_tokens_by_group (c ∷ group))

  -- RefreshToken of the service.
  unfoldable pub refresh_token :
      (Parameters → Bytes)
      → ℕ
      → Reply Bytes
      → Reply Bytes
      → ℕ
      → ℕ
      → CaveatParser library
      → Bytes
      → M Credentials
  unfolding parse_refresh_token create_access_token create_refresh_token
  refresh_token marshal_task now key refresh_key access_ttl refresh_ttl parser token = do
    (refresh, roc, caveats) ← catch (parse_refresh_token parser token) (λ e. throw (
        Err.wrap "failed to parse refresh token"
          (Err.join (Err.sentinel Sentinel.refresh_token_expired) e)))
    invalidate_group_of roc.group
    wrapped "failed to invalidate refresh token" (invalidate_token refresh.key_id)
    access ←
        wrapped "failed to create access token"
          (create_access_token marshal_task now key roc.group access_ttl caveats)
    next ←
        wrapped "failed to create refresh token"
          (create_refresh_token marshal_task now refresh_key roc.group access refresh_ttl)
    return (record { access_token = access.encoded_token; refresh_token = next.encoded_token })
