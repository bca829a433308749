-- ===== src/Auth.antt =====
-- Authentication by JSON web tokens (djinn/crates/coordin8-auth/src/lib.rs). The library `jsonwebtoken`
-- is the record `Jwt`, and the clock the argument `now`, in seconds. A timestamp is a signed number.
use Prim.Native.String.{◌++◌}
use coordin.Common.{
  ℕ, ◌+◌, String, Bool, true, false, Option, none, some, Result, ok, err, and_then, map_err, ltb,
  leb, is_some, not, ◌==◌, ◌&&◌, if◌then◌else◌,
}
use coordin.Common.Text.{strip_prefix}
use coordin.Status.{Status, unauthenticated, internal}
pub mod Validation
mod Tests

-- An `i64`: `pos n` is `n`, and `negsuc n` is `-1 - n`.
pub data ℤ : Type 0 where
  pos negsuc : ℕ → ℤ

abbrev pub le : ℤ → ℤ → Bool
le (pos a) (pos b) = leb a b
le (pos a) (negsuc b) = false
le (negsuc a) (pos b) = true
le (negsuc a) (negsuc b) = leb b a

pub record Claims : Type 0 where
  pub sub : String
  pub exp : ℤ
  pub iat : ℤ
  pub scope : Option String
  pub iss : Option String

-- HS256 without the library's own check of `exp`; a failure comes with its message. `decode` reads a
-- token with the check of its signature by a secret, `decode_insecure` without that check.
pub record Jwt : Type 0 where
  pub encode : Claims → String → Result String String
  pub decode : String → String → Result String Claims
  pub decode_insecure : String → Result String Claims

abbrev pub ClaimsCheck : Type 0
ClaimsCheck = Claims → Result Status Unit

pub record AuthConfig : Type 0 where
  pub secret : Option String
  pub verify_signature : Bool
  pub issuer : Option String
  pub claims_check : Option ClaimsCheck

abbrev pub default : AuthConfig
default = record { secret = none; verify_signature = true; issuer = none; claims_check = none }

abbrev not_empty : Option String → Option String
not_empty none = none
not_empty (some s) = if s == "" then none else some s

abbrev verifies : Option String → Bool
verifies none = true
verifies (some v) = not (v == "false") && not (v == "0")

-- The two environment variables, where they are set.
unfoldable pub from_env : Option String → Option String → AuthConfig
from_env secret verify = record default {
  secret = not_empty secret;
  verify_signature = verifies verify;
}

unfoldable pub with_issuer : String → AuthConfig → AuthConfig
with_issuer issuer c = record c { issuer = some issuer }

unfoldable pub with_claims_check : ClaimsCheck → AuthConfig → AuthConfig
with_claims_check check c = record c { claims_check = some check }

unfoldable pub enabled : AuthConfig → Bool
enabled c = is_some c.secret

-- A metadata value: a text, or bytes that are none.
pub data MetadataValue : Type 0 where
  text : String → MetadataValue
  opaque : MetadataValue

-- What a request carries as `authorization`.
pub record Request : Type 0 where
  pub authorization : Option MetadataValue

abbrev pub refused : String → Status
refused message = record { code = unauthenticated; message = message }

abbrev bearer : Option String → Result Status String
bearer none = err (refused "authorization metadata must be a Bearer token")
bearer (some token) = ok token

abbrev token_of : Option MetadataValue → Result Status String
token_of none = err (refused "missing authorization metadata")
token_of (some opaque) = err (refused "authorization metadata is not valid UTF-8")
token_of (some (text raw)) = bearer (strip_prefix "Bearer " raw)

unfoldable pub extract_bearer_token : Request → Result Status String
extract_bearer_token request = token_of request.authorization

abbrev pub trusted : Option String → Option String → Bool
trusted none iss = true
trusted (some required) none = false
trusted (some required) (some iss) = iss == required

unfoldable pub validate_baseline : ℤ → Claims → Option String → Result Status Unit
validate_baseline now claims issuer =
    if le claims.exp now
    then err (refused "token expired")
    else if trusted issuer claims.iss
    then ok tt
    else err (refused "token issuer not trusted")

abbrev pub run_check : Option ClaimsCheck → Claims → Result Status Unit
run_check none claims = ok tt
run_check (some check) claims = check claims

-- `Duration::minutes(5)`, in seconds.
abbrev pub token_ttl : ℕ
token_ttl = 300

-- How an outbound call obtains a token, at a time.
pub record ClientAuthConfig : Type 0 where
  pub provider : Option (ℕ → Option String)

abbrev pub trust : ClientAuthConfig
trust = record { provider = none }

abbrev ok_of {ℓ} : {E A : Type ℓ} → Result E A → Option A
ok_of (ok a) = some a
ok_of (err e) = none

module _ (jwt : Jwt) where
  unfoldable pub decode_and_verify : String → String → Result Status Claims
  decode_and_verify token secret =
      map_err (λ e. refused ("invalid token: " ++ e)) (jwt.decode token secret)

  unfoldable pub decode_unverified : String → Result Status Claims
  decode_unverified token =
      map_err (λ e. refused ("malformed token: " ++ e)) (jwt.decode_insecure token)

  abbrev pub claims_of : AuthConfig → String → String → Result Status Claims
  claims_of c secret token =
      if c.verify_signature then decode_and_verify token secret else decode_unverified token

  abbrev pub check_claims : AuthConfig → ℤ → Claims → Result Status Unit
  check_claims c now claims =
      and_then (validate_baseline now claims c.issuer) λ done. run_check c.claims_check claims

  abbrev pub check_token : AuthConfig → ℤ → String → String → Result Status Unit
  check_token c now secret token = and_then (claims_of c secret token) (check_claims c now)

  unfoldable pub validate : AuthConfig → ℤ → Request → Result Status Unit
  validate c now request = elim c.secret [
    | none ↦ ok tt
    | some secret ↦ and_then (extract_bearer_token request) (check_token c now secret)
  ]

  -- The interceptor of a server.
  unfoldable pub call : AuthConfig → ℤ → Request → Result Status Request
  call c now request = and_then (validate c now request) λ done. ok request

  unfoldable pub mint_token :
      ℕ → String → String → ℕ → Option String → Option String → Result String String
  mint_token now secret subject ttl scope issuer =
      jwt.encode
        (record {
          sub = subject;
          iat = pos now;
          exp = pos (now + ttl);
          scope = scope;
          iss = issuer;
        })
        secret

  unfoldable pub self_minted : String → String → ClientAuthConfig
  self_minted secret subject = record {
    provider = some (λ now. ok_of (mint_token now secret subject token_ttl none none));
  }

  unfoldable pub client_config : AuthConfig → String → ClientAuthConfig
  client_config c subject = elim c.secret [
    | some secret ↦ self_minted secret subject
    | none ↦ trust
  ]

abbrev attach : Bool → String → Request → Result Status Request
attach false value request =
    err (record { code = internal; message = "token is not valid metadata" })
attach true value request = ok (record { authorization = some (text value) })

abbrev attached : (String → Bool) → Option String → Request → Result Status Request
attached is_metadata none request = ok request
attached is_metadata (some token) request =
    attach (is_metadata ("Bearer " ++ token)) ("Bearer " ++ token) request

-- The interceptor of a client. `is_metadata` tells which texts can be metadata values.
unfoldable pub call_out : (String → Bool) → ClientAuthConfig → ℕ → Request → Result Status Request
call_out is_metadata c now request = elim c.provider [
  | none ↦ ok request
  | some provider ↦ attached is_metadata (provider now) request
]
