-- ===== src/Auth/Validation.antt =====
-- Which requests are let through (djinn/crates/coordin8-auth/src/lib.rs).
use Prim.Native.String.{◌++◌}
use coordin.Common.{
  ℕ, ◌+◌, ◌<◌, String, Bool, true, false, Option, none, some, ok, err, and_then, and_then-ok, ◌≡◌,
  ◌↔◌, refl, arith, if◌then◌else◌, Bool-cases, inl, inr,
}
use coordin.Common.Text.{strip_prefix-append}
use coordin.Status.{Status}
use coordin.Auth.{
  ℤ, pos, le, Claims, Jwt, AuthConfig, Request, text, extract_bearer_token, trusted,
  validate_baseline, run_check, decode_and_verify, decode_unverified, claims_of, check_claims,
  check_token, validate, mint_token, token_ttl, self_minted, client_config, call_out,
}

baseline_tests :
    (b d : Bool) (x y : Status)
    → (if b then err x else if d then ok tt else err y) ≡ ok tt
    → (b ≡ false) × (d ≡ true)
baseline_tests true d x y e = cc
baseline_tests false true x y e = (refl, refl)
baseline_tests false false x y e = cc

-- The claims of a token that a service mints for itself.
abbrev pub minted_claims : String → ℕ → Claims
minted_claims subject sent = record {
  sub = subject;
  iat = pos sent;
  exp = pos (sent + 300);
  scope = none;
  iss = none;
}

module _ (jwt : Jwt) where
  -- A request that carries a token that is good for a configuration with a secret: its claims can be
  -- read, they have not expired, their issuer is trusted and the service's own check passes.
  pub record Accepted (c : AuthConfig) (now : ℤ) (request : Request) (secret : String)
      : Type 0 where
    pub token : String
    pub claims : Claims
    pub bears : extract_bearer_token request ≡ ok token
    pub decoded : claims_of jwt c secret token ≡ ok claims
    pub alive : le claims.exp now ≡ false
    pub issued : trusted c.issuer claims.iss ≡ true
    pub checked : run_check c.claims_check claims ≡ ok tt

  baseline-ok :
      (now : ℤ) (claims : Claims) (issuer : Option String)
      → validate_baseline now claims issuer ≡ ok tt
      → (le claims.exp now ≡ false) × (trusted issuer claims.iss ≡ true)
  unfolding validate_baseline
  baseline-ok now claims issuer e =
      baseline_tests (le claims.exp now) (trusted issuer claims.iss) _ _ e

  ok-baseline :
      (now : ℤ) (claims : Claims) (issuer : Option String)
      → le claims.exp now ≡ false
      → trusted issuer claims.iss ≡ true
      → validate_baseline now claims issuer ≡ ok tt
  unfolding validate_baseline
  ok-baseline now claims issuer alive issued = rw (alive, issued) refl

  pub validate_iff :
      (c : AuthConfig) (now : ℤ) (request : Request) (secret : String)
      → c.secret ≡ some secret
      → (validate jwt c now request ≡ ok tt) ↔ Accepted c now request secret
  unfolding validate
  validate_iff c now request secret has =
      rw (has, validate)
        (
          λ e.
              let (token, (p, q)) =
                and_then-ok (extract_bearer_token request) (check_token jwt c now secret) e in
              let (claims, (r, t)) =
                and_then-ok (claims_of jwt c secret token) (check_claims jwt c now) q in
              let (done, (u, v)) =
                and_then-ok (validate_baseline now claims c.issuer)
                  (λ d. run_check c.claims_check claims) t in
              let base = baseline-ok now claims c.issuer u in
              record {
                token = token;
                claims = claims;
                bears = p;
                decoded = r;
                alive = base.0;
                issued = base.1;
                checked = v;
              },
          λ a.
              rw (a.bears, a.decoded)
                (rw (ok-baseline now a.claims c.issuer a.alive a.issued) a.checked),
        )

  abbrev bearing : String → Request
  bearing token = record { authorization = some (text ("Bearer " ++ token)) }

  called :
      (c : AuthConfig) (secret subject token : String) (sent : ℕ) (is_metadata : String → Bool)
      (request : Request)
      → c.secret ≡ some secret
      → mint_token jwt sent secret subject token_ttl none none ≡ ok token
      → is_metadata ("Bearer " ++ token) ≡ true
      → call_out is_metadata (client_config jwt c subject) sent request ≡ ok (bearing token)
  unfolding call_out client_config self_minted
  called c secret subject token sent is_metadata request hc minted fits =
      rw (hc, client_config) (rw (minted, fits) refl)

  decoded_minted :
      (d : AuthConfig) (secret token : String) (claims : Claims)
      → (jwt.decode token secret ≡ ok claims) × (jwt.decode_insecure token ≡ ok claims)
      → claims_of jwt d secret token ≡ ok claims
  unfolding decode_and_verify decode_unverified
  decoded_minted d secret token claims (a, b) = elim (Bool-cases d.verify_signature) [
    | inl e ↦ rw (e, a) refl
    | inr e ↦ rw (e, b) refl
  ]

  -- What a service mints for its own calls is accepted, for five minutes, by a service with the same
  -- secret that requires no issuer and no check of its own, whether or not that service verifies
  -- signatures: where the library reads back, from a token that it encodes with the secret, the claims
  -- it was given, it encodes the service's claims, and a header can carry the token.
  pub call_out-validate :
      (c d : AuthConfig) (secret subject token : String) (sent now : ℕ)
      (is_metadata : String → Bool) (request : Request)
      → c.secret ≡ some secret
      → d.secret ≡ some secret
      → d.issuer ≡ none
      → d.claims_check ≡ none
      → ((claims : Claims) (encoded : String)
          → jwt.encode claims secret ≡ ok encoded
          → (jwt.decode encoded secret ≡ ok claims) × (jwt.decode_insecure encoded ≡ ok claims))
      → mint_token jwt sent secret subject token_ttl none none ≡ ok token
      → is_metadata ("Bearer " ++ token) ≡ true
      → now < sent + 300
      → and_then
          (call_out is_metadata (client_config jwt c subject) sent request)
          (validate jwt d (pos now))
        ≡ ok tt
  unfolding mint_token
  call_out-validate c d secret subject token sent now is_metadata request hc hd hi hk reads minted
        fits soon =
      rw (called c secret subject token sent is_metadata request hc minted fits) (
        (validate_iff d (pos now) (bearing token) secret hd).1 (record {
          token = token;
          claims = minted_claims subject sent;
          bears = unfold extract_bearer_token in rw (strip_prefix-append "Bearer " token) refl;
          decoded =
              decoded_minted d secret token (minted_claims subject sent) (reads _ token minted);
          alive = ground arith;
          issued = rw hi refl;
          checked = rw hk refl;
        }))
