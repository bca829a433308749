-- ===== src/Auth/Tests.antt =====
-- The theorems on tokens at concrete inputs.
use coordin.Common.{
  String, Bool, true, false, Option, none, some, Result, ok, err, and_then, eqb, ◌&&◌, eq_iff,
  Bool-cases, inl, inr, if◌then◌else◌, ◌==◌, ◌≡◌, refl, arith,
}
use coordin.Auth.{
  ℤ, pos, negsuc, Claims, Jwt, AuthConfig, default, Request, text, validate, call_out,
  client_config, mint_token,
}
use coordin.Auth.Validation.{minted_claims, call_out-validate}

-- A library that knows one token.
abbrev jwt : Jwt
jwt = record {
  encode = λ claims secret. ok "a.b.c";
  decode = λ token secret.
      if token == "a.b.c" then ok (minted_claims "txn" 1000) else err "InvalidToken";
  decode_insecure =
      λ token. if token == "a.b.c" then ok (minted_claims "txn" 1000) else err "InvalidToken";
}

abbrev config : AuthConfig
config = record default { secret = some "s3cret" }

abbrev request : Request
request = record { authorization = some (text "Bearer a.b.c") }

-- A library that encodes the claims of one service, for one instant, and no others.
abbrev are_txn : String → ℤ → ℤ → Option String → Option String → Bool
are_txn sub (pos exp) (pos iat) none none = sub == "txn" && (eqb exp 1300 && eqb iat 1000)
are_txn sub exp iat scope iss = false

abbrev is_txn : Claims → Bool
is_txn claims = are_txn claims.sub claims.exp claims.iat claims.scope claims.iss

abbrev one_token : Jwt
one_token = record jwt {
  encode = λ claims secret. if is_txn claims then ok "a.b.c" else err "refused";
}

are_txn-eq :
    (sub : String) (exp iat : ℤ) (scope iss : Option String)
    → are_txn sub exp iat scope iss ≡ true
    → ◌≡◌ {A = Claims}
        (record { sub = sub; exp = exp; iat = iat; scope = scope; iss = iss })
        (minted_claims "txn" 1000)
are_txn-eq sub (pos exp) (pos iat) none none h =
    let named : sub ≡ "txn" = ground (arith, eq_iff sub "txn") in
    let until : exp ≡ 1300 = ground arith in
    let from : iat ≡ 1000 = ground arith in rw (named, until, from) refl
are_txn-eq sub (pos exp) (pos iat) none (some iss) h = cc
are_txn-eq sub (pos exp) (pos iat) (some scope) iss h = cc
are_txn-eq sub (pos exp) (negsuc iat) scope iss h = cc
are_txn-eq sub (negsuc exp) iat scope iss h = cc

is_txn-eq : (claims : Claims) → is_txn claims ≡ true → claims ≡ minted_claims "txn" 1000
is_txn-eq claims h = are_txn-eq claims.sub claims.exp claims.iat claims.scope claims.iss h

one_token_reads :
    (claims : Claims) (encoded : String)
    → one_token.encode claims "s3cret" ≡ ok encoded
    → (one_token.decode encoded "s3cret" ≡ ok claims)
      × (one_token.decode_insecure encoded ≡ ok claims)
one_token_reads claims encoded h = elim (Bool-cases (is_txn claims)) [
  | inl e ↦
      let same : claims ≡ minted_claims "txn" 1000 = is_txn-eq claims e in
      let text : ok "a.b.c" ≡ ok encoded = rw e at h in
      let text_eq : "a.b.c" ≡ encoded = cc in rw (← text_eq, same) (refl, refl)
  | inr e ↦ let text : ◌≡◌ {A = Result String String} (err "refused") (ok encoded) = rw e at h in cc
]

call_out-validate_example :
    and_then
      (call_out
        (λ v. true)
        (client_config one_token config "txn")
        1000
        (record { authorization = none }))
      (validate one_token config (pos 1299))
    ≡ ok tt
unfolding mint_token
call_out-validate_example =
    call_out-validate one_token config config "s3cret" "txn" "a.b.c" 1000 1299 (λ v. true)
      (record { authorization = none }) refl refl refl refl one_token_reads refl refl (omega arith)
