-- ===== src/Token/Refresh.antt =====
-- RefreshToken of logic/pkg/jwt/jwt.go, and what AuthMiddle makes of the new token.
use zqim.Prelude.{
  ℕ, ◌+◌, ◌≤◌, ◌≡◌, ◌≢◌, refl, sym, ap, ◌∙◌, arith, true, Option, none, some, List, [], ◌∷◌, inl,
  inr, ◌⊎◌,
}
use zqim.Token.{
  Jwt, Claims, parsed, TokenError, Result, ok, err, secret_key, token_out, parse_token,
  create_token, refresh_token, auth_middle, or_sign_error, still_valid, handed_on,
}

-- What is signed with a key is parsed with that key, at the times that the claims allow, and is not
-- empty.
pub record IsSigner (jwt : Jwt) : Type 0 where
  pub parses :
      (claims : Claims) (token : List ℕ) (now : ℕ)
      → jwt.sign secret_key claims ≡ some token
      → claims.not_before ≤ now
      → now ≤ claims.expires_at
      → jwt.parse secret_key now token ≡ parsed claims true
  pub signed :
      (claims : Claims) (token : List ℕ) → jwt.sign secret_key claims ≡ some token → token ≢ []

Result-cases :
    {A : Type 0} → (r : Result A) → ((a : A) × (r ≡ ok a)) ⊎ ((e : TokenError) × (r ≡ err e))
Result-cases (ok a) = inl (a, refl)
Result-cases (err e) = inr (e, refl)

-- A token that is let through is parsed, and its times hold.
let_through :
    (jwt : Jwt) (now : ℕ) (token : List ℕ) (user : List ℕ × List ℕ)
    → auth_middle jwt now token ≡ some user
    → (claims : Claims) × (parse_token jwt secret_key now token ≡ ok claims)
      × (still_valid jwt now claims ≡ some user)
unfolding auth_middle
let_through jwt now [] user e = cc
let_through jwt now (c ∷ cs) user e =
    elim (Result-cases (parse_token jwt secret_key now (c ∷ cs))) [
      | inl (claims, p) ↦ (claims, p, ap (handed_on jwt now) (sym p) ∙ e)
      | inr (x, p) ↦ let f : none ≡ some user = ap (handed_on jwt now) (sym p) ∙ e in cc
    ]

-- The times of the claims, and the renewed ones.
still_valid-renewed :
    (jwt : Jwt) (now later : ℕ) (claims : Claims) (user : List ℕ × List ℕ)
    → still_valid jwt now claims ≡ some user
    → now ≤ later
    → later ≤ now + token_out
    → (claims.not_before ≤ later)
      × (still_valid jwt later (record claims { expires_at = now + token_out }) ≡ some user)
still_valid-renewed jwt now later claims user e l h = ground arith

-- A token of the claims is let through as their user's.
pub auth_middle-signed :
    (jwt : Jwt) (later : ℕ) (claims : Claims) (new : List ℕ)
    → IsSigner jwt
    → jwt.sign secret_key claims ≡ some new
    → claims.not_before ≤ later
    → later ≤ claims.expires_at
    → auth_middle jwt later new ≡ still_valid jwt later claims
unfolding auth_middle
auth_middle-signed jwt later claims [] signer e b h = absurd (signer.signed claims [] e refl)
auth_middle-signed jwt later claims (c ∷ cs) signer e b h =
    let p : parse_token jwt secret_key later (c ∷ cs) ≡ ok claims =
      rw (signer.parses claims (c ∷ cs) later e b h, parse_token) refl in
    ap (handed_on jwt later) p

token_of : Result (List ℕ) → List ℕ
token_of (ok token) = token
token_of (err e) = []

or_sign_error-ok :
    (jwt : Jwt) (o : Option (List ℕ)) (new : List ℕ) → or_sign_error jwt o ≡ ok new → o ≡ some new
unfolding token_of
or_sign_error-ok jwt none new e = cc
or_sign_error-ok jwt (some token) new e = ap (λ r. some (token_of r)) e

-- The new token of a user is let through as that user's.
pub auth_middle-refresh_token :
    (jwt : Jwt) (now later : ℕ) (token new : List ℕ) (user : List ℕ × List ℕ)
    → IsSigner jwt
    → auth_middle jwt now token ≡ some user
    → refresh_token jwt secret_key now token ≡ ok new
    → now ≤ later
    → later ≤ now + token_out
    → auth_middle jwt later new ≡ some user
unfolding refresh_token create_token
auth_middle-refresh_token jwt now later token new user signer e r l h =
    let (claims, p, v) = let_through jwt now token user e in
    let (b, u) = still_valid-renewed jwt now later claims user v l h in
    let renewed : Claims = record claims { expires_at = now + token_out } in
    let s : jwt.sign secret_key renewed ≡ some new =
      or_sign_error-ok jwt _ new (sym (rw (p, refresh_token) refl) ∙ r) in
    auth_middle-signed jwt later renewed new signer s b h ∙ u
