-- ===== src/Token.antt =====
-- logic/pkg/jwt/jwt.go, logic/middleware/authermiddle.go and GenerateToken of logic/models/user.go:
-- the tokens that users get and show. jwt-go is a parameter.
pub mod Digits
pub mod Refresh
pub mod Samples
mod Tests
use Prim.Native.String.{String}
use zqim.Prelude.{
  ℕ, zero, suc, ◌+◌, ◌-◌, ◌/◌, ◌%◌, Bool, true, false, not, ◌&&◌, Option, none, some, List, [], ◌∷◌,
  ◌++◌, ltb, ◌==◌, if◌then◌else◌,
}
use zqim.Frame.{u32_mod}
use zqim.Cache.{digits, atoi_u32}

-- strconv.Itoa, by the rounds left; a number has at most as many digits as itself, and one.
unfoldable pub itoa_loop : ℕ → ℕ → List ℕ
itoa_loop zero n = []
itoa_loop (suc fuel) n =
    let front = itoa_loop fuel (n / 10) in
    if ltb n 10 then (48 + n) ∷ [] else front ++ (48 + n % 10) ∷ []

unfoldable pub itoa : ℕ → List ℕ
unfolding itoa_loop
itoa n = itoa_loop (n + 1) n

-- CustomClaims
pub record Claims : Type 0 where
  pub id : List ℕ
  pub name : List ℕ
  pub not_before : ℕ
  pub expires_at : ℕ

-- jwt.ValidationError, by the bits that the source looks at.
pub record ValidationError : Type 0 where
  pub malformed : Bool
  pub expired : Bool
  pub not_valid_yet : Bool

-- What ParseWithClaims gives: claims, with the token's Valid, or an error.
pub data Parsed : Type 0 where
  parsed : Claims → Bool → Parsed
  validation : ValidationError → Parsed

-- jwt-go, with the signing key first; `parse` has the time at which it looks at the token. The
-- errors of ParseWithClaims are ValidationErrors.
pub record Jwt : Type 0 where
  pub sign : String → Claims → Option (List ℕ)
  pub parse : String → ℕ → List ℕ → Parsed

pub data TokenError : Type 0 where
  token_malformed token_expired token_not_valid_yet token_invalid sign_error : TokenError

pub data Result (A : Type 0) : Type 0 where
  ok : A → Result A
  err : TokenError → Result A

-- config.SecretKey and config.TokenOut, and the SignKey of NewJWT
abbrev pub secret_key : String
secret_key = "#2a56231!232&@3dsd1541"

abbrev pub token_out : ℕ
token_out = 3600000

abbrev pub sign_key : String
sign_key = "newtrekWang"

-- GenerateToken's claims; the clock is past its thousandth second.
unfoldable pub claims_of : ℕ → ℕ → List ℕ → Claims
unfolding itoa
claims_of now uid username = record {
  id = itoa uid;
  name = username;
  not_before = now - 1000;
  expires_at = now + token_out;
}

module _ (jwt : Jwt) where
  abbrev or_sign_error : Option (List ℕ) → Result (List ℕ)
  or_sign_error none = err sign_error
  or_sign_error (some token) = ok token

  unfoldable pub create_token : String → Claims → Result (List ℕ)
  create_token key claims = or_sign_error (jwt.sign key claims)

  abbrev of_validation : ValidationError → Result Claims
  of_validation ve =
      if ve.malformed
      then err token_malformed
      else if ve.expired
      then err token_expired
      else if ve.not_valid_yet
      then err token_not_valid_yet
      else err token_invalid

  unfoldable pub parse_token : String → ℕ → List ℕ → Result Claims
  parse_token key now token = elim (jwt.parse key now token) [
    | parsed claims valid ↦ if valid then ok claims else err token_invalid
    | validation ve ↦ of_validation ve
  ]

  unfoldable pub refresh_token : String → ℕ → List ℕ → Result (List ℕ)
  unfolding parse_token create_token
  refresh_token key now token = elim (parse_token key now token) [
    | err e ↦ err e
    | ok claims ↦ create_token key (record claims { expires_at = now + token_out })
  ]

  abbrev or_empty : Result (List ℕ) → List ℕ
  or_empty (ok token) = token
  or_empty (err e) = []

  -- The token is empty if it cannot be signed.
  unfoldable pub generate_token : ℕ → ℕ → List ℕ → List ℕ
  unfolding create_token claims_of
  generate_token now uid username = or_empty (create_token secret_key (claims_of now uid username))

  -- AuthMiddle: the username and the uid that it hands on, or the answer "token error". `Valid` of
  -- the claims compares the same two times with the clock; a token without an expiry does not time
  -- out.
  abbrev pub still_valid : ℕ → Claims → Option (List ℕ × List ℕ)
  still_valid now claims =
      if ltb now claims.not_before
      then none
      else if not (claims.expires_at == 0) && ltb claims.expires_at now
      then none
      else some (claims.name, claims.id)

  abbrev handed_on : ℕ → Result Claims → Option (List ℕ × List ℕ)
  handed_on now (err e) = none
  handed_on now (ok claims) = still_valid now claims

  unfoldable pub auth_middle : ℕ → List ℕ → Option (List ℕ × List ℕ)
  unfolding parse_token
  auth_middle now [] = none
  auth_middle now (c ∷ cs) = handed_on now (parse_token secret_key now (c ∷ cs))

  -- JWTAuth, which no route uses, takes the other key.
  unfoldable pub jwt_auth : ℕ → List ℕ → Option Claims
  unfolding parse_token
  jwt_auth now [] = none
  jwt_auth now (c ∷ cs) = elim (parse_token sign_key now (c ∷ cs)) [
    | err e ↦ none
    | ok claims ↦ some claims
  ]

-- GetuidAndusername's Atoi, whose error is ignored: 0 for a text that is no number, and the limit
-- of int64, cut to uint32, for one that is too large.
overflowed : List ℕ → ℕ
unfolding digits
overflowed [] = 0
overflowed (c ∷ cs) = elim (digits 0 (c ∷ cs)) [ none ↦ 0 | some n ↦ 4294967295 ]

saturated : List ℕ → ℕ
unfolding overflowed
saturated [] = 0
saturated (c ∷ cs) = if c == b'-' then 0 else overflowed (if c == b'+' then cs else c ∷ cs)

unfoldable pub getuid : List ℕ → ℕ
unfolding saturated atoi_u32
getuid s = elim (atoi_u32 s) [ some n ↦ n | none ↦ saturated s ]
