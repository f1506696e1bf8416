-- ===== src/Token/Samples.antt =====
-- Tokens at concrete inputs.
use zqim.Prelude.{
  ℕ, ◌≡◌, ap, sym, ◌∙◌, arith, true, Option, none, some, List, [], ◌∷◌, ◌++◌, length, take, drop,
  take-append, drop-append,
}
use zqim.Token.{Jwt, Claims, Parsed, parsed, validation}
use zqim.Token.Refresh.{IsSigner}

-- Tokens that hold the claims as they are.
abbrev pub signed : Claims → List ℕ
signed c = length c.id ∷ c.not_before ∷ c.expires_at ∷ c.id ++ c.name

abbrev pub read : List ℕ → Parsed
read (k ∷ not_before ∷ expires_at ∷ rest) =
    parsed
      (record {
        id = take k rest;
        name = drop k rest;
        not_before = not_before;
        expires_at = expires_at;
      })
      true
read _ = validation (record { malformed = true; expired = true; not_valid_yet = true })

abbrev pub jwt : Jwt
jwt = record { sign = λ key claims. some (signed claims); parse = λ key now token. read token }

abbrev pub or_empty : Option (List ℕ) → List ℕ
or_empty none = []
or_empty (some token) = token

read-signed : (c : Claims) → read (signed c) ≡ parsed c true
read-signed c =
    ap (λ i. parsed (record c { id = i; name = drop (length c.id) (c.id ++ c.name) }) true)
      (take-append c.id c.name)
    ∙ ap (λ n. parsed (record c { name = n }) true) (drop-append c.id c.name)

pub signer : IsSigner jwt
signer = record {
  parses = λ claims token now e b l. ap (λ o. read (or_empty o)) (sym e) ∙ read-signed claims;
  signed = λ claims token e h. absurd (ground (arith, e, h));
}
