-- ===== src/Token/Tests.antt =====
-- The refreshing of a token at a concrete input.
use zqim.Prelude.{◌≡◌, refl, arith, some, [], ◌∷◌}
use zqim.Token.{Claims, auth_middle, refresh_token, parse_token, create_token}
use zqim.Token.Refresh.{auth_middle-refresh_token}
use zqim.Token.Samples.{signed, jwt, signer}

-- A token of user 7 that ends at time 90.
abbrev user : Claims
user = record { id = b'7' ∷ []; name = b'u' ∷ []; not_before = 10; expires_at = 90 }

abbrev renewed : Claims
renewed = record user { expires_at = 3600050 }

auth_middle-refresh_token_example : auth_middle jwt 100 (signed renewed) ≡ some (user.name, user.id)
unfolding auth_middle parse_token refresh_token create_token
auth_middle-refresh_token_example =
    auth_middle-refresh_token jwt 50 100 (signed user) (signed renewed) (user.name, user.id) signer
      refl refl (omega arith) (omega arith)
