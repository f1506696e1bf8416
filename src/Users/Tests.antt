-- ===== src/Users/Tests.antt =====
-- The login at a concrete input.
use zqim.Prelude.{ℕ, ◌≡◌, refl, ap, sym, arith, true, Option, none, some, List, [], ◌∷◌}
use zqim.Prelude.Maps
use zqim.Frame.{Request}
use zqim.Services.{Services, request_of}
use zqim.Services.Samples.{services, server}
use zqim.Ack.{get_connect}
use zqim.Auth.{auth_handle}
use zqim.Balance.{next_tcp_server}
use zqim.Sql.{num_of, txt_of}
use zqim.Sql.Laws.{holds}
use zqim.Sql.Samples.{Tables, gorm}
use zqim.Web.{Web}
use zqim.Token.{Jwt, parsed, claims_of, generate_token, create_token, itoa, itoa_loop}
use zqim.Users.{LoginAnswer, login}
use zqim.Users.Login.{IsTrusted, login-auth_handle}
use zqim.Users.Samples.{row, web, parm}

-- The token is the id in its claims, after a mark of the web server's.
abbrev jwt : Jwt
jwt = record {
  sign = λ key claims. some (b'!' ∷ claims.id);
  parse = λ key now token.
      parsed (record { id = token; name = []; not_before = 0; expires_at = now }) true;
}

abbrev unmarked : List ℕ → Option (List ℕ)
unmarked [] = none
unmarked (c ∷ cs) = some cs

abbrev trusting : Services (Option (List ℕ))
trusting = record services { uid_claim = unmarked }

abbrev or_empty : Option (List ℕ) → List ℕ
or_empty none = []
or_empty (some token) = token

trusted : IsTrusted trusting jwt 5000
trusted = record {
  accepted = λ claims token e b l. refl;
  claimed = λ claims token e. ap (λ o. unmarked (or_empty o)) (sym e);
  signed = λ claims token e h. absurd (ground (arith, e, h));
}

abbrev after : Web Tables ℕ
after = record web { comits = record { comits = []; tcpserver = "a" ∷ "b" ∷ []; index = 1 } }

abbrev answer : LoginAnswer
answer = record { ip = "b"; token = b'!' ∷ b'4' ∷ b'2' ∷ []; user = row }

abbrev request : Request
request = request_of 1 (b'!' ∷ b'4' ∷ b'2' ∷ [])

login-auth_handle_example :
    let r = auth_handle trusting 2 request server in
    (r.1 ≡ none)
    × (get_connect 42 r.0.world ≡ some 2)
    × ((r.0.world.conn 2).id ≡ 42)
    × ((r.0.world.conn 2).auth ≡ true)
unfolding login next_tcp_server generate_token create_token claims_of itoa itoa_loop holds num_of
    txt_of Maps.lookup
login-auth_handle_example =
    login-auth_handle trusting gorm jwt 4000 5000 2 parm web after answer answer.token request
      server trusted (omega arith) (omega arith) refl (omega arith) refl refl
