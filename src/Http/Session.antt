-- ===== src/Http/Session.antt =====
-- From the login to the requests that show its token.
use zqim.Prelude.{ℕ, ◌+◌, ◌≤◌, ◌<◌, ◌≡◌, refl, ap, ◌∙◌, arith, true, some, List}
use zqim.Frame.{u32_mod}
use zqim.Sql.{Gorm, num_of, txt_of}
use zqim.Web.{Web, Redis, response_success}
use zqim.Token.{Jwt, claims_of, token_out, auth_middle, still_valid, secret_key, itoa, getuid}
use zqim.Token.Digits.{atoi_u32-itoa}
use zqim.Token.Refresh.{IsSigner, auth_middle-signed}
use zqim.Users.{LoginInput, LoginAnswer, login}
use zqim.Users.Login.{login-token, generated}
use zqim.Oss.{Packages}
use zqim.Http.{Route, Gin, HttpRequest, Handler}
use zqim.Http.Table.{routes}
use zqim.Http.Serve.{dispatched, serve}

getuid-itoa : (uid : ℕ) → uid < u32_mod → getuid (itoa uid) ≡ uid
unfolding getuid
getuid-itoa uid small = rw (atoi_u32-itoa uid small, getuid) refl

still_valid-claims_of :
    (jwt : Jwt) (t now uid : ℕ) (name : List ℕ)
    → t ≤ now
    → now ≤ t + token_out
    → still_valid jwt now (claims_of t uid name) ≡ some (name, itoa uid)
unfolding claims_of
still_valid-claims_of jwt t now uid name early late = ground arith

begun : (t now uid : ℕ) (name : List ℕ) → t ≤ now → (claims_of t uid name).not_before ≤ now
unfolding claims_of
begun t now uid name early = omega arith

ended :
    (t now uid : ℕ) (name : List ℕ) → now ≤ t + token_out → now ≤ (claims_of t uid name).expires_at
unfolding claims_of
ended t now uid name late = late

-- What a login answers with is let through as its user, until the token times out.
login-auth_middle :
    {D R : Type 0} (gm : Gorm D) (jwt : Jwt) (t now : ℕ) (parm : LoginInput) (w w' : Web D R)
    (ans : LoginAnswer) (token : List ℕ)
    → IsSigner jwt
    → login gm jwt t (some parm) w ≡ some (w', response_success ans)
    → jwt.sign secret_key (claims_of t (num_of "id" ans.user) (txt_of "username" ans.user))
      ≡ some token
    → t ≤ now
    → now ≤ t + token_out
    → auth_middle jwt now ans.token ≡ some (txt_of "username" ans.user, itoa (num_of "id" ans.user))
login-auth_middle gm jwt t now parm w w' ans token signer e s early late =
    let uid = num_of "id" ans.user in
    let name = txt_of "username" ans.user in
    let own : ans.token ≡ token =
      login-token gm jwt t parm w w' ans e ∙ generated jwt t uid name token s in
    ap (auth_middle jwt now) own
    ∙ auth_middle-signed jwt now (claims_of t uid name) token signer s (begun t now uid name early)
        (ended t now uid name late)
    ∙ still_valid-claims_of jwt t now uid name early late

module _ {D R B : Type 0} (gin : Gin (Handler D R B) B) (gm : Gorm D) (rd : Redis R) (jwt : Jwt)
    (pk : Packages) (access_key_id access_key_secret : List ℕ) where
  ran :
      (r : HttpRequest B) (v : Web D R) (route : Route (Handler D R B)) (user : List ℕ × List ℕ)
      → route.guarded ≡ true
      → auth_middle jwt r.now r.token ≡ some user
      → dispatched gin gm rd jwt pk access_key_id access_key_secret r v (some route)
        ≡ route.handler user.1 r v
  ran r v route user g a = rw (g, a) refl

  -- After a login at time `t` that succeeds, whose user's id is a uint32 and whose token could be
  -- signed, a request with the answer's token that comes before the token times out is run, on any
  -- route behind AuthMiddle, by that route's controller, with a text from which the controller gets
  -- that user's id.
  pub login-serve :
      (t : ℕ) (parm : LoginInput) (w w' v : Web D R) (ans : LoginAnswer) (token : List ℕ)
      (r : HttpRequest B) (route : Route (Handler D R B))
      → IsSigner jwt
      → login gm jwt t (some parm) w ≡ some (w', response_success ans)
      → jwt.sign secret_key (claims_of t (num_of "id" ans.user) (txt_of "username" ans.user))
        ≡ some token
      → num_of "id" ans.user < u32_mod
      → r.token ≡ ans.token
      → t ≤ r.now
      → r.now ≤ t + token_out
      → gin.find (routes gin gm rd jwt pk access_key_id access_key_secret) r.method r.path
        ≡ some route
      → route.guarded ≡ true
      → (text : List ℕ) × (getuid text ≡ num_of "id" ans.user)
        × (serve gin gm rd jwt pk access_key_id access_key_secret r v ≡ route.handler text r v)
  unfolding serve
  login-serve t parm w w' v ans token r route signer e s small own early late f g =
      let uid = num_of "id" ans.user in
      let a : auth_middle jwt r.now r.token ≡ some (txt_of "username" ans.user, itoa uid) =
        ap (auth_middle jwt r.now) own
        ∙ login-auth_middle gm jwt t r.now parm w w' ans token signer e s early late in
      (
        itoa uid,
        getuid-itoa uid small,
        ap (dispatched gin gm rd jwt pk access_key_id access_key_secret r v) f
            ∙ ran r v route _ g a,
      )
