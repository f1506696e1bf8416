-- ===== src/Users/Login.antt =====
-- From the login at the web server to the authentication at a connection server.
use Prim.Native.String.{String}
use zqim.Prelude.{
  ℕ, ◌+◌, ◌≤◌, ◌<◌, ◌≡◌, ◌≢◌, refl, sym, ap, ◌∙◌, arith, true, Option, none, some, List, [], inl,
  inr, ◌⊎◌,
}
use zqim.Frame.{Request, u32_mod}
use zqim.Services.{Services, Sys}
use zqim.Ack.{get_connect}
use zqim.Auth.{auth_handle}
use zqim.Auth.Login.{IsAuthentic, IsAuthentic-accepted, log_in-conn, log_in-connect}
use zqim.Balance.{ComitManages, next_tcp_server}
use zqim.Sql.{Found, found, record_not_found, failed, Row, Gorm, num_of, txt_of}
use zqim.Web.{Web, Response, response_success, response_error, set_error}
use zqim.Token.{Jwt, Claims, claims_of, generate_token, create_token, secret_key, token_out, itoa}
use zqim.Token.Digits.{atoi_u32-itoa}
use zqim.Users.{with_ip, LoginInput, LoginAnswer, by_name, login}

-- What the two servers share: the secret and jwt. A token that was signed here is accepted there at
-- a time `now` within its two times, with its uid; a signed token is not empty.
pub record IsTrusted {S : Type 0} (sv : Services S) (jwt : Jwt) (now : ℕ) : Type 0 where
  pub accepted :
      (claims : Claims) (token : List ℕ)
      → jwt.sign secret_key claims ≡ some token
      → claims.not_before ≤ now
      → now ≤ claims.expires_at
      → sv.valid_claims token ≡ true
  pub claimed :
      (claims : Claims) (token : List ℕ)
      → jwt.sign secret_key claims ≡ some token
      → sv.uid_claim token ≡ some claims.id
  pub signed :
      (claims : Claims) (token : List ℕ) → jwt.sign secret_key claims ≡ some token → token ≢ []

pub generated :
    (jwt : Jwt) (t uid : ℕ) (name token : List ℕ)
    → jwt.sign secret_key (claims_of t uid name) ≡ some token
    → generate_token jwt t uid name ≡ token
unfolding generate_token create_token
generated jwt t uid name token e = rw e

token-IsAuthentic :
    {S : Type 0} (sv : Services S) (jwt : Jwt) (t now uid : ℕ) (name token : List ℕ)
    (request : Request)
    → IsTrusted sv jwt now
    → t ≤ now
    → now ≤ t + token_out
    → uid < u32_mod
    → jwt.sign secret_key (claims_of t uid name) ≡ some token
    → sv.unmarshal_token request.body ≡ some token
    → IsAuthentic sv request uid
unfolding claims_of
token-IsAuthentic sv jwt t now uid name token request trusted early late small e sent = record {
  token = token;
  uidstr = itoa uid;
  sent = sent;
  present = trusted.signed (claims_of t uid name) token e;
  valid = trusted.accepted (claims_of t uid name) token e (omega arith) (omega arith);
  claim = trusted.claimed (claims_of t uid name) token e;
  number = atoi_u32-itoa uid small;
}

pub Found-cases :
    (f : Found) → ((row : Row) × (f ≡ found row)) ⊎ (f ≡ record_not_found) ⊎ (f ≡ failed)
Found-cases (found row) = inl (row, refl)
Found-cases record_not_found = inr (inl refl)
Found-cases failed = inr (inr refl)

abbrev token_of : {D R : Type 0} → Option (Web D R × Response LoginAnswer) → List ℕ
token_of none = []
token_of (some (w, response_success ans)) = ans.token
token_of (some (w, response_error code)) = []
token_of (some (w, set_error code)) = []

abbrev user_of : {D R : Type 0} → Option (Web D R × Response LoginAnswer) → Row
user_of none = []
user_of (some (w, response_success ans)) = ans.user
user_of (some (w, response_error code)) = []
user_of (some (w, set_error code)) = []

with_ip-parts :
    {D R : Type 0} (token : List ℕ) (row : Row) (next : Option String × ComitManages)
    (w w' : Web D R) (ans : LoginAnswer)
    → with_ip token row next w ≡ some (w', response_success ans)
    → (ans.token ≡ token) × (ans.user ≡ row)
with_ip-parts token row (none, m) w w' ans e = cc
with_ip-parts token row (some ip, m) w w' ans e = (sym (ap token_of e), sym (ap user_of e))

-- A login that succeeds has the row of the user in its answer, with that user's token.
pub login-token :
    {D R : Type 0} (gm : Gorm D) (jwt : Jwt) (t : ℕ) (parm : LoginInput) (w w' : Web D R)
    (ans : LoginAnswer)
    → login gm jwt t (some parm) w ≡ some (w', response_success ans)
    → ans.token ≡ generate_token jwt t (num_of "id" ans.user) (txt_of "username" ans.user)
unfolding login
login-token gm jwt t parm w w' ans e = elim (Found-cases (gm.first (by_name gm parm) w.db)) [
  | inl (row, f) ↦
      let g =
        with_ip-parts _ row (next_tcp_server w.comits) w w' ans (sym (rw (f, login) refl) ∙ e) in
      g.0 ∙ ap (λ r. generate_token jwt t (num_of "id" r) (txt_of "username" r)) (sym g.1)
  | inr (inl f) ↦
      let g : login gm jwt t (some parm) w ≡ some (w, response_error 500) = rw (f, login) in cc
  | inr (inr f) ↦
      let g : login gm jwt t (some parm) w ≡ some (w, response_error 500) = rw (f, login) in cc
]

-- A login at time `t` that succeeds lets its user in at a connection server that trusts the web
-- server, until the token times out, if the user's id is a uint32 and the token could be signed: an
-- authentication request with the answer's token makes its connection that user's and
-- authenticated.
pub login-auth_handle :
    {S D R : Type 0} (sv : Services S) (gm : Gorm D) (jwt : Jwt) (t now a : ℕ) (parm : LoginInput)
    (w w' : Web D R) (ans : LoginAnswer) (token : List ℕ) (request : Request) (y : Sys S)
    → IsTrusted sv jwt now
    → t ≤ now
    → now ≤ t + token_out
    → login gm jwt t (some parm) w ≡ some (w', response_success ans)
    → num_of "id" ans.user < u32_mod
    → jwt.sign secret_key (claims_of t (num_of "id" ans.user) (txt_of "username" ans.user))
      ≡ some token
    → sv.unmarshal_token request.body ≡ some ans.token
    → let r = auth_handle sv a request y in
      let uid = num_of "id" ans.user in
      (r.1 ≡ none)
      × (get_connect uid r.0.world ≡ some a)
      × ((r.0.world.conn a).id ≡ uid)
      × ((r.0.world.conn a).auth ≡ true)
unfolding auth_handle
login-auth_handle sv gm jwt t now a parm w w' ans token request y trusted early late e small s
      sent =
    let uid = num_of "id" ans.user in
    let name = txt_of "username" ans.user in
    let own : ans.token ≡ token =
      login-token gm jwt t parm w w' ans e ∙ generated jwt t uid name token s in
    let authentic =
      token-IsAuthentic sv jwt t now uid name token request trusted early late small s
        (sent ∙ ap some own) in
    let accepted = IsAuthentic-accepted sv request uid authentic in
    let (i, u, o) = log_in-conn sv a uid y in rw accepted (refl, log_in-connect sv a uid y, i, u)
