-- ===== src/Http/Tests.antt =====
-- Requests at a concrete input.
use Prim.Native.String.{String}
use mathlib.Core.List.{Memᴰ}
use zqim.Prelude.{
  ℕ, ◌≡◌, refl, sym, ap, ◌∙◌, arith, Bool, true, false, ◌&&◌, Option, none, some, List, [], ◌∷◌,
  if◌then◌else◌, Bool-cases, inl, inr, ◌⊎◌, string_eq,
}
use zqim.Prelude.Maps
use zqim.Sql.Laws.{holds}
use zqim.Sql.Samples.{Tables, gorm}
use zqim.Balance.{next_tcp_server}
use zqim.Web.{Web}
use zqim.Web.Samples.{Cache, redis}
use zqim.Sql.{num_of, txt_of}
use zqim.Token.{auth_middle, generate_token, create_token, claims_of, itoa, itoa_loop, getuid}
use zqim.Token.Samples.{jwt, signer}
use zqim.Users.{LoginAnswer, login}
use zqim.Users.Samples.{row, web, parm}
use zqim.Groups.Api.{quit_group_handler}
use zqim.Oss.Samples.{packages}
use zqim.Http.{
  Method, get, post, Route, Gin, HttpRequest, Handler, writes, done, token_error, not_found,
}
use zqim.Http.Table.{routes}
use zqim.Http.Serve.{serve}
use zqim.Http.Guard.{IsRouter, same_method, is_open, serve-refused}
use zqim.Http.Anonymous.{Kept, after_answer, is_register, serve-Kept}
use zqim.Http.Session.{login-serve}

-- The first route with the method and the path.
abbrev first_route : {H : Type 0} → List (Route H) → Method → String → Option (Route H)
first_route [] m p = none
first_route (route ∷ rest) m p =
    let later = first_route rest m p in
    if same_method route.method m && string_eq.beq route.path p then some route else later

same_method-≡ : (m n : Method) → same_method m n ≡ true → m ≡ n
same_method-≡ get get e = refl
same_method-≡ get post e = cc
same_method-≡ post get e = cc
same_method-≡ post post e = refl

abbrev or_else : {A : Type 0} → A → Option A → A
or_else a none = a
or_else a (some b) = b

chosen : {A : Type 0} → (b : Bool) (x y : A) → b ≡ true → (if b then x else y) ≡ x
chosen b x y h = rw h refl

passed : {A : Type 0} → (b : Bool) (x y : A) → b ≡ false → (if b then x else y) ≡ y
passed b x y h = rw h refl

both : (a b : Bool) → (a && b) ≡ true → (a ≡ true) × (b ≡ true)
both a b h = ground (arith, h)

first_route-registered :
    {H : Type 0} (rs : List (Route H)) (m : Method) (p : String) (route : Route H)
    → first_route rs m p ≡ some route
    → Memᴰ route rs × (route.method ≡ m) × (route.path ≡ p)
first_route-registered [] m p route e = cc
first_route-registered (x ∷ rest) m p route e =
    elim (Bool-cases (same_method x.method m && string_eq.beq x.path p)) [
      | inl h ↦
          let same : x ≡ route = ap (or_else x) (sym (chosen _ (some x) _ h) ∙ e) in
          let (a, b) = both (same_method x.method m) (string_eq.beq x.path p) h in
          (
            Memᴰ.head (sym same),
            ap (λ r. r.method) (sym same) ∙ same_method-≡ x.method m a,
            ap (λ r. r.path) (sym same) ∙ (string_eq.beq_iff x.path p).0 b,
          )
      | inr h ↦
          let (i, a, b) = first_route-registered rest m p route (sym (passed _ (some x) _ h) ∙ e) in
          (Memᴰ.tail i, a, b)
    ]

-- Bodies are not read.
abbrev gin : Gin (Handler Tables Cache ℕ) ℕ
gin = record {
  find = first_route;
  login_input = λ b. some parm;
  register_parm = λ b. none;
  uid_parm = λ b. none;
  head_image_parm = λ b. none;
  page_parm = λ b. some b;
  add_friend_parm = λ b. none;
  agree_parm = λ b. none;
  friend_parm = λ b. none;
  serach_parm = λ b. none;
  create_group_param = λ b. none;
  group_param = λ b. some b;
  members_parm = λ b. none;
  invitation_parm = λ b. none;
}

router : IsRouter gin
router = record { registered = λ rs m p route e. first_route-registered rs m p route e }

abbrev shown : List ℕ → HttpRequest ℕ
shown token = record {
  now = 5000;
  method = post;
  path = "/group/quit";
  token = token;
  body = 3;
  draw = 0;
  visit = λ c. c;
}

abbrev server : Web Tables Cache
server = record { db = web.db; opened = 0; cache = none; comits = web.comits; calls = [] }

serve-refused_example :
    (serve gin gorm redis jwt packages [] [] (shown []) server ≡ some (server, token_error))
    ⊎ (serve gin gorm redis jwt packages [] [] (shown []) server ≡ some (server, not_found))
unfolding auth_middle is_open
serve-refused_example =
    serve-refused gin gorm redis jwt packages [] [] (shown []) server router refl refl

-- A login, whose answer has the token of its user.
abbrev login_request : HttpRequest ℕ
login_request = record {
  now = 5000;
  method = post;
  path = "/login";
  token = [];
  body = 0;
  draw = 0;
  visit = λ c. c;
}

serve-Kept_example :
    Kept server (after_answer server (serve gin gorm redis jwt packages [] [] login_request server))
unfolding auth_middle is_register
serve-Kept_example =
    serve-Kept gin gorm redis jwt packages [] [] login_request server router refl refl

abbrev answer : LoginAnswer
answer = record { ip = "b"; token = 2 ∷ 3000 ∷ 3604000 ∷ b'4' ∷ b'2' ∷ b'u' ∷ []; user = row }

abbrev after : Web Tables Cache
after = record server { comits = record { comits = []; tcpserver = "a" ∷ "b" ∷ []; index = 1 } }

-- The route of /group/quit, which the request asks for.
abbrev found_route : Route (Handler Tables Cache ℕ)
found_route = record {
  guarded = true;
  method = post;
  path = "/group/quit";
  handler = λ uid r w.
      writes done (quit_group_handler gorm redis (getuid uid) (gin.group_param r.body) w);
}

login-serve_example :
    (text : List ℕ) × (getuid text ≡ 42)
    × (serve gin gorm redis jwt packages [] [] (shown answer.token) after
        ≡ found_route.handler text (shown answer.token) after)
unfolding login next_tcp_server generate_token create_token claims_of itoa itoa_loop holds num_of
    txt_of Maps.lookup routes
login-serve_example =
    login-serve gin gorm redis jwt packages [] [] 4000 parm server after after answer answer.token
      (shown answer.token) found_route signer refl refl (omega arith) refl (omega arith)
      (omega arith) refl refl
