-- ===== src/Http/Guard.antt =====
-- What a request without a valid token comes to.
use Prim.Native.String.{String}
use mathlib.Core.List.{Memᴰ}
use zqim.Prelude.{
  ℕ, ◌≡◌, refl, ap, ◌∙◌, arith, Bool, true, false, ◌&&◌, ◌||◌, none, some, List, [], ◌∷◌,
  Option-cases, inl, inr, ◌⊎◌, string_eq,
}
use zqim.Sql.{Gorm}
use zqim.Web.{Web, Redis}
use zqim.Token.{Jwt, auth_middle}
use zqim.Oss.{Packages}
use zqim.Http.{Method, get, post, Route, Gin, HttpRequest, token_error, not_found, Handler}
use zqim.Http.Table.{routes}
use zqim.Http.Serve.{dispatched, serve}

-- gin finds only what was registered, for the request's method and path; no path here has a
-- parameter.
pub record IsRouter {H B : Type 0} (gin : Gin H B) : Type 0 where
  pub registered :
      (rs : List (Route H)) (m : Method) (p : String) (route : Route H)
      → gin.find rs m p ≡ some route
      → Memᴰ route rs × (route.method ≡ m) × (route.path ≡ p)

abbrev pub same_method : Method → Method → Bool
same_method get get = true
same_method get post = false
same_method post get = false
same_method post post = true

abbrev listed : List (Method × String) → Method → String → Bool
listed [] m p = false
listed ((m', p') ∷ rest) m p = (same_method m' m && string_eq.beq p' p) || listed rest m p

-- What anybody may ask for.
unfoldable pub is_open : Method → String → Bool
is_open = listed (
    (post, "/login")
    ∷ (post, "/register")
    ∷ (post, "/logout")
    ∷ (get, "/user/get")
    ∷ (get, "/getcurrent")
    ∷ (get, "/friend/serach")
    ∷ [])

abbrev pub is_kept : {H : Type 0} → Route H → Bool
is_kept route = route.guarded || is_open route.method route.path

abbrev are_kept : {H : Type 0} → List (Route H) → Bool
are_kept [] = true
are_kept (route ∷ rest) = is_kept route && are_kept rest

pub Mem-is_kept :
    {H : Type 0} {route : Route H} (rs : List (Route H))
    → Memᴰ route rs
    → are_kept rs ≡ true
    → is_kept route ≡ true
Mem-is_kept [] i h = elim i [ ]
Mem-is_kept (r ∷ rs) (Memᴰ.head e) h = ap is_kept e ∙ (ground (arith, h))
Mem-is_kept (r ∷ rs) (Memᴰ.tail i) h = Mem-is_kept rs i (ground (arith, h))

module _ {D R B : Type 0} (gin : Gin (Handler D R B) B) (gm : Gorm D) (rd : Redis R) (jwt : Jwt)
    (pk : Packages) (access_key_id access_key_secret : List ℕ) where
  routes-are_kept : are_kept (routes gin gm rd jwt pk access_key_id access_key_secret) ≡ true
  unfolding routes is_open
  routes-are_kept = refl

  refused :
      (r : HttpRequest B) (w : Web D R) (route : Route (Handler D R B))
      → auth_middle jwt r.now r.token ≡ none
      → route.guarded ≡ true
      → dispatched gin gm rd jwt pk access_key_id access_key_secret r w (some route)
        ≡ some (w, token_error)
  refused r w route a g = rw (g, a) refl

  guarded :
      (route : Route (Handler D R B))
      → is_kept route ≡ true
      → is_open route.method route.path ≡ false
      → route.guarded ≡ true
  guarded route k o = ground (arith, k, o)

  -- With a token that AuthMiddle does not take, a request to a path that is not one of the six open
  -- ones changes nothing in the server, and is answered with the token's error, or with gin's 404
  -- if it has no route; gin has to find only registered routes, by their method and path.
  pub serve-refused :
      (r : HttpRequest B) (w : Web D R)
      → IsRouter gin
      → auth_middle jwt r.now r.token ≡ none
      → is_open r.method r.path ≡ false
      → (serve gin gm rd jwt pk access_key_id access_key_secret r w ≡ some (w, token_error))
        ⊎ (serve gin gm rd jwt pk access_key_id access_key_secret r w ≡ some (w, not_found))
  unfolding serve
  serve-refused r w router a o =
      let table = routes gin gm rd jwt pk access_key_id access_key_secret in
      elim (Option-cases (gin.find table r.method r.path)) [
        | inl n ↦ inr (rw n refl)
        | inr (route, f) ↦
            let (i, m, p) = router.registered table r.method r.path route f in
            let shut : is_open route.method route.path ≡ false = rw (m, p) o in
            inl (
              ap (dispatched gin gm rd jwt pk access_key_id access_key_secret r w) f
              ∙ refused r w route a (guarded route (Mem-is_kept table i routes-are_kept) shut))
      ]
