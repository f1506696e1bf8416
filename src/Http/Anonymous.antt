-- ===== src/Http/Anonymous.antt =====
-- What the open routes change.
use Prim.Native.String.{String}
use mathlib.Core.List.{Memᴰ}
use mathlib.Core.Path.{subst}
use zqim.Prelude.{
  ℕ, ◌≡◌, refl, sym, arith, Bool, true, false, Option, none, some, List, [], ◌∷◌, ◌&&◌, All,
  string_eq, Option-cases, Bool-cases, inl, inr, ◌⊎◌,
}
use zqim.Balance.{ComitManages, next_tcp_server}
use zqim.Sql.{Gorm, Row}
use zqim.Web.{Web, Redis}
use zqim.Token.{Jwt, auth_middle}
use zqim.Users.{LoginInput, with_ip, by_name, login}
use zqim.Users.Login.{Found-cases}
use zqim.Oss.{Packages}
use zqim.Http.{Method, post, Route, Gin, HttpRequest, Reply, Handler, logged_in, may_panic}
use zqim.Http.Table.{routes}
use zqim.Http.Serve.{dispatched, serve}
use zqim.Http.Guard.{IsRouter, same_method}

-- Everything but the turn of NextTcpServer is as it was.
pub record Kept {D R : Type 0} (w w' : Web D R) : Type 0 where
  pub db : w'.db ≡ w.db
  pub cache : w'.cache ≡ w.cache
  pub opened : w'.opened ≡ w.opened
  pub calls : w'.calls ≡ w.calls
  pub comits : w'.comits.comits ≡ w.comits.comits
  pub tcpserver : w'.comits.tcpserver ≡ w.comits.tcpserver

module _ {D R : Type 0} where
  same-Kept : (w : Web D R) → Kept w w
  same-Kept w = record {
    db = refl;
    cache = refl;
    opened = refl;
    calls = refl;
    comits = refl;
    tcpserver = refl;
  }

  -- What an answer comes with.
  abbrev pub after_answer : {A : Type 0} → Web D R → Option (Web D R × A) → Web D R
  after_answer w none = w
  after_answer w (some (w', a)) = w'

  with_ip-Kept :
      (token : List ℕ) (row : Row) (next : Option String × ComitManages) (w : Web D R)
      → next.1.comits ≡ w.comits.comits
      → next.1.tcpserver ≡ w.comits.tcpserver
      → Kept w (after_answer w (with_ip token row next w))
  with_ip-Kept token row (none, m) w c t = same-Kept w
  with_ip-Kept token row (some ip, m) w c t = record {
    db = refl;
    cache = refl;
    opened = refl;
    calls = refl;
    comits = c;
    tcpserver = t;
  }

  login-Kept :
      (gm : Gorm D) (jwt : Jwt) (now : ℕ) (parm : Option LoginInput) (w : Web D R)
      → Kept w (after_answer w (login gm jwt now parm w))
  unfolding login next_tcp_server
  login-Kept gm jwt now none w = same-Kept w
  login-Kept gm jwt now (some parm) w = elim (Found-cases (gm.first (by_name gm parm) w.db)) [
    | inl (row, f) ↦ rw (f, login) (with_ip-Kept _ row (next_tcp_server w.comits) w refl refl)
    | inr (inl f) ↦ rw (f, login) (same-Kept w)
    | inr (inr f) ↦ rw (f, login) (same-Kept w)
  ]

  may_panic-Kept :
      {A : Type 0} (f : A → Reply) (w : Web D R) (o : Option (Web D R × A))
      → Kept w (after_answer w o)
      → Kept w (after_answer w (may_panic f o))
  may_panic-Kept f w none k = k
  may_panic-Kept f w (some (w', a)) k = k

unfoldable pub is_register : Method → String → Bool
is_register m p = same_method m post && string_eq.beq p "/register"

Mem-All : {A : Type 0} {a : A} (P : A → Type 0) (xs : List A) → Memᴰ a xs → All P xs → P a
Mem-All P [] i h = elim i [ ]
Mem-All P (x ∷ xs) (Memᴰ.head e) h = subst P (sym e) h.0
Mem-All P (x ∷ xs) (Memᴰ.tail i) h = Mem-All P xs i h.1

module _ {D R B : Type 0} (gin : Gin (Handler D R B) B) (gm : Gorm D) (rd : Redis R) (jwt : Jwt)
    (pk : Packages) (access_key_id access_key_secret : List ℕ) where
  Harmless : Route (Handler D R B) → Type 0
  Harmless route =
      (route.guarded ≡ true)
      ⊎ (is_register route.method route.path ≡ true)
      ⊎ ((uid : List ℕ) (r : HttpRequest B) (w : Web D R)
          → Kept w (after_answer w (route.handler uid r w)))

  routes-Harmless : All Harmless (routes gin gm rd jwt pk access_key_id access_key_secret)
  unfolding Harmless routes is_register
  routes-Harmless =
      let logs_in : (uid : List ℕ) (r : HttpRequest B) (w : Web D R)
          → Kept w (
              after_answer w
                (may_panic logged_in (login gm jwt r.now (gin.login_input r.body) w))) =
        λ uid r w.
          may_panic-Kept logged_in w (login gm jwt r.now (gin.login_input r.body) w)
            (login-Kept gm jwt r.now (gin.login_input r.body) w) in
      (
        inr (inr logs_in),
        (
          inr (inl refl),
          (
            inr (inr logs_in),
            (
              inr (inr (λ uid r w. same-Kept w)),
              (
                inr (inr (λ uid r w. same-Kept w)),
                (
                  inl refl,
                  (
                    inl refl,
                    (
                      inl refl,
                      (
                        inl refl,
                        (
                          inl refl,
                          (
                            inl refl,
                            (
                              inl refl,
                              (
                                inl refl,
                                (
                                  inl refl,
                                  (
                                    inr (inr (λ uid r w. same-Kept w)),
                                    (
                                      inl refl,
                                      (
                                        inl refl,
                                        (
                                          inl refl,
                                          (
                                            inl refl,
                                            (inl refl, (inl refl, (inl refl, (inl refl, tt)))),
                                          ),
                                        ),
                                      ),
                                    ),
                                  ),
                                ),
                              ),
                            ),
                          ),
                        ),
                      ),
                    ),
                  ),
                ),
              ),
            ),
          ),
        ),
      )

  -- What `dispatched` does without a token.
  dispatched-Kept :
      (r : HttpRequest B) (w : Web D R) (route : Route (Handler D R B))
      → auth_middle jwt r.now r.token ≡ none
      → is_register route.method route.path ≡ false
      → Harmless route
      → Kept w (
          after_answer w
            (dispatched gin gm rd jwt pk access_key_id access_key_secret r w (some route)))
  unfolding Harmless
  dispatched-Kept r w route a o (inl g) = rw (g, a) (same-Kept w)
  dispatched-Kept r w route a o (inr (inl g)) = absurd (ground (arith, o, g))
  dispatched-Kept r w route a o (inr (inr k)) = elim (Bool-cases route.guarded) [
    | inl g ↦ rw (g, a) (same-Kept w)
    | inr g ↦ rw g (k [] r w)
  ]

  -- With a token that AuthMiddle does not take, a request that the web server answers leaves the
  -- database, redis, the calls made and the list and the table of connection servers as they were,
  -- unless it is a registration; gin has to find only registered routes, by their method and path.
  pub serve-Kept :
      (r : HttpRequest B) (w : Web D R)
      → IsRouter gin
      → auth_middle jwt r.now r.token ≡ none
      → is_register r.method r.path ≡ false
      → Kept w (after_answer w (serve gin gm rd jwt pk access_key_id access_key_secret r w))
  unfolding serve
  serve-Kept r w router a o =
      let table = routes gin gm rd jwt pk access_key_id access_key_secret in
      elim (Option-cases (gin.find table r.method r.path)) [
        | inl n ↦ rw n (same-Kept w)
        | inr (route, f) ↦
            let (i, m, p) = router.registered table r.method r.path route f in
            let other : is_register route.method route.path ≡ false = rw (m, p) o in
            rw f (dispatched-Kept r w route a other (Mem-All Harmless table i routes-Harmless))
      ]
