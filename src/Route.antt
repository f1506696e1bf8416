-- ===== src/Route.antt =====
-- The dispatcher: AddRouter and AddMiddleware of comit/fxsrv/server.go, routesRun of connect.go,
-- and the routes that comit/router/router.go sets. A pool of goroutines runs what routesRun hands
-- it; here it runs at once.
pub mod Guard
mod Tests
use zqim.Prelude.{ℕ, ◌≡◌, Bool, true, false, Option, none, some, List, [], ◌∷◌, ◌++◌, nat_eq}
use zqim.Prelude.Maps
use zqim.Frame.{Request}
use zqim.Conn.{ping_handle}
use zqim.Ack.{on_conn}
use zqim.Services.{
  Services, Sys, with_world, auth, one_message, gorup_message, ack_mesage, ping, pull_one_message,
  pull_gorup_message, pull_notifie, delete_many_mesage,
}
use zqim.Chat.{one_message_handle, gorup_message_handle}
use zqim.Acks.{ack_mesage_handle, delete_many_handle}
use zqim.Auth.{auth_handle, auth_middle_handle}
use zqim.Pull.{pull_one, pull_group, pull_notifies}

-- HanleFunc, with whether it returns without an error.
abbrev pub HanleFunc : Type 0 → Type 0
HanleFunc S = ℕ → Request → Sys S → Sys S × Bool

pub record Route (S : Type 0) : Type 0 where
  pub middleware : List (HanleFunc S)
  pub handle : Option (HanleFunc S)

module _ {S : Type 0} where
  -- A missing key gives a route without handlers.
  abbrev route_or_zero : Option (Route S) → Route S
  route_or_zero none = record { middleware = []; handle = none }
  route_or_zero (some r) = r

  unfoldable pub add_router : ℕ → HanleFunc S → List (ℕ × Route S) → List (ℕ × Route S)
  add_router typ h routes =
      let route = route_or_zero (Maps.lookup typ routes) in
      Maps.insert typ (record route { handle = some h }) routes

  unfoldable pub add_middleware : HanleFunc S → List ℕ → List (ℕ × Route S) → List (ℕ × Route S)
  add_middleware h [] routes = routes
  add_middleware h (t ∷ ts) routes =
      let route = route_or_zero (Maps.lookup t routes) in
      add_middleware h ts
        (Maps.insert t (record route { middleware = route.middleware ++ h ∷ [] }) routes)

  -- The first error ends the request.
  unfoldable pub run_middleware : List (HanleFunc S) → ℕ → Request → Sys S → Sys S × Bool
  run_middleware [] a r y = (y, true)
  run_middleware (h ∷ hs) a r y =
      let (y', ok) = h a r y in elim ok [ false ↦ (y', false) | true ↦ run_middleware hs a r y' ]

  abbrev then_handle : Option (HanleFunc S) → ℕ → Request → Sys S × Bool → Sys S
  then_handle h a r (y, false) = y
  then_handle none a r (y, true) = y
  then_handle (some h) a r (y, true) = (h a r y).0

  unfoldable pub routes_run : List (ℕ × Route S) → ℕ → Request → Sys S → Sys S
  unfolding run_middleware
  routes_run routes a r y = elim (Maps.lookup r.typ routes) [
    | none ↦ y
    | some route ↦ then_handle route.handle a r (run_middleware route.middleware a r y)
  ]

abbrev is_nil {ℓ} : {E : Type ℓ} → Option E → Bool
is_nil none = true
is_nil (some e) = false

module _ {S : Type 0} (sv : Services S) (now : ℕ) where
  abbrev pub guard : HanleFunc S
  guard a r y = (y, auth_middle_handle sv a y)

  -- The handlers as HanleFuncs.
  abbrev one : HanleFunc S
  one a r y = let (y', e) = one_message_handle sv a r y in (y', is_nil e)

  abbrev group : HanleFunc S
  group a r y = let (y', e) = gorup_message_handle sv now a r y in (y', is_nil e)

  abbrev login : HanleFunc S
  login a r y = let (y', e) = auth_handle sv a r y in (y', is_nil e)

  unfoldable pub set_router : List (ℕ × Route S)
  unfolding add_router add_middleware
  set_router =
      let r₁ = add_router one_message one [] in
      let r₂ = add_router gorup_message group r₁ in
      let r₃ = add_router ack_mesage (λ a r y. (ack_mesage_handle sv a r y, true)) r₂ in
      let r₄ = add_router auth login r₃ in
      let r₅ = add_router ping (λ a r y. (with_world (on_conn a (ping_handle now)) y, true)) r₄ in
      let r₆ = add_router pull_one_message (λ a r y. pull_one sv a y) r₅ in
      let r₇ = add_router pull_gorup_message (λ a r y. pull_group sv a y) r₆ in
      let r₈ = add_router delete_many_mesage (λ a r y. (delete_many_handle sv a r y, true)) r₇ in
      let r₉ = add_router pull_notifie (λ a r y. pull_notifies sv a y) r₈ in
      add_middleware guard (pull_notifie ∷ one_message ∷ gorup_message ∷ ack_mesage ∷ ping ∷ []) r₉
