-- ===== src/Route/Guard.antt =====
-- What AuthMiddleHandle keeps from a connection that is not authenticated.
use zqim.Prelude.{ℕ, ◌≡◌, refl, ap, ◌∙◌, true, false, Option, some, [], ◌∷◌, nat_eq}
use zqim.Prelude.Maps
use zqim.Frame.{Request}
use zqim.Services.{Services, Sys, delete_many_mesage}
use zqim.Acks.{delete_many_handle}
use zqim.Auth.{auth_middle_handle}
use zqim.Route.{
  HanleFunc, add_router, add_middleware, run_middleware, routes_run, set_router, guard,
}

-- The types of request that the middleware stands before.
pub data IsGuarded : ℕ → Type 0 where
  one_message_guarded : IsGuarded 2
  gorup_message_guarded : IsGuarded 3
  ack_mesage_guarded : IsGuarded 4
  ping_guarded : IsGuarded 6
  pull_notifie_guarded : IsGuarded 9

module _ {S : Type 0} (sv : Services S) (now a : ℕ) (y : Sys S) where
  guarded :
      (t : ℕ)
      → IsGuarded t
      → (h : Option (HanleFunc S)) × (Maps.lookup t (set_router sv now)
          ≡ some (record { middleware = guard sv now ∷ []; handle = h }))
  unfolding set_router add_router add_middleware Maps.lookup Maps.insert
  guarded _ one_message_guarded = (_, refl)
  guarded _ gorup_message_guarded = (_, refl)
  guarded _ ack_mesage_guarded = (_, refl)
  guarded _ ping_guarded = (_, refl)
  guarded _ pull_notifie_guarded = (_, refl)

  -- A guarded request of a connection that is not authenticated changes nothing at all.
  pub routes_run-guarded :
      (r : Request)
      → IsGuarded r.typ
      → (y.world.conn a).auth ≡ false
      → routes_run (set_router sv now) a r y ≡ y
  unfolding routes_run run_middleware auth_middle_handle
  routes_run-guarded r g e =
      let (h, l) = guarded r.typ g in rw (l, routes_run) (rw (e, run_middleware))

  delete_many_route :
      Maps.lookup delete_many_mesage (set_router sv now)
      ≡ some
          (record { middleware = []; handle = some (λ b q z. (delete_many_handle sv b q z, true)) })
  unfolding set_router add_router add_middleware Maps.lookup Maps.insert
  delete_many_route = refl

  -- A request to delete stored messages needs no authentication: it reaches its handler on every
  -- connection.
  routes_run-delete_many_handle :
      (r : Request)
      → r.typ ≡ delete_many_mesage
      → routes_run (set_router sv now) a r y ≡ delete_many_handle sv a r y
  unfolding routes_run run_middleware
  routes_run-delete_many_handle r e =
      let l = ap (λ t. Maps.lookup t (set_router sv now)) e ∙ delete_many_route in
      rw (l, routes_run)
