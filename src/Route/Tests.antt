-- ===== src/Route/Tests.antt =====
-- The routes at concrete inputs.
use zqim.Prelude.{ℕ, ◌≡◌, refl, false, [], ◌∷◌, Option, List}
use zqim.Frame.{Request}
use zqim.Ack.{on_conn}
use zqim.Services.{Sys, request_of}
use zqim.Services.Samples.{services, server}
use zqim.Route.{routes_run, set_router}
use zqim.Route.Guard.{one_message_guarded, routes_run-guarded}

-- Connection 0 is not authenticated.
abbrev stranger : Sys (Option (List ℕ))
stranger = record server { world = on_conn 0 (λ c. record c { auth = false }) server.world }

abbrev r : Request
r = request_of 2 (5 ∷ 7 ∷ 8 ∷ [])

routes_run-guarded_example : routes_run (set_router services 100) 0 r stranger ≡ stranger
routes_run-guarded_example = routes_run-guarded services 100 0 stranger r one_message_guarded refl
