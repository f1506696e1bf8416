-- ===== src/Auth/Tests.antt =====
-- Runs of AuthHandle, and the theorems at concrete inputs.
use zqim.Prelude.{◌≡◌, arith, none, some, [], ◌∷◌, true, nat_eq}
use zqim.Frame.{Request}
use zqim.Ack.{get_connect}
use zqim.Services.{request_of}
use zqim.Services.Samples.{services, server}
use zqim.Auth.{auth_handle, log_in, close_handle}
use zqim.Auth.Login.{Authenticated, auth_handle-Authenticated}
use zqim.Auth.Relogin.{log_in-close_handle}

-- A token that names user 42.
abbrev login : Request
login = request_of 1 (b'4' ∷ b'2' ∷ [])

auth_handle-Authenticated_example :
    Authenticated services 2 login server (auth_handle services 2 login server)
auth_handle-Authenticated_example = auth_handle-Authenticated services 2 login server

log_in-close_handle_example :
    let y₂ = log_in services 3 42 (log_in services 2 42 server) in
    let w = (close_handle services 2 y₂).world in
    (get_connect 42 y₂.world ≡ some 3)
    × (get_connect 42 w ≡ none)
    × ((w.conn 3).id ≡ 42)
    × ((w.conn 3).auth ≡ true)
    × ((w.conn 3).is_close ≡ (server.world.conn 3).is_close)
log_in-close_handle_example = log_in-close_handle services 2 3 42 server (λ e. absurd (omega arith))
