-- ===== src/Http/Serve.antt =====
-- How a request gets through AuthMiddle of logic/middleware/authermiddle.go to its controller.
use zqim.Prelude.{ℕ, Option, none, some, List, [], if◌then◌else◌}
use zqim.Sql.{Gorm}
use zqim.Web.{Web, Redis}
use zqim.Token.{Jwt, auth_middle}
use zqim.Users.{}
use zqim.Oss.{Packages}
use zqim.Friends.Api.{}
use zqim.Groups.Api.{}
use zqim.Http.{Route, Gin, HttpRequest, Reply, token_error, not_found, Handler}
use zqim.Http.Table.{routes}

module _ {D R B : Type 0} (gin : Gin (Handler D R B) B) (gm : Gorm D) (rd : Redis R) (jwt : Jwt)
    (pk : Packages) (access_key_id access_key_secret : List ℕ) where
  -- AuthMiddle aborts what comes after it, or sets the uid for it.
  abbrev pub admitted :
      Handler D R B → HttpRequest B → Web D R → Option (List ℕ × List ℕ) → Option (Web D R × Reply)
  admitted h r w none = some (w, token_error)
  admitted h r w (some (name, uid)) = h uid r w

  abbrev pub dispatched :
      HttpRequest B → Web D R → Option (Route (Handler D R B)) → Option (Web D R × Reply)
  dispatched r w none = some (w, not_found)
  dispatched r w (some route) =
      if route.guarded
      then admitted route.handler r w (auth_middle jwt r.now r.token)
      else route.handler [] r w

  unfoldable pub serve : HttpRequest B → Web D R → Option (Web D R × Reply)
  unfolding routes auth_middle
  serve r w =
      dispatched r w
        (gin.find (routes gin gm rd jwt pk access_key_id access_key_secret) r.method r.path)
