-- ===== src/Auth/Login.antt =====
-- What AuthHandle makes of a connection, and what CloseHandle takes away with it.
use mathlib.Core.Path.{subst}
use zqim.Prelude.{
  ℕ, ◌≡◌, ◌≢◌, refl, sym, arith, Option, none, some, List, [], ◌∷◌, true, false, ◌==◌, inl, inr,
  Bool-cases, Option-cases, nat_eq,
}
use zqim.Prelude.Maps
use zqim.Frame.{Request}
use zqim.Conn.{write, close}
use zqim.Ack.{get_connect, add_connect}
use zqim.Services.{Services, Sys}
use zqim.Cache.{atoi_u32}
use zqim.Auth.{
  AuthError, unmarshal_fail, auth_fail, token_error, Checked, accepted, refused, check_uid,
  check_token, check_request, answer, auth_handle, log_in, authreply,
}

module _ {S : Type 0} (sv : Services S) where
  -- The token of the request is in order, and names this user.
  pub record IsAuthentic (request : Request) (uid : ℕ) : Type 0 where
    pub token : List ℕ
    pub uidstr : List ℕ
    pub sent : sv.unmarshal_token request.body ≡ some token
    pub present : token ≢ []
    pub valid : sv.valid_claims token ≡ true
    pub claim : sv.uid_claim token ≡ some uidstr
    pub number : atoi_u32 uidstr ≡ some uid

  -- The two ends of AuthHandle on a connection.
  pub data Authenticated (a : ℕ) (request : Request) (y : Sys S) (r : Sys S × Option AuthError)
      : Type 0 where
    logged_in :
        (uid : ℕ)
        → IsAuthentic request uid
        → r.1 ≡ none
        → get_connect uid r.0.world ≡ some a
        → (r.0.world.conn a).id ≡ uid
        → (r.0.world.conn a).auth ≡ true
        → Authenticated a request y r
    turned_away :
        (e : AuthError)
        → ((uid : ℕ) → ¬ IsAuthentic request uid)
        → r.1 ≡ some e
        → r.0.world.cons ≡ y.world.cons
        → (r.0.world.conn a).auth ≡ (y.world.conn a).auth
        → (r.0.world.conn a).is_close ≡ true
        → Authenticated a request y r

  -- How the checks can end.
  pub data Ends (request : Request) (c : Checked) : Type 0 where
    authentic : (uid : ℕ) → IsAuthentic request uid → c ≡ accepted uid → Ends request c
    refusal : (code : ℕ) (e : AuthError) → (code == 0) ≡ false → c ≡ refused code e → Ends request c

  check_uid-Ends :
      (request : Request) (x : ℕ) (xs : List ℕ)
      → sv.unmarshal_token request.body ≡ some (x ∷ xs)
      → sv.valid_claims (x ∷ xs) ≡ true
      → Ends request (check_uid sv (x ∷ xs))
  unfolding check_uid
  check_uid-Ends request x xs t v = elim (Option-cases (sv.uid_claim (x ∷ xs))) [
    | inl e ↦ refusal 3 token_error refl (rw (e, check_uid))
    | inr (u, e) ↦ elim (Option-cases (atoi_u32 u)) [
      | inl f ↦ refusal 3 token_error refl (rw (e, check_uid) (rw f))
      | inr (uid, f) ↦
          authentic uid
            (record {
              token = x ∷ xs;
              uidstr = u;
              sent = t;
              present = λ h. cc;
              valid = v;
              claim = e;
              number = f;
            })
            (rw (e, check_uid) (rw f))
    ]
  ]

  check_token-Ends :
      (request : Request) (token : List ℕ)
      → sv.unmarshal_token request.body ≡ some token
      → Ends request (check_token sv token)
  unfolding check_token
  check_token-Ends request [] t = refusal 2 auth_fail refl refl
  check_token-Ends request (x ∷ xs) t = elim (Bool-cases (sv.valid_claims (x ∷ xs))) [
    | inl v ↦ rw v (check_uid-Ends request x xs t v)
    | inr v ↦ refusal 2 token_error refl (rw v)
  ]

  pub check_request-Ends : (request : Request) → Ends request (check_request sv request)
  unfolding check_request
  check_request-Ends request = elim (Option-cases (sv.unmarshal_token request.body)) [
    | inl e ↦ refusal 4 unmarshal_fail refl (rw (e, check_request))
    | inr (token, e) ↦ rw (e, check_request) (check_token-Ends request token e)
  ]

  token-accepted :
      (token u : List ℕ) (uid : ℕ)
      → token ≢ []
      → sv.valid_claims token ≡ true
      → sv.uid_claim token ≡ some u
      → atoi_u32 u ≡ some uid
      → check_token sv token ≡ accepted uid
  unfolding check_token check_uid
  token-accepted [] u uid d v c n = absurd (d refl)
  token-accepted (x ∷ xs) u uid d v c n = rw (v, check_token) (rw (c, check_uid) (rw n))

  pub IsAuthentic-accepted :
      (request : Request) (uid : ℕ)
      → IsAuthentic request uid
      → check_request sv request ≡ accepted uid
  unfolding check_request
  IsAuthentic-accepted request uid h =
      rw (h.sent, check_request)
        (token-accepted h.token h.uidstr uid h.present h.valid h.claim h.number)

  pub log_in-connect : (a uid : ℕ) (y : Sys S) → get_connect uid (log_in sv a uid y).world ≡ some a
  unfolding log_in authreply get_connect add_connect
  log_in-connect a uid y = Maps.lookup-insert_self uid a y.world.cons

  pub log_in-conn :
      (a uid : ℕ) (y : Sys S)
      → let c = (log_in sv a uid y).world.conn a in
        (c.id ≡ uid) × (c.auth ≡ true) × (c.is_close ≡ (y.world.conn a).is_close)
  unfolding log_in authreply add_connect write
  log_in-conn a uid y = ground arith

  refused-reply :
      (a code : ℕ) (y : Sys S)
      → (code == 0) ≡ false
      → let w = (authreply sv a code y).world in
        (w.cons ≡ y.world.cons)
        × ((w.conn a).auth ≡ (y.world.conn a).auth)
        × ((w.conn a).is_close ≡ true)
  unfolding authreply write close
  refused-reply a code y h = ground arith

  -- AuthHandle accepts exactly the requests whose token is in order and names a user: the
  -- connection then is that user's, and authenticated. Any other request leaves the users'
  -- connections and the authentication as they were, and closes the connection.
  pub auth_handle-Authenticated :
      (a : ℕ) (request : Request) (y : Sys S)
      → Authenticated a request y (auth_handle sv a request y)
  unfolding auth_handle
  auth_handle-Authenticated a request y = elim (check_request-Ends request) [
    | authentic uid h e ↦
        let (i, t, o) = log_in-conn a uid y in
        subst (λ c. Authenticated a request y (answer sv a y c)) (sym e)
          (logged_in uid h refl (log_in-connect a uid y) i t)
    | refusal code err n e ↦
        let (k, t, d) = refused-reply a code y n in
        subst (λ c. Authenticated a request y (answer sv a y c)) (sym e)
          (turned_away err (λ uid h. ground (arith, IsAuthentic-accepted request uid h)) refl k t d)
  ]
