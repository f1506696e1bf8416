-- ===== src/Auth/Relogin.antt =====
-- A user who logs in again before the first connection is cleared away.
use zqim.Prelude.{ℕ, ◌≡◌, ◌≢◌, sym, ap, arith, ◌∙◌, none, some, true, nat_eq}
use zqim.Prelude.Maps
use zqim.Conn.{Connect}
use zqim.Ack.{get_connect, add_connect, delete_connect}
use zqim.Services.{Services, Sys}
use zqim.Auth.Login.{log_in-connect, log_in-conn}
use zqim.Auth.{log_in, close_handle, authreply}

module _ {S : Type 0} (sv : Services S) where
  log_in-others :
      (a c uid : ℕ) (y : Sys S) → c ≢ a → (log_in sv a uid y).world.conn c ≡ y.world.conn c
  unfolding log_in authreply add_connect
  log_in-others a c uid y d = ground arith

  close_handle-connect :
      (a : ℕ) (y : Sys S) → get_connect (y.world.conn a).id (close_handle sv a y).world ≡ none
  unfolding close_handle delete_connect get_connect
  close_handle-connect a y = Maps.lookup-erase_self (y.world.conn a).id y.world.cons

  -- A user logs in on connection `a`, then on `b`. When `a` ends, CloseHandle takes away the entry
  -- of the user, which belongs to `b` by then: the user cannot be found any more, although `b` has
  -- not been closed and is still authenticated as that user.
  pub log_in-close_handle :
      (a b uid : ℕ) (y : Sys S)
      → b ≢ a
      → let y₂ = log_in sv b uid (log_in sv a uid y) in
        let w = (close_handle sv a y₂).world in
        (get_connect uid y₂.world ≡ some b)
        × (get_connect uid w ≡ none)
        × ((w.conn b).id ≡ uid)
        × ((w.conn b).auth ≡ true)
        × ((w.conn b).is_close ≡ (y.world.conn b).is_close)
  unfolding close_handle delete_connect
  log_in-close_handle a b uid y d =
      let y₁ = log_in sv a uid y in
      let y₂ = log_in sv b uid y₁ in
      let id : (y₂.world.conn a).id ≡ uid =
        ap (λ (c : Connect). c.id) (log_in-others b a uid y₁ (λ e. d (sym e)))
        ∙ (log_in-conn sv a uid y).0 in
      let (i, t, o) = log_in-conn sv b uid y₁ in
      (
        log_in-connect sv b uid y₁,
        ap (λ u. get_connect u (close_handle sv a y₂).world) (sym id) ∙ close_handle-connect a y₂,
        i,
        t,
        o ∙ ap (λ (c : Connect). c.is_close) (log_in-others a b uid y d),
      )
