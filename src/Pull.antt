-- ===== src/Pull.antt =====
-- comit/handles/pullmessage.go: a client fetches what was stored while it was away.
pub mod Lost
use zqim.Prelude.{ℕ, ◌≡◌, Bool, true, false, Option, none, some, List, [], ◌∷◌, map}
use zqim.Frame.{Request}
use zqim.Services.{
  Services, Sys, Notifie, with_world, write_to, request_of, pull_one_message, pull_gorup_message,
  pull_notifie,
}
use zqim.Chat.{id_of}

module _ {S : Type 0} (sv : Services S) where
  -- What the three handlers do with an encoded answer; false is the error "proto fail".
  abbrev reply : ℕ → ℕ → Option (List ℕ) → Sys S → Sys S × Bool
  reply a typ none y = (y, false)
  reply a typ (some buf) y = (with_world (write_to a (request_of typ buf)) y, true)

  unfoldable pub pull_one : ℕ → Sys S → Sys S × Bool
  pull_one a y =
      let messages = sv.list_onemessages (id_of sv a y) 1 1000 y.store in
      reply a pull_one_message (sv.marshal_pull_one messages) y

  unfoldable pub pull_group : ℕ → Sys S → Sys S × Bool
  pull_group a y =
      let messages = sv.list_group_messages (id_of sv a y) 1 10000 y.store in
      reply a pull_gorup_message (sv.marshal_pull_group messages) y

  -- The error of DeleteNotifieList is only logged.
  abbrev delete_after : List ℕ → Sys S × Bool → Sys S × Bool
  delete_after ids (y, false) = (y, false)
  delete_after ids (y, true) = (record y { store = (sv.delete_notifies ids y.store).1 }, true)

  unfoldable pub pull_notifies : ℕ → Sys S → Sys S × Bool
  pull_notifies a y =
      let notifies = sv.list_notifies (id_of sv a y) y.store in
      let ids = map (λ (n : Notifie). n.id) notifies in
      let messages = map (λ (n : Notifie). (n.notifie_type, n.body)) notifies in
      delete_after ids (reply a pull_notifie (sv.marshal_pull_notifie messages) y)
