-- ===== src/Chat/Group.antt =====
-- What GorupMessageHandle does with a message: whom it reaches, and when nobody.
use mathlib.Core.Path.{subst}
use mathlib.Core.List.{map-append}
use zqim.Prelude.{
  ℕ, ◌%◌, ◌≡◌, refl, sym, ap, ◌∙◌, arith, some, List, [], ◌∷◌, ◌++◌, map, true, false, ◌==◌,
  if◌then◌else◌, inl, inr, ==_iff, Bool-cases, Option-cases, append_assoc, append-nil,
}
use zqim.Frame.{Request, u32_mod}
use zqim.Ack.{get_connect}
use zqim.Services.{Services, Sys, GroupMessage}
use zqim.Cache.{get_group_users, group_mebers_check}
use zqim.Chat.{
  HandleError, parse_failed, sender_mismatch, not_member, Gathered, id_of, insert_statement,
  gather_one, gather, deliver_local, deliver_remote, deliver_group, check_group,
  gorup_message_handle,
}
use zqim.Chat.One.{IsQuiet, IsQuiet-refl, send_ack-IsQuiet}

-- The members of a list but one.
abbrev pub but : ℕ → List ℕ → List ℕ
but a [] = []
but a (x ∷ xs) = let rest = but a xs in if x == a then rest else x ∷ rest

module _ {S : Type 0} (sv : Services S) where
  gather_one-usermessages :
      (rek uid : ℕ) (y : Sys S) (g : Gathered)
      → (gather_one sv rek uid y g).usermessages
        ≡ g.usermessages ++ record { rek = rek; receiver = uid } ∷ []
  unfolding gather_one
  gather_one-usermessages rek uid y g = elim (Option-cases (get_connect uid y.world)) [
    | inl e ↦ rw (e, gather_one)
    | inr (b, e) ↦ rw (e, gather_one)
  ]

  -- The receivers that get a row: every member but the sender, in order.
  pub gather-usermessages :
      (a rek : ℕ) (y : Sys S) (uids : List ℕ) (g : Gathered)
      → map (λ r. r.receiver) (gather sv a rek y uids g).usermessages
        ≡ map (λ r. r.receiver) g.usermessages ++ but (id_of sv a y) uids
  unfolding gather
  gather-usermessages a rek y [] g = sym (append-nil _)
  gather-usermessages a rek y (uid ∷ uids) g = elim (Bool-cases (uid == id_of sv a y)) [
    | inl e ↦ rw (e, gather) (gather-usermessages a rek y uids g)
    | inr e ↦
        rw (e, gather)
          (gather-usermessages a rek y uids (gather_one sv rek uid y g)
            ∙ rw (gather_one-usermessages rek uid y g) (
                ap (λ l. l ++ but (id_of sv a y) uids) (map-append _ g.usermessages _)
                ∙ append_assoc _ (uid ∷ []) _))
  ]

  -- The group message may be delivered, as far as the sender's side goes.
  pub record IsAllowed (a : ℕ) (request : Request) (y : Sys S) (msg : GroupMessage) : Type 0 where
    pub decoded : sv.unmarshal_group request.body ≡ some msg
    pub own : msg.sender ≡ id_of sv a y
    pub member : (group_mebers_check sv msg.groupid msg.sender y.store).0 ≡ true

  IsAllowed-same :
      (a : ℕ) (request : Request) (y : Sys S) (msg m : GroupMessage)
      → sv.unmarshal_group request.body ≡ some msg
      → IsAllowed a request y m
      → IsAllowed a request y msg
  IsAllowed-same a request y msg m d h =
      let e : m ≡ msg = ground (arith, h.decoded) in subst (IsAllowed a request y) e h

  check_group-rejected :
      (a : ℕ) (request : Request) (y : Sys S) (msg : GroupMessage)
      → (group_mebers_check sv msg.groupid msg.sender y.store).0 ≡ false
      → let r = check_group sv a request msg y in (r.1 ≡ some not_member) × IsQuiet a y r.0
  unfolding check_group
  check_group-rejected a request y msg e =
      rw (e, check_group) (refl, send_ack-IsQuiet sv a msg.rek 1 3 y _)

  -- Only a member's own message goes through: for any other request the handler reports an error,
  -- and only the store and the sender's connection changed.
  pub gorup_message_handle-rejected :
      (now a : ℕ) (request : Request) (y : Sys S)
      → ((msg : GroupMessage) → ¬ IsAllowed a request y msg)
      → let r = gorup_message_handle sv now a request y in
        ((e : HandleError) × (r.1 ≡ some e)) × IsQuiet a y r.0
  unfolding gorup_message_handle
  gorup_message_handle-rejected now a request y n =
      elim (Option-cases (sv.unmarshal_group request.body)) [
        | inl e ↦ rw (e, gorup_message_handle) ((parse_failed, refl), IsQuiet-refl a y)
        | inr (msg, e) ↦ elim (Bool-cases (msg.sender == id_of sv a y)) [
          | inr f ↦ rw (e, gorup_message_handle) (rw f ((sender_mismatch, refl), IsQuiet-refl a y))
          | inl f ↦ elim (Bool-cases (group_mebers_check sv msg.groupid msg.sender y.store).0) [
            | inl g ↦
                absurd (n msg (record { decoded = e; own = (==_iff msg.sender _).0 f; member = g }))
            | inr g ↦
                let (x, q) =
                  check_group-rejected a request y (record msg { time = now % u32_mod }) g in
                rw (e, gorup_message_handle) (rw f ((not_member, x), q))
          ]
        ]
      ]

  check_group-cold :
      (a : ℕ) (request : Request) (y : Sys S) (msg : GroupMessage)
      → (group_mebers_check sv msg.groupid msg.sender y.store).0 ≡ true
      → get_group_users sv msg.groupid y.store ≡ []
      → sv.visit [] ≡ []
      → IsQuiet a y (check_group sv a request msg y).0
  unfolding check_group gather deliver_group deliver_remote deliver_local
  check_group-cold a request y msg e cold none_to_visit =
      let made = sv.create_message msg (group_mebers_check sv msg.groupid msg.sender y.store).1 in
      rw (e, check_group)
        (rw cold (elim (Bool-cases made.0) [
          | inr f ↦ rw f (send_ack-IsQuiet sv a msg.rek 1 3 y _)
          | inl f ↦ rw f (elim (Bool-cases (sv.exec (insert_statement []) made.1).0) [
            | inr g ↦ rw g (send_ack-IsQuiet sv a msg.rek 1 3 y _)
            | inl g ↦ rw g (rw none_to_visit (send_ack-IsQuiet sv a msg.rek 0 3 y _))
          ])
        ]))

  -- While the cache has no members of the group, an allowed message gets to nobody but its sender:
  -- the list of the receivers is read from the cache before the check fills it.
  gorup_message_handle-cold :
      (now a : ℕ) (request : Request) (y : Sys S) (msg : GroupMessage)
      → IsAllowed a request y msg
      → get_group_users sv msg.groupid y.store ≡ []
      → sv.visit [] ≡ []
      → IsQuiet a y (gorup_message_handle sv now a request y).0
  unfolding gorup_message_handle
  gorup_message_handle-cold now a request y msg h cold none_to_visit =
      rw (h.decoded, gorup_message_handle)
        (rw (h.own) (
          ground (
            arith,
            check_group-cold a request y (record msg { time = now % u32_mod }) h.member cold
                none_to_visit,
          )))
