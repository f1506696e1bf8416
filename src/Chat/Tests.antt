-- ===== src/Chat/Tests.antt =====
-- Runs of the chat handlers, and their theorems at concrete inputs.
use zqim.Prelude.{◌≡◌, arith, some, [], ◌∷◌, nat_eq}
use zqim.Frame.{Request}
use zqim.Conn.{accept}
use zqim.Services.{request_of, GroupMessage}
use zqim.Services.Samples.{services, server}
use zqim.Chat.{HandleError, one_message_handle, gorup_message_handle}
use zqim.Chat.One.{Handled, IsQuiet, one_message_handle-Handled}
use zqim.Chat.Group.{IsAllowed, gorup_message_handle-rejected}

-- Message 5 of user 7 to user 8, and one that user 7 sends in the name of user 9.
abbrev hello : Request
hello = request_of 2 (5 ∷ 7 ∷ 8 ∷ [])

abbrev forged : Request
forged = request_of 3 (5 ∷ 9 ∷ 3 ∷ [])

one_message_handle-Handled_example :
    Handled services 0 hello server (one_message_handle services 0 hello server)
one_message_handle-Handled_example = one_message_handle-Handled services 0 hello server

forged-IsAllowed : (msg : GroupMessage) → ¬ IsAllowed services 0 forged server msg
unfolding accept
forged-IsAllowed msg h = let d = h.decoded in let o = h.own in absurd (ground (arith, d, o))

gorup_message_handle-rejected_example :
    let r = gorup_message_handle services 100 0 forged server in
    ((e : HandleError) × (r.1 ≡ some e)) × IsQuiet 0 server r.0
gorup_message_handle-rejected_example =
    gorup_message_handle-rejected services 100 0 forged server forged-IsAllowed
