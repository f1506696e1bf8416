-- ===== src/Frame/Tests.antt =====
-- Frames on the wire, and the theorems about them at concrete inputs.
use zqim.Prelude.{ℕ, ◌≡◌, ◌≢◌, refl, List, [], ◌∷◌, ◌++◌, arith, length}
use zqim.Frame.{Request, get_bytes, round, waiting, panicked, out_of_fuel, unpack, received, read}
use zqim.Frame.Step.{IsValid}
use zqim.Frame.Stream.{IsPartial, Chunked, read-Chunked, unpack-ends}
use zqim.Frame.Window.{unpack_early}

abbrev request : ℕ → List ℕ → Request
request typ body = record { typ = typ; body_len = length body; flag = 0; body = body }

abbrev ping : Request
ping = request 6 []

abbrev chat : Request
chat = request 2 (10 ∷ 20 ∷ 30 ∷ 40 ∷ [])

chat_bytes : get_bytes chat ≡ 0 ∷ 2 ∷ 0 ∷ 0 ∷ 0 ∷ 4 ∷ 0 ∷ 10 ∷ 20 ∷ 30 ∷ 40 ∷ []
unfolding get_bytes
chat_bytes = refl

two_frames :
    unpack (record { unread = get_bytes ping ++ get_bytes chat; spare = [] })
    ≡ waiting (ping ∷ chat ∷ []) (record { unread = []; spare = [] })
unfolding get_bytes unpack round
two_frames = refl

-- Five bytes of a header, with nothing behind the buffer.
five_bytes : unpack (record { unread = 0 ∷ 6 ∷ 0 ∷ 0 ∷ 0 ∷ []; spare = [] }) ≡ panicked []
unfolding unpack round
five_bytes = refl

ping-IsValid : IsValid ping
ping-IsValid = omega arith

chat-IsValid : IsValid chat
chat-IsValid = record {
  typ_range = omega arith;
  flag_range = omega arith;
  sized = refl;
  fits = omega arith;
}

-- The first chunk ends one byte into the body of the second frame.
abbrev chunks : List (List ℕ × List ℕ)
chunks =
    (0 ∷ 6 ∷ 0 ∷ 0 ∷ 0 ∷ 0 ∷ 0 ∷ 0 ∷ 2 ∷ 0 ∷ 0 ∷ 0 ∷ 4 ∷ 0 ∷ 10 ∷ [], 9 ∷ 9 ∷ [])
    ∷ (20 ∷ 30 ∷ 40 ∷ [], [])
    ∷ []

chunks-Chunked : Chunked [] chunks (ping ∷ chat ∷ [])
unfolding get_bytes
chunks-Chunked =
    Chunked.chunk (ping ∷ []) (chat ∷ []) refl
      (IsPartial.body chat (10 ∷ []) (20 ∷ 30 ∷ 40 ∷ []) chat-IsValid refl (omega arith) refl)
      (Chunked.chunk (chat ∷ []) [] refl (IsPartial.header (omega arith)) Chunked.end)

read-Chunked_example : read [] chunks ≡ received (ping ∷ chat ∷ []) []
read-Chunked_example = read-Chunked chunks-Chunked (ping-IsValid, (chat-IsValid, tt))

unpack-ends_example : unpack (record { unread = get_bytes ping; spare = [] }) ≢ out_of_fuel
unpack-ends_example = unpack-ends (record { unread = get_bytes ping; spare = [] })

-- The last byte of the message has not arrived, and a stale 99 takes its place.
unpack_early_example :
    unpack
      (record { unread = get_bytes (record chat { body = 10 ∷ 20 ∷ 30 ∷ [] }); spare = 99 ∷ [] })
    ≡ waiting
        (record chat { body = 10 ∷ 20 ∷ 30 ∷ 99 ∷ [] } ∷ [])
        (record { unread = []; spare = 99 ∷ [] })
unpack_early_example =
    unpack_early chat (10 ∷ 20 ∷ 30 ∷ []) (40 ∷ []) (99 ∷ []) [] chat-IsValid refl (omega arith)
      refl
