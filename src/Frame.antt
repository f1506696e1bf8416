-- ===== src/Frame.antt =====
-- comit/fxsrv/request.go and the framing of comit/fxsrv/connect.go: how a request is laid out on
-- the wire, and how the read loop cuts the byte stream of a connection into requests.
pub mod Step
pub mod Stream
pub mod Window
mod Tests
use zqim.Prelude.{
  ℕ, zero, suc, ◌+◌, ◌-◌, ◌*◌, ◌/◌, ◌%◌, ◌&&◌, List, [], ◌∷◌, ◌++◌, Option, none, some, ltb, leb,
  if◌then◌else◌, length, take, drop,
}

pub record Request : Type 0 where
  pub typ : ℕ
  pub body_len : ℕ
  pub flag : ℕ
  pub body : List ℕ

-- `binary.Write` and `binary.Read` of a uint16 and a uint32, big-endian.
unfoldable pub put_uint16 : ℕ → List ℕ
put_uint16 t = t / 256 % 256 ∷ t % 256 ∷ []

unfoldable pub put_uint32 : ℕ → List ℕ
put_uint32 n = n / 16777216 % 256 ∷ n / 65536 % 256 ∷ n / 256 % 256 ∷ n % 256 ∷ []

-- A read that finds too few bytes leaves the variable at 0.
unfoldable pub read_uint16 : List ℕ → ℕ
read_uint16 (a ∷ b ∷ []) = a * 256 + b
read_uint16 _ = 0

unfoldable pub read_uint32 : List ℕ → ℕ
read_uint32 (a ∷ b ∷ c ∷ d ∷ []) = a * 16777216 + b * 65536 + c * 256 + d
read_uint32 _ = 0

unfoldable pub read_uint8 : List ℕ → ℕ
read_uint8 (a ∷ []) = a
read_uint8 _ = 0

unfoldable pub get_bytes : Request → List ℕ
unfolding put_uint16 put_uint32
get_bytes r = put_uint16 r.typ ++ (put_uint32 r.body_len ++ r.flag ∷ r.body)

-- `bytes.Buffer`: the unread bytes, and what the backing array holds behind them up to its
-- capacity. A slice of `Bytes()` may reach into that part.
pub record Buffer : Type 0 where
  pub unread : List ℕ
  pub spare : List ℕ

-- `a[lo:hi]` for a slice with the elements of `a` up to its capacity; `none` is a panic.
unfoldable pub slice : List ℕ → ℕ → ℕ → Option (List ℕ)
slice a lo hi = if leb lo hi && leb hi (length a) then some (take (hi - lo) (drop lo a)) else none

-- `buff.Next(n)`
abbrev pub next : Buffer → ℕ → Buffer
next b n = record b { unread = drop n b.unread }

abbrev pub u32_mod : ℕ
u32_mod = 4294967296

-- What one round of the loop of unpack does: it stops, hands a request to routesRun, or panics.
pub data Round : Type 0 where
  wait : Round
  deliver : Request → Buffer → Round
  panic : Round

infixl 5 ◌>>=◌
abbrev ◌>>=◌ : Option (List ℕ) → (List ℕ → Round) → Round
none >>= f = panic
some a >>= f = f a

-- Reads the fields of a frame that is taken to be there whole; `7 + bodylen` is a uint32.
parse : Buffer → List ℕ → ℕ → Round
unfolding slice read_uint16 read_uint8
parse b byts bodylen = do
  typ ← slice byts 0 2
  flag ← slice byts 6 7
  body ← slice byts 7 ((bodylen + 7) % u32_mod)
  let r : Request = record {
    typ = read_uint16 typ;
    body_len = bodylen;
    flag = read_uint8 flag;
    body = body;
  }
  deliver r (next b ((7 + bodylen) % u32_mod))

unfoldable pub round : Buffer → Round
unfolding parse slice read_uint32
round b = if ltb (length b.unread) 5 then wait else do
  let byts = b.unread ++ b.spare
  len ← slice byts 2 6
  let bodylen = read_uint32 len
  if ltb (length b.unread - 5) bodylen then wait else parse b byts bodylen

-- The requests handed to routesRun, in order, with what is left in the buffer.
pub data Unpacked : Type 0 where
  waiting : List Request → Buffer → Unpacked
  panicked : List Request → Unpacked
  out_of_fuel : Unpacked

abbrev pub prepend : Request → Unpacked → Unpacked
prepend r (waiting rs b) = waiting (r ∷ rs) b
prepend r (panicked rs) = panicked (r ∷ rs)
prepend r out_of_fuel = out_of_fuel

unfoldable pub unpack_loop : ℕ → Buffer → Unpacked
unpack_loop zero b = out_of_fuel
unpack_loop (suc fuel) b = elim (round b) [
  | wait ↦ waiting [] b
  | deliver r b' ↦ prepend r (unpack_loop fuel b')
  | panic ↦ panicked []
]

unfoldable pub unpack : Buffer → Unpacked
unfolding unpack_loop
unpack b = unpack_loop (length b.unread + 1) b

-- The read loop over the chunks that the socket yields, each with what the backing array holds
-- behind the buffer once the chunk is written.
pub data Received : Type 0 where
  received : List Request → List ℕ → Received
  crashed : List Request → Received

abbrev pub prepend_all : List Request → Received → Received
prepend_all rs (received qs u) = received (rs ++ qs) u
prepend_all rs (crashed qs) = crashed (rs ++ qs)

unfoldable pub read : List ℕ → List (List ℕ × List ℕ) → Received
unfolding unpack
read unread [] = received [] unread
read unread ((chunk, spare) ∷ chunks) =
    elim (unpack (record { unread = unread ++ chunk; spare = spare })) [
      | waiting rs b ↦ prepend_all rs (read b.unread chunks)
      | panicked rs ↦ crashed rs
      | out_of_fuel ↦ crashed []
    ]
