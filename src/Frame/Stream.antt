-- ===== src/Frame/Stream.antt =====
-- The stream of a connection: whatever way the socket cuts it into chunks, short of the last bytes
-- of a frame, the requests come out as they were sent.
use native.Mathlib.Nat.{add_comm}
use zqim.Prelude.{
  ℕ, zero, suc, ◌+◌, ◌≤◌, ◌<◌, ◌≡◌, refl, ap, List, [], ◌∷◌, ◌++◌, arith, length, take, drop,
  length-append, length-drop, append_assoc, All, All-append, ◌≢◌, ◌%◌,
}
use zqim.Frame.{
  Request, Buffer, Round, wait, deliver, panic, get_bytes, round, Unpacked, waiting, out_of_fuel,
  prepend, unpack_loop, unpack, received, prepend_all, read, parse, u32_mod, read_uint32, panicked,
}
use zqim.Frame.Step.{IsValid, round-get_bytes, round-partial, round-short}

-- The bytes of some frames, one behind the other.
abbrev pub frames : List Request → List ℕ
frames [] = []
frames (r ∷ rs) = get_bytes r ++ frames rs

-- A rest of the stream that unpack leaves in the buffer as it is: fewer than five bytes, or a frame
-- of a valid request of which at least three bytes of the body are missing.
pub data IsPartial (u : List ℕ) : Type 0 where
  header : length u < 5 → IsPartial u
  body :
      (r : Request) (xs rest : List ℕ)
      → IsValid r
      → r.body ≡ xs ++ rest
      → 3 ≤ length rest
      → u ≡ get_bytes (record r { body = xs })
      → IsPartial u

round-IsPartial :
    (u spare : List ℕ) → IsPartial u → round (record { unread = u; spare = spare }) ≡ wait
round-IsPartial u spare (header h) = round-short _ h
round-IsPartial u spare (body r xs rest v e h p) = rw p (round-partial r v spare xs rest e h)

length-get_bytes : (r : Request) → length (get_bytes r) ≡ 7 + length r.body
unfolding get_bytes
length-get_bytes r = omega arith

unpack_loop-frames :
    (fuel : ℕ) (rs : List Request) (u spare : List ℕ)
    → length (frames rs ++ u) < fuel
    → All IsValid rs
    → IsPartial u
    → unpack_loop fuel (record { unread = frames rs ++ u; spare = spare })
      ≡ waiting rs (record { unread = u; spare = spare })
unfolding unpack_loop
unpack_loop-frames zero rs u spare f v p = absurd (omega arith)
unpack_loop-frames (suc fuel) [] u spare f v p = rw (round-IsPartial u spare p, unpack_loop)
unpack_loop-frames (suc fuel) (r ∷ rs) u spare f v p =
    let more = frames rs ++ u in
    let size = length-append (get_bytes r) more in
    let taken = round-get_bytes r v.0 spare more in
    let rest =
      unpack_loop-frames fuel rs u spare
        (omega
          (arith, size, length-get_bytes r, ap length (append_assoc (get_bytes r) (frames rs) u)))
        v.1 p in
    rw (append_assoc (get_bytes r) (frames rs) u) (rw (taken, unpack_loop) (ap (prepend r) rest))

-- unpack on a buffer that starts with whole frames of valid requests: it hands exactly those
-- requests on, in order, and leaves the incomplete rest in the buffer.
pub unpack-frames :
    (rs : List Request) (u spare : List ℕ)
    → All IsValid rs
    → IsPartial u
    → unpack (record { unread = frames rs ++ u; spare = spare })
      ≡ waiting rs (record { unread = u; spare = spare })
unfolding unpack
unpack-frames rs u spare v p = unpack_loop-frames _ rs u spare (omega arith) v p

-- A socket's chunks, with what lies behind the buffer after each, that carry exactly the frames of
-- some requests behind the bytes `u` that wait in the buffer, each cut as IsPartial says.
pub data Chunked : List ℕ → List (List ℕ × List ℕ) → List Request → Type 0 where
  end : Chunked [] [] []
  chunk :
      {u c spare u' : List ℕ} {cs : List (List ℕ × List ℕ)} (rs qs : List Request)
      → u ++ c ≡ frames rs ++ u'
      → IsPartial u'
      → Chunked u' cs qs
      → Chunked u ((c, spare) ∷ cs) (rs ++ qs)

-- The read loop delivers exactly the valid requests that were sent, in order, and nothing is left
-- over, if each chunk ends between two frames, within the first four bytes of a frame, or behind
-- its whole header with at least three bytes of its body missing.
pub read-Chunked :
    {u : List ℕ} {cs : List (List ℕ × List ℕ)} {rs : List Request}
    → Chunked u cs rs
    → All IsValid rs
    → read u cs ≡ received rs []
unfolding read
read-Chunked end v = refl
read-Chunked (chunk {spare = spare} {u' = u'} rs qs e p more) v =
    let (first, later) = All-append IsValid rs qs v in
    rw (e, unpack-frames rs u' spare first p, read) (ap (prepend_all rs) (read-Chunked more later))

-- A request leaves the buffer shorter, so the loop of unpack ends.
parse-shorter :
    (b b' : Buffer) (byts : List ℕ) (n : ℕ) (r : Request)
    → 5 ≤ length b.unread
    → parse b byts n ≡ deliver r b'
    → length b'.unread < length b.unread
unfolding parse
parse-shorter b b' byts n r h e =
    ground (arith, length-drop ((7 + n) % u32_mod) b.unread, add_comm n 7)

round-shorter :
    (b b' : Buffer) (r : Request) → round b ≡ deliver r b' → length b'.unread < length b.unread
unfolding round
round-shorter b b' r e =
    let n : ℕ = read_uint32 (take 4 (drop 2 (b.unread ++ b.spare))) in
    ground (arith, length-drop ((7 + n) % u32_mod) b.unread, add_comm n 7)

prepend-ends : (r : Request) (x : Unpacked) → x ≢ out_of_fuel → prepend r x ≢ out_of_fuel
prepend-ends r (waiting rs b) h e = cc
prepend-ends r (panicked rs) h e = cc
prepend-ends r out_of_fuel h e = h refl

unpack_loop-ends :
    (fuel : ℕ) (b : Buffer) → length b.unread < fuel → unpack_loop fuel b ≢ out_of_fuel
unfolding unpack_loop
unpack_loop-ends zero b h = absurd (omega arith)
unpack_loop-ends (suc fuel) b h = go (round b) refl (unpack_loop-ends fuel)
  where
    go :
        (x : Round)
        → round b ≡ x
        → ((c : Buffer) → length c.unread < fuel → unpack_loop fuel c ≢ out_of_fuel)
        → unpack_loop (suc fuel) b ≢ out_of_fuel
    go wait r ih = rw (r, unpack_loop) (λ e. cc)
    go panic r ih = rw (r, unpack_loop) (λ e. cc)
    go (deliver q b') r ih =
        rw (r, unpack_loop) (prepend-ends q _ (ih b' (omega (arith, round-shorter b b' q r))))

-- unpack ends on every buffer, with requests handed on and possibly a panic.
pub unpack-ends : (b : Buffer) → unpack b ≢ out_of_fuel
unfolding unpack
unpack-ends b = unpack_loop-ends (length b.unread + 1) b (omega arith)
