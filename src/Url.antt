-- ===== src/Url.antt =====
-- logic/controller/osshandle.go: percent-decoding of the path of a signed upload callback.
-- A string is its list of bytes.
pub mod Hex
pub mod Scan
pub mod Decode
mod Tests
use Prim.Native.Nat.{bit_or}
use mathlib.Core.Option
use zqim.Prelude.{
  ℕ, zero, suc, ◌+◌, ◌-◌, ◌*◌, ◌%◌, Bool, true, false, ◌&&◌, ◌||◌, not, List, [], ◌∷◌, Option, none,
  some, ltb, leb, ◌==◌, if◌then◌else◌, length, take, replicate,
}

-- `type encoding int` and its constants
pub data Encoding : Type 0 where
  encode_path encode_path_segment encode_host encode_zone : Encoding
  encode_user_password encode_query_component encode_fragment : Encoding

-- The value of the constant, `1 + iota`.
abbrev pub to_int : Encoding → ℕ
to_int encode_path = 1
to_int encode_path_segment = 2
to_int encode_host = 3
to_int encode_zone = 4
to_int encode_user_password = 5
to_int encode_query_component = 6
to_int encode_fragment = 7

-- `mode == m`
abbrev pub is_mode : Encoding → Encoding → Bool
is_mode mode m = to_int mode == to_int m

unfoldable pub ishex : ℕ → Bool
ishex c =
    if leb b'0' c && leb c b'9'
    then true
    else if leb b'a' c && leb c b'f'
    then true
    else if leb b'A' c && leb c b'F'
    then true
    else false

-- The byte arithmetic stays in range on each branch: the subtrahend is at most `c`.
unfoldable pub unhex : ℕ → ℕ
unhex c =
    if leb b'0' c && leb c b'9'
    then c - b'0'
    else if leb b'a' c && leb c b'f'
    then c - b'a' + 10
    else if leb b'A' c && leb c b'F'
    then c - b'A' + 10
    else 0

-- `unhex(a)<<4 | unhex(b)` on bytes
unfoldable pub unhex_pair : ℕ → ℕ → ℕ
unhex_pair a b = bit_or (unhex a * 16 % 256) (unhex b)

one_of : ℕ → List ℕ → Bool
one_of c [] = false
one_of c (d ∷ ds) = c == d || one_of c ds

abbrev sub_delims : List ℕ
sub_delims =
    b'!' ∷ b'$' ∷ b'&' ∷ 39 ∷ b'(' ∷ b')' ∷ b'*' ∷ b'+' ∷ b',' ∷ b';' ∷ b'=' ∷ b':' ∷ b'[' ∷ b']'
    ∷ b'<' ∷ b'>' ∷ 34 ∷ []

abbrev reserved : List ℕ
reserved = b'$' ∷ b'&' ∷ b'+' ∷ b',' ∷ b'/' ∷ b':' ∷ b';' ∷ b'=' ∷ b'?' ∷ b'@' ∷ []

-- The inner switch; the modes it does not name fall through to the last `return true`.
should_escape_reserved : ℕ → Encoding → Bool
should_escape_reserved c encode_path = c == b'?'
should_escape_reserved c encode_path_segment = c == b'/' || c == b';' || c == b',' || c == b'?'
should_escape_reserved c encode_user_password = c == b'@' || c == b'/' || c == b'?' || c == b':'
should_escape_reserved c encode_query_component = true
should_escape_reserved c encode_fragment = false
should_escape_reserved c _ = true

unfoldable pub should_escape : ℕ → Encoding → Bool
unfolding one_of should_escape_reserved
should_escape c mode =
    if leb b'A' c && leb c b'Z' || leb b'a' c && leb c b'z' || leb b'0' c && leb c b'9'
    then false
    else if (is_mode mode encode_host || is_mode mode encode_zone) && one_of c sub_delims
    then false
    else if one_of c (b'-' ∷ b'_' ∷ b'.' ∷ b'~' ∷ [])
    then false
    else if one_of c reserved
    then should_escape_reserved c mode
    else true

-- `[]byte` results; `panic` is an index out of range.
pub data Unescaped : Type 0 where
  ok : List ℕ → Unescaped
  escape_error : List ℕ → Unescaped
  invalid_host_error : List ℕ → Unescaped
  panic : Unescaped

-- The outcome of the first loop: the count of `%` and `hasPlus`, or an error.
pub data Scanned : Type 0 where
  counted : ℕ → Bool → Scanned
  failed : Unescaped → Scanned

-- The host and zone checks of a well-formed escape `%ab`.
refuses : Encoding → ℕ → ℕ → Bool
refuses mode a b =
    let is_percent = a == b'2' && b == b'5' in
    let v = unhex_pair a b in
    is_mode mode encode_host && ltb (unhex a) 8 && not is_percent
    || is_mode mode encode_zone && not is_percent && not (v == b' ') && should_escape v encode_host

-- The check of a byte that is neither `%` nor `+`.
bad_host_byte : Encoding → ℕ → Bool
bad_host_byte mode c =
    (is_mode mode encode_host || is_mode mode encode_zone) && ltb c 0x80 && should_escape c mode

-- The first loop, on the suffix `s[i:]`; `escape` is what the loop does past a good `%ab`.
scan_byte : Encoding → ℕ → Scanned → Scanned → Scanned → Scanned
scan_byte mode c escape plus plain =
    if c == b'%'
    then escape
    else if c == b'+'
    then plus
    else if bad_host_byte mode c
    then failed (invalid_host_error (c ∷ []))
    else plain

unfoldable pub scan : Encoding → List ℕ → ℕ → Bool → Scanned
unfolding scan_byte refuses bad_host_byte
scan mode [] n has_plus = counted n has_plus
scan mode (c ∷ []) n has_plus =
    scan_byte mode c (failed (escape_error (c ∷ [])))
      (counted n (is_mode mode encode_query_component)) (counted n has_plus)
scan mode (c ∷ a ∷ []) n has_plus =
    let plus = scan mode (a ∷ []) n (is_mode mode encode_query_component) in
    let plain = scan mode (a ∷ []) n has_plus in
    scan_byte mode c (failed (escape_error (c ∷ a ∷ []))) plus plain
scan mode (c ∷ a ∷ b ∷ s) n has_plus =
    let escape =
      let rest = scan mode s (n + 1) has_plus in
      if not (ishex a) || not (ishex b) || refuses mode a b
      then failed (escape_error (c ∷ a ∷ b ∷ []))
      else rest in
    let plus = scan mode (a ∷ b ∷ s) n (is_mode mode encode_query_component) in
    let plain = scan mode (a ∷ b ∷ s) n has_plus in scan_byte mode c escape plus plain

-- What the second loop writes for a byte other than `%`.
fill_byte : Encoding → ℕ → ℕ
fill_byte mode c =
    if c == b'+' then (if is_mode mode encode_query_component then b' ' else b'+') else c

-- The second loop, from `s[i:]` into the part of `t` that is left, of the given length: `none` is a
-- read or a write out of range; what is never written stays 0.
unfoldable pub fill : Encoding → List ℕ → ℕ → Option (List ℕ)
unfolding fill_byte
fill mode [] room = some (replicate room 0)
fill mode (c ∷ s) zero = none
fill mode (c ∷ []) (suc room) =
    if c == b'%' then none else Option.map (◌∷◌ (fill_byte mode c)) (some (replicate room 0))
fill mode (c ∷ a ∷ []) (suc room) =
    if c == b'%' then none else Option.map (◌∷◌ (fill_byte mode c)) (fill mode (a ∷ []) room)
fill mode (c ∷ a ∷ b ∷ s) (suc room) =
    let escaped = Option.map (◌∷◌ (unhex_pair a b)) (fill mode s room) in
    let plain = Option.map (◌∷◌ (fill_byte mode c)) (fill mode (a ∷ b ∷ s) room) in
    if c == b'%' then escaped else plain

or_panic : Option (List ℕ) → Unescaped
or_panic none = panic
or_panic (some t) = ok t

-- Both loops, at the mode that the first line of unescapePath has set.
unfoldable pub unescape : Encoding → List ℕ → Unescaped
unfolding scan fill or_panic
unescape mode s = elim (scan mode s 0 false) [
  | failed e ↦ e
  | counted n has_plus ↦
      if n == 0 && not has_plus then ok s else or_panic (fill mode s (length s - 2 * n))
]

-- unescapePath overwrites its `mode`.
unfoldable pub unescape_path : List ℕ → Encoding → Unescaped
unfolding unescape
unescape_path s mode = unescape encode_path_segment s
