-- ===== src/Url/Hex.antt =====
-- ishex, unhex and the byte that an escape stands for.
use Prim.Native.Nat.{bit_or}
use mathlib.Core.Path.{subst}
use native.Mathlib.Decide.{ℕ_discrete}
use zqim.Prelude.{
  ℕ, zero, suc, ◌+◌, ◌*◌, ◌%◌, ◌/◌, ◌≤◌, ◌<◌, ◌≡◌, refl, ◌↔◌, Bool, true, ◌&&◌, arith, leb, ◌==◌,
  ==_iff, if◌then◌else◌, false, Bool-cases, inl, inr,
}
use zqim.Url.{ishex, unhex, unhex_pair}

-- `c` is a hexadecimal digit, of either case, with the value `v`.
pub data HexDigit (c v : ℕ) : Type 0 where
  decimal : v ≤ 9 → c ≡ b'0' + v → HexDigit c v
  lower : 10 ≤ v → v ≤ 15 → c + 10 ≡ b'a' + v → HexDigit c v
  upper : 10 ≤ v → v ≤ 15 → c + 10 ≡ b'A' + v → HexDigit c v

pub data Range (c : ℕ) : Type 0 where
  digit : b'0' ≤ c → c ≤ b'9' → Range c
  small : b'a' ≤ c → c ≤ b'f' → Range c
  big : b'A' ≤ c → c ≤ b'F' → Range c

ishex-Range : (c : ℕ) → ishex c ≡ true → Range c
unfolding ishex
ishex-Range c h = elim (Bool-cases (leb b'0' c && leb c b'9')) [
  | inl e ↦ digit (ground arith) (ground arith)
  | inr n ↦ elim (Bool-cases (leb b'a' c && leb c b'f')) [
    | inl e ↦ small (ground arith) (ground arith)
    | inr m ↦ big (ground arith) (ground arith)
  ]
]

Range-HexDigit : (c : ℕ) → Range c → HexDigit c (unhex c)
unfolding unhex
Range-HexDigit c (digit l h) = decimal (ground arith) (ground arith)
Range-HexDigit c (small l h) = lower (ground arith) (ground arith) (ground arith)
Range-HexDigit c (big l h) = upper (ground arith) (ground arith) (ground arith)

HexDigit-ishex : {c v : ℕ} → HexDigit c v → (ishex c ≡ true) × (unhex c ≡ v)
unfolding ishex unhex
HexDigit-ishex (decimal h e) = ground arith
HexDigit-ishex (lower l h e) = ground arith
HexDigit-ishex (upper l h e) = ground arith

-- ishex holds of exactly the hexadecimal digits, and unhex is the value of such a digit.
pub ishex-HexDigit : (c v : ℕ) → ((ishex c ≡ true) × (unhex c ≡ v)) ↔ HexDigit c v
ishex-HexDigit c v =
    (λ h. subst (HexDigit c) h.1 (Range-HexDigit c (ishex-Range c h.0)), HexDigit-ishex)

pub unhex-lt : (c : ℕ) → unhex c < 16
unfolding unhex
unhex-lt c = ground arith

-- A test that every byte passes, checked by evaluation from the largest one down.
passes : (ℕ → Bool) → ℕ → Bool
passes test zero = true
passes test (suc k) = if test k then passes test k else false

passes-lt : (test : ℕ → Bool) (k x : ℕ) → x < k → passes test k ≡ true → test x ≡ true
unfolding passes
passes-lt test zero x l h = absurd (omega arith)
passes-lt test (suc k) x l h = elim (Bool-cases (test k)) [
  | inr fails ↦ cc (rw fails at h)
  | inl good ↦ elim (ℕ_discrete x k) [
    | yes e ↦ rw e good
    | no d ↦ passes-lt test k x (omega arith) (rw good at h)
  ]
]

joined : ℕ → Bool
joined x = bit_or (x / 16 * 16 % 256) (x % 16) == x

joined_bytes : passes joined 256 ≡ true
unfolding passes joined
joined_bytes = refl

nibbles : (x : ℕ) → x < 256 → bit_or (x / 16 * 16 % 256) (x % 16) ≡ x
unfolding joined
nibbles x h = (==_iff _ x).0 (passes-lt joined 256 x h joined_bytes)

-- The shift and the bitwise or put the two digits side by side.
pub unhex_pair-digits : (a b : ℕ) → unhex_pair a b ≡ unhex a * 16 + unhex b
unfolding unhex_pair
unhex_pair-digits a b =
    let x : ℕ = unhex a * 16 + unhex b in
    let hi : x / 16 ≡ unhex a = omega (arith, unhex-lt b) in
    let lo : x % 16 ≡ unhex b = omega (arith, unhex-lt b) in
    rw (hi, lo) at (nibbles x (omega (arith, unhex-lt a, unhex-lt b)))
