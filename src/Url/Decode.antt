-- ===== src/Url/Decode.antt =====
-- unescapePath as a decoder: what it accepts, what it rejects, and that it never panics.
use mathlib.Core.Path.{subst}
use zqim.Prelude.{
  ℕ, ◌+◌, ◌-◌, ◌*◌, ◌≡◌, refl, ap, ◌∙◌, ◌⊎◌, inl, inr, ◌↔◌, true, false, List, [], ◌∷◌, arith, ◌==◌,
  if◌then◌else◌, length, Bool-cases, ltb, ◌/◌, ◌%◌, ◌<◌, All,
}
use zqim.Url.{Encoding, ishex, Unescaped, ok, escape_error, Scanned, scan, unescape, unescape_path}
use zqim.Url.Hex.{HexDigit, ishex-HexDigit}
use zqim.Url.Scan.{
  Decodes, done, plain, escaped, Malformed, cut_one, cut_two, bad_digit, after_plain, after_escape,
  Outcome, good, bad, seg, scan-Outcome,
}

HexDigit-unique : {c v w : ℕ} → HexDigit c v → HexDigit c w → v ≡ w
HexDigit-unique {c} {v} {w} h k =
    let l = (ishex-HexDigit c v).1 h in let r = (ishex-HexDigit c w).1 k in cc (l.1, r.1)

HexDigit-ishex : {c v : ℕ} → HexDigit c v → ishex c ≡ true
HexDigit-ishex {c} {v} h = ((ishex-HexDigit c v).1 h).0

Decodes-unique : {s t u : List ℕ} → Decodes s t → Decodes s u → t ≡ u
Decodes-unique done done = refl
Decodes-unique (plain {c = c} h d) (plain k e) = ap (◌∷◌ c) (Decodes-unique d e)
Decodes-unique (plain h d) (escaped e i j x k) = absurd (h e)
Decodes-unique (escaped e i j x k) (plain h d) = absurd (h e)
Decodes-unique (escaped e i j x d) (escaped e' i' j' x' d') =
    let l = HexDigit-unique i i' in
    let r = HexDigit-unique j j' in ground (arith, Decodes-unique d d', l, r)

Decodes-not-Malformed : {s t e : List ℕ} → Decodes s t → Malformed s e → ⊥
Decodes-not-Malformed done m = elim m [ ]
Decodes-not-Malformed (plain h d) (cut_one e) = h e
Decodes-not-Malformed (plain h d) (cut_two e) = h e
Decodes-not-Malformed (plain h d) (bad_digit e b) = h e
Decodes-not-Malformed (plain h d) (after_plain k m) = Decodes-not-Malformed d m
Decodes-not-Malformed (plain h d) (after_escape e b m) = h e
Decodes-not-Malformed (escaped e i j x d) (bad_digit e' b) =
    ground (arith, HexDigit-ishex i, HexDigit-ishex j)
Decodes-not-Malformed (escaped e i j x d) (after_plain k m) = k e
Decodes-not-Malformed (escaped e i j x d) (after_escape e' b m) = Decodes-not-Malformed d m

abbrev pub Decision : List ℕ → Unescaped → Type 0
Decision s r =
    ((t : List ℕ) × Decodes s t × (r ≡ ok t))
    ⊎ ((e : List ℕ) × Malformed s e × (r ≡ escape_error e))

decide_with :
    (s : List ℕ) (r : Scanned)
    → scan seg s 0 false ≡ r
    → Outcome s 0 false r
    → Decision s (unescape seg s)
unfolding unescape
decide_with s r w (bad e m x) = inr (e, m, rw (w ∙ x, unescape))
decide_with s r w (good t k d (q, x, g)) =
    let room : length s - 2 * (0 + k) ≡ length t = omega (arith, d.size) in
    elim (Bool-cases (k == 0)) [
      | inl z ↦
          inl (t, d.decodes, rw (w ∙ x, unescape) (ground (arith, g refl, d.same (ground arith))))
      | inr z ↦ inl (t, d.decodes, rw (w ∙ x, unescape) (rw (g refl, room, d.fills) (ground arith)))
    ]

-- unescapePath, whatever mode it is given, either decodes the whole path, or reports the first
-- malformed escape; it never panics and never reports another error.
pub unescape_path-Decision : (s : List ℕ) (mode : Encoding) → Decision s (unescape_path s mode)
unfolding unescape_path
unescape_path-Decision s mode = decide_with s _ refl (scan-Outcome s 0 false)

-- Every percent-encoded path is decoded, to exactly the bytes that it stands for.
pub unescape_path-Decodes :
    (s t : List ℕ) (mode : Encoding) → (unescape_path s mode ≡ ok t) ↔ Decodes s t
unescape_path-Decodes s t mode = elim (unescape_path-Decision s mode) [
  | inl (u, d, e) ↦
      (λ h. subst (Decodes s) (ground (arith, e)) d, λ h. e ∙ ap ok (Decodes-unique d h))
  | inr (x, m, e) ↦ (λ h. absurd (ground (arith, e)), λ h. absurd (Decodes-not-Malformed h m))
]

-- A client's encoder: every byte as `%` and two capital digits.
unfoldable pub hex_digit : ℕ → ℕ
hex_digit v = if ltb v 10 then b'0' + v else b'A' + (v - 10)

unfoldable pub escape_all : List ℕ → List ℕ
unfolding hex_digit
escape_all [] = []
escape_all (x ∷ t) = b'%' ∷ hex_digit (x / 16) ∷ hex_digit (x % 16) ∷ escape_all t

hex_digit-HexDigit : (v : ℕ) → v < 16 → HexDigit (hex_digit v) v
unfolding hex_digit
hex_digit-HexDigit v h = elim (Bool-cases (ltb v 10)) [
  | inl e ↦ HexDigit.decimal (ground arith) (ground arith)
  | inr e ↦ HexDigit.upper (ground arith) (ground arith) (ground arith)
]

escape_all-Decodes : (t : List ℕ) → All (λ x. x < 256) t → Decodes (escape_all t) t
unfolding escape_all
escape_all-Decodes [] h = done
escape_all-Decodes (x ∷ t) h =
    escaped refl (hex_digit-HexDigit (x / 16) (omega arith))
      (hex_digit-HexDigit (x % 16) (omega arith)) (omega arith) (escape_all-Decodes t h.1)

-- Decoding undoes the encoding of any bytes as `%XY` escapes.
pub unescape_path-escape_all :
    (t : List ℕ) (mode : Encoding) → All (λ x. x < 256) t → unescape_path (escape_all t) mode ≡ ok t
unescape_path-escape_all t mode h =
    (unescape_path-Decodes (escape_all t) t mode).1 (escape_all-Decodes t h)
