-- ===== src/Url/Scan.antt =====
-- The first loop of unescapePath: what it finds out about the bytes that it passes.
use mathlib.Core.Option
use zqim.Prelude.{
  ℕ, suc, ◌+◌, ◌*◌, ◌≡◌, ◌≢◌, refl, ap, ◌∙◌, inl, inr, Bool, true, false, ◌&&◌, List, [], ◌∷◌, some,
  arith, ◌==◌, if◌then◌else◌, length, Bool-cases,
}
use zqim.Url.{
  Encoding, encode_path_segment, ishex, unhex_pair, escape_error, Scanned, counted, failed, scan,
  fill,
}
use zqim.Url.Hex.{HexDigit, ishex-HexDigit, unhex_pair-digits}

-- `t` is what the percent-encoded bytes `s` stand for.
pub data Decodes : List ℕ → List ℕ → Type 0 where
  done : Decodes [] []
  plain : {c : ℕ} {s t : List ℕ} → c ≢ b'%' → Decodes s t → Decodes (c ∷ s) (c ∷ t)
  escaped :
      {c a b v w x : ℕ} {s t : List ℕ}
      → c ≡ b'%'
      → HexDigit a v
      → HexDigit b w
      → x ≡ v * 16 + w
      → Decodes s t
      → Decodes (c ∷ a ∷ b ∷ s) (x ∷ t)

-- `e` is the first escape of `s` that is cut short or has a digit that is not hexadecimal.
pub data Malformed : List ℕ → List ℕ → Type 0 where
  cut_one : {c : ℕ} → c ≡ b'%' → Malformed (c ∷ []) (c ∷ [])
  cut_two : {c a : ℕ} → c ≡ b'%' → Malformed (c ∷ a ∷ []) (c ∷ a ∷ [])
  bad_digit :
      {c a b : ℕ} {s : List ℕ}
      → c ≡ b'%'
      → (ishex a && ishex b) ≡ false
      → Malformed (c ∷ a ∷ b ∷ s) (c ∷ a ∷ b ∷ [])
  after_plain : {c : ℕ} {s e : List ℕ} → c ≢ b'%' → Malformed s e → Malformed (c ∷ s) e
  after_escape :
      {c a b : ℕ} {s e : List ℕ}
      → c ≡ b'%'
      → (ishex a && ishex b) ≡ true
      → Malformed s e
      → Malformed (c ∷ a ∷ b ∷ s) e

-- What the first loop finds out of a suffix that decodes to `t` with `k` escapes.
pub record Decoded (s t : List ℕ) (k : ℕ) : Type 0 where
  pub decodes : Decodes s t
  pub size : length s ≡ length t + 2 * k
  pub fills : fill encode_path_segment s (length t) ≡ some t
  pub same : k ≡ 0 → t ≡ s

pub data Outcome (s : List ℕ) (n : ℕ) (p : Bool) (r : Scanned) : Type 0 where
  good :
      (t : List ℕ) (k : ℕ)
      → Decoded s t k
      → ((q : Bool) × (r ≡ counted (n + k) q) × (p ≡ false → q ≡ false))
      → Outcome s n p r
  bad : (e : List ℕ) → Malformed s e → r ≡ failed (escape_error e) → Outcome s n p r

abbrev pub seg : Encoding
seg = encode_path_segment

Outcome-plain :
    (c : ℕ) (s : List ℕ) (n : ℕ) (p p' : Bool) (r r' : Scanned)
    → c ≢ b'%'
    → r' ≡ r
    → (p' ≡ false → p ≡ false)
    → ((t : List ℕ)
        → fill seg s (length t) ≡ some t
        → fill seg (c ∷ s) (suc (length t)) ≡ some (c ∷ t))
    → Outcome s n p r
    → Outcome (c ∷ s) n p' r'
Outcome-plain c s n p p' r r' h e f w (good t k d (q, e', g)) =
    good (c ∷ t) k
      (record {
        decodes = plain h d.decodes;
        size = omega (arith, d.size);
        fills = w t d.fills;
        same = λ z. ap (◌∷◌ c) (d.same z);
      })
      (q, e ∙ e', λ z. g (f z))
Outcome-plain c s n p p' r r' h e f w (bad x m e') = bad x (after_plain h m) (e ∙ e')

module _ (c : ℕ) (h : c ≢ b'%') where
  -- The flag `hasPlus` after one plain byte, at this mode.
  after : Bool → Bool
  after p = if c == b'+' then false else p

  scan-plain : (s : List ℕ) (n : ℕ) (p : Bool) → scan seg (c ∷ s) n p ≡ scan seg s n (after p)
  unfolding scan after
  scan-plain [] n p = ground arith
  scan-plain (a ∷ []) n p = ground arith
  scan-plain (a ∷ b ∷ s) n p = ground arith

  fill-plain :
      (s : List ℕ) (room : ℕ) → fill seg (c ∷ s) (suc room) ≡ Option.map (◌∷◌ c) (fill seg s room)
  unfolding fill
  fill-plain [] room = ground arith
  fill-plain (a ∷ []) room = ground arith
  fill-plain (a ∷ b ∷ s) room = ground arith

  after-false : (p : Bool) → p ≡ false → after p ≡ false
  unfolding after
  after-false p e = ground arith

module _ (c a b : ℕ) (s : List ℕ) (h : c ≡ b'%') where
  scan-good :
      (n : ℕ) (p : Bool)
      → (ishex a && ishex b) ≡ true
      → scan seg (c ∷ a ∷ b ∷ s) n p ≡ scan seg s (n + 1) p
  unfolding scan
  scan-good n p e = ground arith

  scan-bad :
      (n : ℕ) (p : Bool)
      → (ishex a && ishex b) ≡ false
      → scan seg (c ∷ a ∷ b ∷ s) n p ≡ failed (escape_error (c ∷ a ∷ b ∷ []))
  unfolding scan
  scan-bad n p e = ground arith

  fill-escape :
      (room : ℕ)
      → fill seg (c ∷ a ∷ b ∷ s) (suc room) ≡ Option.map (◌∷◌ (unhex_pair a b)) (fill seg s room)
  unfolding fill
  fill-escape room = ground arith

Outcome-escape :
    (c a b : ℕ) (s : List ℕ) (n : ℕ) (p : Bool)
    → c ≡ b'%'
    → (ishex a && ishex b) ≡ true
    → Outcome s (n + 1) p (scan seg s (n + 1) p)
    → Outcome (c ∷ a ∷ b ∷ s) n p (scan seg (c ∷ a ∷ b ∷ s) n p)
Outcome-escape c a b s n p h e (good t k d (q, e', g)) =
    good (unhex_pair a b ∷ t) (suc k)
      (record {
        decodes =
            escaped h ((ishex-HexDigit a _).0 (ground arith, refl))
              ((ishex-HexDigit b _).0 (ground arith, refl)) (unhex_pair-digits a b) d.decodes;
        size = omega (arith, d.size);
        fills = rw (fill-escape c a b s h (length t), d.fills) refl;
        same = λ z. absurd (omega arith);
      })
      (q, scan-good c a b s h n p e ∙ e' ∙ ap (λ m. counted m q) (omega arith), g)
Outcome-escape c a b s n p h e (bad x m e') =
    bad x (after_escape h e m) (scan-good c a b s h n p e ∙ e')

Outcome-plain_byte :
    (c : ℕ) (s : List ℕ) (n : ℕ) (p : Bool)
    → c ≢ b'%'
    → ((p' : Bool) → Outcome s n p' (scan seg s n p'))
    → Outcome (c ∷ s) n p (scan seg (c ∷ s) n p)
Outcome-plain_byte c s n p h ih =
    Outcome-plain c s n (after c h p) p _ _ h (scan-plain c h s n p) (after-false c h p)
      (λ t e. fill-plain c h s (length t) ∙ ap (Option.map (◌∷◌ c)) e) (ih _)

pub scan-Outcome : (s : List ℕ) (n : ℕ) (p : Bool) → Outcome s n p (scan seg s n p)
unfolding scan fill
scan-Outcome [] n p =
    good [] 0 (record { decodes = done; size = refl; fills = refl; same = λ _. refl })
      (p, ap (λ m. counted m p) (omega arith), λ e. e)
scan-Outcome (c ∷ []) n p = elim (Bool-cases (c == b'%')) [
  | inl e ↦ bad (c ∷ []) (cut_one (ground arith)) (ground arith)
  | inr e ↦ Outcome-plain_byte c [] n p (ground arith) (scan-Outcome [] n)
]
scan-Outcome (c ∷ a ∷ []) n p = elim (Bool-cases (c == b'%')) [
  | inl e ↦ bad (c ∷ a ∷ []) (cut_two (ground arith)) (ground arith)
  | inr e ↦ Outcome-plain_byte c (a ∷ []) n p (ground arith) (scan-Outcome (a ∷ []) n)
]
scan-Outcome (c ∷ a ∷ b ∷ s) n p =
    let rest = scan-Outcome (a ∷ b ∷ s) n in
    let later = scan-Outcome s (n + 1) p in
    elim (Bool-cases (c == b'%')) [
      | inr e ↦ Outcome-plain_byte c (a ∷ b ∷ s) n p (ground arith) rest
      | inl e ↦ elim (Bool-cases (ishex a && ishex b)) [
        | inl x ↦ Outcome-escape c a b s n p (ground arith) x later
        | inr x ↦ bad _ (bad_digit (ground arith) x) (scan-bad c a b s (ground arith) n p x)
      ]
    ]
