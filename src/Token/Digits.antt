-- ===== src/Token/Digits.antt =====
-- Atoi reads what Itoa wrote.
use zqim.Prelude.{
  ℕ, zero, suc, ◌+◌, ◌-◌, ◌*◌, ◌/◌, ◌%◌, ◌<◌, ◌≤◌, ◌≡◌, refl, sym, ap, ◌∙◌, arith, true, false,
  Option, none, some, List, [], ◌∷◌, ◌++◌, ltb, ◌==◌, lt→ltb, inl, inr, Bool-cases,
}
use zqim.Cache.{digits, unsigned, atoi_u32}
use zqim.Frame.{u32_mod}
use zqim.Token.{itoa_loop, itoa}

-- One more digit.
abbrev step : ℕ → Option ℕ → Option ℕ
step d none = none
step d (some m) = some (m * 10 + d)

digits-append :
    (a d : ℕ) (cs : List ℕ) → d < 10 → digits a (cs ++ (48 + d) ∷ []) ≡ step d (digits a cs)
unfolding digits
digits-append a d [] h = ground arith
digits-append a d (c ∷ cs) h = ground (arith, digits-append (a * 10 + (c - 48)) d cs h)

pub digits-itoa_loop : (fuel n : ℕ) → n < fuel → digits 0 (itoa_loop fuel n) ≡ some n
unfolding itoa_loop digits
digits-itoa_loop zero n h = absurd (omega arith)
digits-itoa_loop (suc fuel) n h = elim (Bool-cases (ltb n 10)) [
  | inl e ↦ rw e (ground arith)
  | inr e ↦ rw e (
      digits-append 0 (n % 10) (itoa_loop fuel (n / 10)) (omega arith)
      ∙ ap (step (n % 10)) (digits-itoa_loop fuel (n / 10) (ground arith))
      ∙ ap some (omega arith))
]

-- The first digit.
pub record StartsWithDigit (cs : List ℕ) : Type 0 where
  pub c : ℕ
  pub rest : List ℕ
  pub whole : cs ≡ c ∷ rest
  pub low : 48 ≤ c
  pub high : c ≤ 57

itoa_loop-StartsWithDigit : (fuel n : ℕ) → n < fuel → StartsWithDigit (itoa_loop fuel n)
unfolding itoa_loop
itoa_loop-StartsWithDigit zero n h = absurd (omega arith)
itoa_loop-StartsWithDigit (suc fuel) n h = elim (Bool-cases (ltb n 10)) [
  | inl e ↦
      rw e (record { c = 48 + n; rest = []; whole = refl; low = omega arith; high = ground arith })
  | inr e ↦
      let s = itoa_loop-StartsWithDigit fuel (n / 10) (ground arith) in
      rw e (record {
        c = s.c;
        rest = s.rest ++ (48 + n % 10) ∷ [];
        whole = ap (λ l. l ++ (48 + n % 10) ∷ []) s.whole;
        low = s.low;
        high = s.high;
      })
]

plain :
    (c : ℕ) (cs : List ℕ) (n : ℕ)
    → 48 ≤ c
    → c ≤ 57
    → n < u32_mod
    → digits 0 (c ∷ cs) ≡ some n
    → atoi_u32 (c ∷ cs) ≡ some n
unfolding atoi_u32 unsigned
plain c cs n l m h d =
    let minus : (c == b'-') ≡ false = ground arith in
    let sign : (c == b'+') ≡ false = ground arith in
    let small : ltb n 9223372036854775808 ≡ true = lt→ltb n 9223372036854775808 (omega arith) in
    rw (minus, atoi_u32) (rw sign (rw (d, unsigned) (rw small (ap some (omega arith)))))

-- A user id survives its way through a token.
pub atoi_u32-itoa : (n : ℕ) → n < u32_mod → atoi_u32 (itoa n) ≡ some n
unfolding itoa
atoi_u32-itoa n h =
    let s = itoa_loop-StartsWithDigit (n + 1) n (omega arith) in
    let d : digits 0 (s.c ∷ s.rest) ≡ some n =
      ap (digits 0) (sym s.whole) ∙ digits-itoa_loop (n + 1) n (omega arith) in
    ap atoi_u32 s.whole ∙ plain s.c s.rest n s.low s.high h d
