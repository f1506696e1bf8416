-- ===== src/Frame/Window.antt =====
-- The window in which unpack takes an incomplete frame for a whole one: its tests allow for a
-- header of five bytes where the header has seven.
use zqim.Prelude.{
  ℕ, zero, suc, ◌*◌, ◌/◌, ◌%◌, ◌+◌, ◌≤◌, ◌≡◌, refl, sym, ap, ◌∙◌, List, [], ◌∷◌, ◌++◌, arith,
  length, take, drop, length-append, append_assoc, take-append,
}
use zqim.Frame.{
  Request, Buffer, wait, deliver, get_bytes, put_uint32, round, waiting, unpack, unpack_loop,
}
use zqim.Frame.Step.{IsValid, round-header, round-short, read_uint32-put}

drop_all : {A : Type 0} (n : ℕ) (xs : List A) → length xs ≤ n → drop n xs ≡ []
drop_all zero [] h = refl
drop_all zero (x ∷ xs) h = absurd (omega arith)
drop_all (suc n) [] h = refl
drop_all (suc n) (x ∷ xs) h = drop_all n xs (omega arith)

unpack_loop-one :
    (fuel : ℕ) (b b' : Buffer) (q : Request)
    → 2 ≤ fuel
    → round b ≡ deliver q b'
    → round b' ≡ wait
    → unpack_loop fuel b ≡ waiting (q ∷ []) b'
unfolding unpack_loop
unpack_loop-one zero b b' q h r w = absurd (omega arith)
unpack_loop-one (suc zero) b b' q h r w = absurd (omega arith)
unpack_loop-one (suc (suc fuel)) b b' q h r w = rw (r, unpack_loop) (rw (w, unpack_loop))

module _ (r : Request) (xs rest stale more : List ℕ) (valid : IsValid r) (cut : r.body ≡ xs ++ rest)
    (window : length rest ≤ 2) (behind : length stale ≡ length rest) where
  typ_read : r.typ / 256 % 256 * 256 + r.typ % 256 ≡ r.typ
  typ_read = omega (arith, valid.typ_range)

  size : length (xs ++ stale) ≡ length r.body
  size = omega (arith, ap length cut, length-append xs rest, length-append xs stale)

  filled : take (length r.body) (xs ++ (stale ++ more)) ≡ xs ++ stale
  filled = rw (← size, ← append_assoc xs stale more) (take-append (xs ++ stale) more)

  one :
      round (record { unread = get_bytes (record r { body = xs }); spare = stale ++ more })
      ≡ deliver (record r { body = xs ++ stale }) (record { unread = []; spare = stale ++ more })
  unfolding get_bytes put_uint32
  one =
      round-header _ _ _ _ _ _ r.flag xs (stale ++ more) (length r.body)
        (read_uint32-put r.body_len (omega (arith, valid.sized, valid.fits)) ∙ valid.sized)
        valid.fits (omega (arith, ap length cut, length-append xs rest))
        (omega
          (arith, size, ap length (append_assoc xs stale more), length-append (xs ++ stale) more))
      ∙ λ i.
          deliver
            (record {
              typ = typ_read i;
              body_len = sym valid.sized i;
              flag = r.flag;
              body = filled i;
            })
            (record {
              unread =
                  drop_all (length r.body) xs (omega (arith, ap length cut, length-append xs rest))
                    i;
              spare = stale ++ more;
            })

  -- When the whole header of a valid request has arrived and at most two bytes of its body have
  -- not, and the buffer's array has at least as many bytes behind the buffer, unpack hands the
  -- request on all the same: those bytes stand in for the ones that are missing.
  pub unpack_early :
      unpack (record { unread = get_bytes (record r { body = xs }); spare = stale ++ more })
      ≡ waiting
          (record r { body = xs ++ stale } ∷ [])
          (record { unread = []; spare = stale ++ more })
  unfolding unpack get_bytes put_uint32
  unpack_early = unpack_loop-one _ _ _ _ (omega arith) one (round-short _ (omega arith))
