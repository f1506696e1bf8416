-- ===== src/Frame/Step.antt =====
-- One round of unpack: what it takes for a frame, and when it waits.
use zqim.Prelude.{
  ℕ, suc, ◌+◌, ◌-◌, ◌*◌, ◌/◌, ◌%◌, ◌≤◌, ◌<◌, ◌≡◌, sym, ap, ◌∙◌, List, [], ◌∷◌, ◌++◌, some, arith,
  length, take, drop, length-append, take-append, drop-append, append_assoc, leb, le→ltb, lt→ltb,
  true,
}
use zqim.Frame.{
  Request, Buffer, wait, deliver, get_bytes, put_uint32, read_uint32, round, slice, u32_mod,
}

-- A request that fits its wire format: the fields in range, and the length field that of the body.
pub record IsValid (r : Request) : Type 0 where
  pub typ_range : r.typ < 65536
  pub flag_range : r.flag < 256
  pub sized : r.body_len ≡ length r.body
  pub fits : length r.body + 7 < u32_mod

pub read_uint32-put : (n : ℕ) → n < u32_mod → read_uint32 (put_uint32 n) ≡ n
unfolding read_uint32 put_uint32
read_uint32-put n h = omega arith

leb-true : (a b : ℕ) → a ≤ b → leb a b ≡ true
leb-true a b h = ground arith

pub slice-some :
    (a : List ℕ) (lo hi : ℕ)
    → lo ≤ hi
    → hi ≤ length a
    → slice a lo hi ≡ some (take (hi - lo) (drop lo a))
unfolding slice
slice-some a lo hi p q = rw (leb-true lo hi p, leb-true hi (length a) q)

-- A round on a buffer that has a whole header, with the body there but for at most two bytes, which
-- the backing array supplies.
module _ (t₁ t₂ l₁ l₂ l₃ l₄ f : ℕ) (xs spare : List ℕ) (n : ℕ)
    (len : read_uint32 (l₁ ∷ l₂ ∷ l₃ ∷ l₄ ∷ []) ≡ n) (fits : n + 7 < u32_mod) where
  pub round-header :
      n ≤ length xs + 2
      → n ≤ length (xs ++ spare)
      → round (record { unread = t₁ ∷ t₂ ∷ l₁ ∷ l₂ ∷ l₃ ∷ l₄ ∷ f ∷ xs; spare = spare })
        ≡ deliver
            (record { typ = t₁ * 256 + t₂; body_len = n; flag = f; body = take n (xs ++ spare) })
            (record { unread = drop n xs; spare = spare })
  unfolding round
  round-header near there =
      let seven = λ (m : ℕ). suc (suc (suc (suc (suc (suc (suc m)))))) in
      let body : (n + 7) % u32_mod ≡ seven n = omega arith in
      let skip : (7 + n) % u32_mod ≡ seven n = omega arith in
      let size : seven n - 7 ≡ n = omega arith in
      rw (
        le→ltb (seven (length xs)) 5 (omega arith),
        leb-true 6 (seven (length (xs ++ spare))) (omega arith),
        len,
        le→ltb (seven (length xs) - 5) n (omega arith),
        leb-true 2 (seven (length (xs ++ spare))) (omega arith),
        leb-true 7 (seven (length (xs ++ spare))) (omega arith),
        body,
        skip,
        leb-true 7 (seven n) (omega arith),
        leb-true (seven n) (seven (length (xs ++ spare))) (omega arith),
        size,
      )

  pub round-wait :
      length xs + 2 < n
      → round (record { unread = t₁ ∷ t₂ ∷ l₁ ∷ l₂ ∷ l₃ ∷ l₄ ∷ f ∷ xs; spare = spare }) ≡ wait
  unfolding round
  round-wait far = ground arith

module _ (r : Request) (valid : IsValid r) (spare : List ℕ) where
  len_read : read_uint32 (put_uint32 r.body_len) ≡ length r.body
  len_read = read_uint32-put r.body_len (omega (arith, valid.sized, valid.fits)) ∙ valid.sized

  typ_read : r.typ / 256 % 256 * 256 + r.typ % 256 ≡ r.typ
  typ_read = omega (arith, valid.typ_range)

  -- A whole frame at the front of the buffer is taken off, and comes out as the request it was
  -- written from.
  pub round-get_bytes :
      (more : List ℕ)
      → round (record { unread = get_bytes r ++ more; spare = spare })
        ≡ deliver r (record { unread = more; spare = spare })
  unfolding get_bytes put_uint32
  round-get_bytes more =
      round-header _ _ _ _ _ _ r.flag (r.body ++ more) spare (length r.body) len_read valid.fits
        (omega (arith, length-append r.body more))
        (omega (arith, length-append (r.body ++ more) spare, length-append r.body more))
      ∙ λ i.
          deliver
            (record {
              typ = typ_read i;
              body_len = sym valid.sized i;
              flag = r.flag;
              body =
                  (ap (take (length r.body)) (append_assoc r.body more spare)
                      ∙ take-append r.body (more ++ spare))
                    i;
            })
            (record { unread = drop-append r.body more i; spare = spare })

  -- A frame of which all but three bytes or more of the body are there stays in the buffer.
  pub round-partial :
      (xs rest : List ℕ)
      → r.body ≡ xs ++ rest
      → 3 ≤ length rest
      → round (record { unread = get_bytes (record r { body = xs }); spare = spare }) ≡ wait
  unfolding get_bytes put_uint32
  round-partial xs rest e h =
      round-wait _ _ _ _ _ _ r.flag xs spare (length r.body) len_read valid.fits
        (omega (arith, ap length e, length-append xs rest))

-- Fewer than five bytes stay in the buffer.
pub round-short : (b : Buffer) → length b.unread < 5 → round b ≡ wait
unfolding round
round-short b h = rw (lt→ltb (length b.unread) 5 h)
