-- ===== src/Cache/Tests.antt =====
-- The checks of the cache at concrete inputs.
use zqim.Prelude.{◌≡◌, refl, some, [], ◌∷◌}
use zqim.Cache.{atoi_u32}

atoi_u32-negative : atoi_u32 (b'-' ∷ b'1' ∷ []) ≡ some 4294967295
unfolding atoi_u32
atoi_u32-negative = refl
