-- ===== src/Registry/Tests.antt =====
-- The watch at a concrete input.
use zqim.Prelude.{ℕ, ◌≡◌, ◌≢◌, false, refl, arith, Option, some, List, [], ◌∷◌, string_eq}
use zqim.Prelude.Maps
use Prim.Native.String.{String}
use zqim.Registry.{Comits, Event, put, delete, watch}
use zqim.Registry.Latest.{latest, watch-latest}

abbrev dial : String → Option ℕ
dial addr = some 4

abbrev history : List Event
history = put "a" "10.0.0.1" ∷ put "b" "10.0.0.2" ∷ delete "a" ∷ []

abbrev empty : Comits
empty = []

apart : (a b : String) → string_eq.beq a b ≡ false → a ≢ b
apart a b e f = ground (arith, string_eq.beq_iff a b)

watch-latest_example :
    Maps.lookup "b" (watch dial "c" history empty)
    ≡ latest dial "c" "b" history (Maps.lookup "b" empty)
watch-latest_example = watch-latest dial "c" "b" history empty (apart "b" "c" refl)
