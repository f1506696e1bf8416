-- ===== src/Url/Tests.antt =====
-- Runs of the path decoder, and its theorems at concrete inputs.
use zqim.Prelude.{ℕ, ◌≡◌, refl, ◌↔◌, List, [], ◌∷◌}
use zqim.Url.{
  encode_host, encode_zone, ishex, unhex, unhex_pair, unescape, unescape_path, ok, escape_error,
  invalid_host_error, should_escape,
}
use zqim.Url.Scan.{Decodes}
use zqim.Url.Decode.{unescape_path-Decodes}

-- "/a%2F+"
abbrev callback : List ℕ
callback = b'/' ∷ b'a' ∷ b'%' ∷ b'2' ∷ b'F' ∷ b'+' ∷ []

callback_decoded : unescape_path callback encode_host ≡ ok (b'/' ∷ b'a' ∷ b'/' ∷ b'+' ∷ [])
unfolding unescape_path ishex unhex unhex_pair
callback_decoded = refl

cut_short : unescape_path (b'x' ∷ b'%' ∷ b'4' ∷ []) encode_host ≡ escape_error (b'%' ∷ b'4' ∷ [])
unfolding unescape_path
cut_short = refl

host_refuses :
    unescape encode_host (b'%' ∷ b'4' ∷ b'1' ∷ []) ≡ escape_error (b'%' ∷ b'4' ∷ b'1' ∷ [])
unfolding unescape ishex unhex unhex_pair should_escape
host_refuses = refl

zone_refuses : unescape encode_zone (b'/' ∷ []) ≡ invalid_host_error (b'/' ∷ [])
unfolding unescape ishex unhex unhex_pair should_escape
zone_refuses = refl

unescape_path-Decodes_example :
    (unescape_path callback encode_host ≡ ok (b'/' ∷ [])) ↔ Decodes callback (b'/' ∷ [])
unescape_path-Decodes_example = unescape_path-Decodes callback (b'/' ∷ []) encode_host
