-- ===== src/Oss/Tests.antt =====
-- Callbacks at concrete inputs.
use zqim.Prelude.{ℕ, ◌≡◌, refl, ◌⊎◌, some, List, [], ◌∷◌}
use zqim.Url.Scan.{Decodes, Malformed}
use zqim.Oss.{Callback, md5_of, nil_panic, get_md5_from_new_auth_string}
use zqim.Oss.Digest.{IsSigned, get_md5_from_new_auth_string-Decodes}
use zqim.Oss.Samples.{packages}

-- A path that ends in a lone `%`.
abbrev malformed : Callback
malformed = record {
  pub_key_url = [];
  authorization = [];
  path = b'/' ∷ b'%' ∷ [];
  raw_query = [];
  body = some (b'x' ∷ []);
}

get_md5_from_new_auth_string-Decodes_example :
    let md5 = get_md5_from_new_auth_string packages malformed in
    ((path : List ℕ) × (text : List ℕ) × Decodes malformed.path path
      × IsSigned path malformed.raw_query (b'x' ∷ []) text
      × (md5 ≡ md5_of (packages.md5 text)))
    ⊎ ((e : List ℕ) × Malformed malformed.path e × (md5 ≡ nil_panic))
get_md5_from_new_auth_string-Decodes_example =
    get_md5_from_new_auth_string-Decodes packages malformed (b'x' ∷ []) refl
