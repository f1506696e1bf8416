-- ===== src/Oss/Samples.antt =====
-- The packages at a concrete input.
use zqim.Prelude.{none, [], ◌∷◌, ◌++◌, true}
use zqim.Oss.{Packages, no_key}

abbrev pub packages : Packages
packages = record {
  format_time = λ t. t ∷ [];
  json_config = λ c. c.expiration;
  json_callback = λ c. [];
  to_base64 = λ s. s;
  from_base64 = λ s. s;
  hmac_sha1 = λ k s. k ++ s;
  md5 = λ s. s;
  read_url = λ u. none;
  pem_decode = λ s. none;
  parse_public_key = λ s. no_key;
  verify_md5 = λ k m a. true;
}
