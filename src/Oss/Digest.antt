-- ===== src/Oss/Digest.antt =====
-- The digest of a callback, against what its path encodes.
use zqim.Prelude.{◌≡◌, ℕ, some, List, [], ◌∷◌, ◌++◌, ◌⊎◌, inl, inr, ap}
use zqim.Url.{encode_path_segment}
use zqim.Url.Scan.{Decodes, Malformed}
use zqim.Url.Decode.{unescape_path-Decision}
use zqim.Oss.{
  Packages, Callback, md5_of, nil_panic, auth_string, md5_or_panic, get_md5_from_new_auth_string,
}

-- The text that is signed: the path, the query behind a `?` if there is one, a new line and the
-- body.
pub data IsSigned (path : List ℕ) : List ℕ → List ℕ → List ℕ → Type 0 where
  bare : (body : List ℕ) → IsSigned path [] body (path ++ b'\n' ∷ body)
  queried :
      (c : ℕ) (cs body : List ℕ)
      → IsSigned path (c ∷ cs) body (path ++ b'?' ∷ (c ∷ cs) ++ b'\n' ∷ body)

auth_string-IsSigned :
    (pk : Packages) (path query body : List ℕ)
    → IsSigned path query body (auth_string pk path query body)
auth_string-IsSigned pk path [] body = bare body
auth_string-IsSigned pk path (c ∷ cs) body = queried c cs body

-- For a callback whose body can be read: if its path encodes some bytes, the digest is that of
-- these bytes, then `?` and the query if there is one, then a new line and the body; if the path
-- has a malformed escape, the handler panics.
pub get_md5_from_new_auth_string-Decodes :
    (pk : Packages) (r : Callback) (body : List ℕ)
    → r.body ≡ some body
    → let md5 = get_md5_from_new_auth_string pk r in
      ((path : List ℕ) × (text : List ℕ) × Decodes r.path path
        × IsSigned path r.raw_query body text
        × (md5 ≡ md5_of (pk.md5 text)))
      ⊎ ((e : List ℕ) × Malformed r.path e × (md5 ≡ nil_panic))
unfolding get_md5_from_new_auth_string
get_md5_from_new_auth_string-Decodes pk r body b =
    elim (unescape_path-Decision r.path encode_path_segment) [
      | inl (u, d, e) ↦ inl (
        u,
        auth_string pk u r.raw_query body,
        d,
        auth_string-IsSigned pk u r.raw_query body,
        rw (b, get_md5_from_new_auth_string) (ap (md5_or_panic pk r.raw_query body) e),
      )
      | inr (x, m, e) ↦
          inr (x, m, rw (b, get_md5_from_new_auth_string) (ap (md5_or_panic pk r.raw_query body) e))
    ]
