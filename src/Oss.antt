-- ===== src/Oss.antt =====
-- logic/controller/osshandle.go but its path decoder: the policy that lets a client upload, and the
-- checks of a callback of the object storage. crypto, encoding and net/http are parameters; texts
-- are bytes.
pub mod Digest
pub mod Samples
mod Tests
use Prim.Native.String.{String}
use zqim.Prelude.{ℕ, ◌+◌, Bool, true, false, Option, none, some, List, [], ◌∷◌, ◌++◌}
use zqim.Url.{
  Encoding, encode_path_segment, Unescaped, ok, escape_error, invalid_host_error, panic,
  unescape_path,
}

-- ConfigStruct and CallbackParam
pub record ConfigStruct : Type 0 where
  pub expiration : List ℕ
  pub conditions : List (List String)

pub record CallbackParam : Type 0 where
  pub callback_url : String
  pub callback_body : String
  pub callback_body_type : String

pub record PolicyToken : Type 0 where
  pub access_key_id : List ℕ
  pub host : String
  pub expire : ℕ
  pub signature : List ℕ
  pub policy : List ℕ
  pub directory : String
  pub callback : List ℕ

-- What ParsePKIXPublicKey makes of a block.
pub data PublicKey : Type 0 where
  rsa_key : List ℕ → PublicKey
  other_key : PublicKey
  no_key : PublicKey

-- The packages that the handlers call. `read_url` is http.Get and the reading of what it got;
-- `from_base64` is what DecodeString gives, beside an error that is ignored.
pub record Packages : Type 0 where
  pub format_time : ℕ → List ℕ
  pub json_config : ConfigStruct → List ℕ
  pub json_callback : CallbackParam → List ℕ
  pub to_base64 : List ℕ → List ℕ
  pub from_base64 : List ℕ → List ℕ
  pub hmac_sha1 : List ℕ → List ℕ → List ℕ
  pub md5 : List ℕ → List ℕ
  pub read_url : List ℕ → Option (List ℕ)
  pub pem_decode : List ℕ → Option (List ℕ)
  pub parse_public_key : List ℕ → PublicKey
  pub verify_md5 : List ℕ → List ℕ → List ℕ → Bool

-- A callback: two of its headers, its path as url.URL has it, its query and its body, which can
-- fail to be read.
pub record Callback : Type 0 where
  pub pub_key_url : List ℕ
  pub authorization : List ℕ
  pub path : List ℕ
  pub raw_query : List ℕ
  pub body : Option (List ℕ)

-- How getMD5FromNewAuthString ends.
pub data Md5 : Type 0 where
  md5_of : List ℕ → Md5
  read_error : Md5
  nil_panic : Md5

abbrev expire_time : ℕ
expire_time = 30

module _ (pk : Packages) where
  abbrev callback_param : CallbackParam
  callback_param = record {
    callback_url = "http://88.88.88.88:8888";
    callback_body =
        "filename=${object}&size=${size}&mimeType=${mimeType}&height=${imageInfo.height}&width=${imageInfo.width}";
    callback_body_type = "application/x-www-form-urlencoded";
  }

  abbrev config_of : ℕ → ConfigStruct
  config_of expire_end = record {
    expiration = pk.format_time expire_end;
    conditions = ("starts-with" ∷ "$key" ∷ "" ∷ []) ∷ [];
  }

  unfoldable pub get_policy_token : ℕ → List ℕ → List ℕ → PolicyToken
  get_policy_token now access_key_id access_key_secret =
      let expire_end = now + expire_time in
      let debyte = pk.to_base64 (pk.json_config (config_of expire_end)) in
      record {
        access_key_id = access_key_id;
        host = "http://xkws.oss-cn-hangzhou.aliyuncs.com";
        expire = expire_end;
        signature = pk.to_base64 (pk.hmac_sha1 access_key_secret debyte);
        policy = debyte;
        directory = "";
        callback = pk.to_base64 (pk.json_callback callback_param);
      }

  abbrev read_key : List ℕ → Option (List ℕ)
  read_key [] = none
  read_key (c ∷ cs) = pk.read_url (pk.from_base64 (c ∷ cs))

  unfoldable pub get_public_key : Callback → Option (List ℕ)
  get_public_key r = read_key r.pub_key_url

  abbrev decoded : List ℕ → Option (List ℕ)
  decoded [] = none
  decoded (c ∷ cs) = some (pk.from_base64 (c ∷ cs))

  unfoldable pub get_authorization : Callback → Option (List ℕ)
  get_authorization r = decoded r.authorization

  abbrev pub auth_string : List ℕ → List ℕ → List ℕ → List ℕ
  auth_string path [] body = path ++ b'\n' ∷ body
  auth_string path (c ∷ cs) body = path ++ b'?' ∷ (c ∷ cs) ++ b'\n' ∷ body

  -- On a path that does not decode the printing of the message calls Error on the error of the
  -- body's reading, which is nil.
  abbrev pub md5_or_panic : List ℕ → List ℕ → Unescaped → Md5
  md5_or_panic query body (ok path) = md5_of (pk.md5 (auth_string path query body))
  md5_or_panic query body (escape_error e) = nil_panic
  md5_or_panic query body (invalid_host_error e) = nil_panic
  md5_or_panic query body panic = nil_panic

  unfoldable pub get_md5_from_new_auth_string : Callback → Md5
  unfolding unescape_path
  get_md5_from_new_auth_string r = elim r.body [
    | none ↦ read_error
    | some body ↦ md5_or_panic r.raw_query body (unescape_path r.path encode_path_segment)
  ]

  -- `none` is the panic of the assertion that the key is an RSA key.
  abbrev verified : List ℕ → List ℕ → PublicKey → Option Bool
  verified byte_md5 authorization (rsa_key k) = some (pk.verify_md5 k byte_md5 authorization)
  verified byte_md5 authorization other_key = none
  verified byte_md5 authorization no_key = some false

  unfoldable pub verify_signature : List ℕ → List ℕ → List ℕ → Option Bool
  verify_signature byte_public_key byte_md5 authorization = elim (pk.pem_decode byte_public_key) [
    | none ↦ some false
    | some block ↦ verified byte_md5 authorization (pk.parse_public_key block)
  ]
