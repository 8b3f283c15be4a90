-- ===== src/R2/Sign.antt =====
-- sign_request of src/r2_client.c: the AWS Signature V4 of a request. The hashes and the time are
-- parameters.
pub mod Uri
pub mod Reference
use sshpad.Prelude.{
  ℕ, suc, ◌<◌, Bool, true, false, Option, none, some, List, [], ◌∷◌, ◌++◌, ◌≡◌, ◌+◌, Bytes, All,
  length, take, drop, codes, cat,
}
use sshpad.Text.{find_char, find_text}
use sshpad.Config.Host.{copy}
use sshpad.Uuid.{hex_byte}
use sshpad.R2.{R2Config}

abbrev pub empty_sha256 : Bytes
empty_sha256 = codes "e3b0c44298fc1c149afbf4c8996fb92427ae41e4649b934ca495991b7852b855"

unfoldable pub hex : Bytes → Bytes
hex [] = []
hex (b ∷ bs) = hex_byte b ++ hex bs

-- SHA-256 and HMAC-SHA256 of OpenSSL.
pub record Hashing : Type 0 where
  pub sha256 : Bytes → Bytes
  pub hmac_sha256 : Bytes → Bytes → Bytes
  pub length-sha256 : (s : Bytes) → length (sha256 s) ≡ 32
  pub length-hmac : (key s : Bytes) → length (hmac_sha256 key s) ≡ 32
  pub sha256_nil : hex (sha256 []) ≡ empty_sha256

-- What strftime writes of the time of the call, for a year of four digits.
pub record Now : Type 0 where
  pub date : Bytes
  pub datetime : Bytes
  pub length-date : length date ≡ 8
  pub length-datetime : length datetime ≡ 16

abbrev pub nl : Bytes
nl = 10 ∷ []

abbrev behind_scheme : Bytes → Option ℕ → Bytes
behind_scheme endpoint none = endpoint
behind_scheme endpoint (some i) = drop (i + 3) endpoint

abbrev before_slash : Bytes → Option ℕ → Bytes
before_slash s none = s
before_slash s (some i) = take i s

-- The part of the URL between "://" and the next slash.
unfoldable pub host_part : Bytes → Bytes
host_part endpoint =
    let start = behind_scheme endpoint (find_text (codes "://") endpoint) in
    before_slash start (find_char 47 start)

unfoldable pub extract_host : ℕ → Bytes → Bytes
extract_host size endpoint = copy size (host_part endpoint)

-- The three header values of a request.
pub record Signed : Type 0 where
  pub auth : Bytes
  pub date : Bytes
  pub sha256 : Bytes

abbrev pub signed_headers : Bytes
signed_headers = codes "host;x-amz-content-sha256;x-amz-date"

-- An empty payload counts as none.
unfoldable pub payload_hash : Hashing → Option Bytes → Bytes
payload_hash h none = empty_sha256
payload_hash h (some []) = empty_sha256
payload_hash h (some (b ∷ bs)) = hex (h.sha256 (b ∷ bs))

unfoldable pub canonical_headers : Bytes → Bytes → Bytes → Bytes
canonical_headers host hash datetime = copy 1024 (
    cat (
      codes "host:"
      ∷ host
      ∷ nl
      ∷ codes "x-amz-content-sha256:"
      ∷ hash
      ∷ nl
      ∷ codes "x-amz-date:"
      ∷ datetime
      ∷ nl
      ∷ []))

unfoldable pub canonical_request : Bytes → Bytes → Bytes → Bytes → Bytes
canonical_request method path headers hash =
    copy 4096 (cat (method ∷ nl ∷ path ∷ nl ∷ nl ∷ headers ∷ nl ∷ signed_headers ∷ nl ∷ hash ∷ []))

unfoldable pub credential_scope : Bytes → Bytes
credential_scope date = copy 128 (cat (date ∷ codes "/auto/s3/aws4_request" ∷ []))

unfoldable pub string_to_sign : Bytes → Bytes → Bytes → Bytes
string_to_sign datetime scope request_hash =
    copy 1024 (cat (codes "AWS4-HMAC-SHA256" ∷ nl ∷ datetime ∷ nl ∷ scope ∷ nl ∷ request_hash ∷ []))

-- The chain of keys k1 to k4.
unfoldable pub signing_key : Hashing → Bytes → Bytes → Bytes
signing_key h secret date =
    let k1 = h.hmac_sha256 (copy 300 (cat (codes "AWS4" ∷ secret ∷ []))) date in
    let k2 = h.hmac_sha256 k1 (codes "auto") in
    let k3 = h.hmac_sha256 k2 (codes "s3") in h.hmac_sha256 k3 (codes "aws4_request")

unfoldable pub authorization : Bytes → Bytes → Bytes → Bytes
authorization access_key_id scope signature = copy 512 (
    cat (
      codes "AWS4-HMAC-SHA256 Credential="
      ∷ access_key_id
      ∷ codes "/"
      ∷ scope
      ∷ codes ",SignedHeaders="
      ∷ signed_headers
      ∷ codes ",Signature="
      ∷ signature
      ∷ []))

unfoldable pub sign_request : Hashing → Now → R2Config → Bytes → Bytes → Option Bytes → Signed
sign_request h now cfg method path payload =
    let hash = payload_hash h payload in
    let headers = canonical_headers (extract_host 256 cfg.endpoint) hash now.datetime in
    let request_hash = hex (h.sha256 (canonical_request method path headers hash)) in
    let scope = credential_scope now.date in
    let key = signing_key h cfg.secret_access_key now.date in
    let signature = hex (h.hmac_sha256 key (string_to_sign now.datetime scope request_hash)) in
    record {
      auth = authorization cfg.access_key_id scope signature;
      date = now.datetime;
      sha256 = hash;
    }
