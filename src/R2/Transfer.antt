-- ===== src/R2/Transfer.antt =====
-- r2_get_object, r2_put_object and r2_test_connection of src/r2_client.c, with the callbacks that
-- libcurl calls. What the server answers is an argument.
pub mod Chunks
pub mod Requests
use sshpad.Prelude.{
  ℕ, zero, suc, ◌+◌, ◌-◌, ◌≤◌, Bool, true, false, ◌||◌, Option, none, some, List, [], ◌∷◌, ◌++◌,
  ◌==◌, ltb, if◌then◌else◌, min, Bytes, length, take, drop, codes, cat,
}
use sshpad.Config.Host.{copy}
use sshpad.R2.{R2Config}
use sshpad.R2.Sign.{Hashing, Now, Signed, sign_request}

abbrev pub max_body : ℕ
max_body = 10485760

abbrev received : Option Bytes → Bytes
received none = []
received (some b) = b

-- The buffer after the call, and the number of bytes taken. `grow n` is the answer of realloc for `n`
-- bytes; the buffer is none before the first call.
unfoldable pub write_cb : (ℕ → Bool) → Bytes → Option Bytes → Option Bytes × ℕ
write_cb grow chunk buf =
    if ltb max_body (length (received buf) + length chunk)
    then (buf, 0)
    else if grow (length (received buf) + length chunk + 1)
    then (some (received buf ++ chunk), length chunk)
    else (buf, 0)

-- curl_read_buf_t
pub record ReadBuf : Type 0 where
  pub content : Bytes
  pub offset : ℕ

-- What the call gives to libcurl, which has room for `space` bytes, and the buffer after it.
unfoldable pub read_cb : ℕ → ReadBuf → Bytes × ReadBuf
read_cb space r =
    let avail = length r.content - r.offset in
    let n = if ltb avail space then avail else space in
    (take n (drop r.offset r.content), record r { offset = r.offset + n })

pub record Request : Type 0 where
  pub method : Bytes
  pub url : Bytes
  pub headers : List Bytes
  pub body : Option Bytes

unfoldable pub object_url : R2Config → Bytes
object_url cfg =
    copy 1024 (cat (cfg.endpoint ∷ codes "/" ∷ cfg.bucket ∷ codes "/" ∷ cfg.object_key ∷ []))

unfoldable pub object_path : R2Config → Bytes
object_path cfg = copy 512 (cat (codes "/" ∷ cfg.bucket ∷ codes "/" ∷ cfg.object_key ∷ []))

-- hdr_auth, hdr_date and hdr_sha.
unfoldable pub header_texts : Signed → List Bytes
header_texts s =
    copy 600 (cat (codes "Authorization: " ∷ s.auth ∷ []))
    ∷ copy 64 (cat (codes "x-amz-date: " ∷ s.date ∷ []))
    ∷ copy 96 (cat (codes "x-amz-content-sha256: " ∷ s.sha256 ∷ []))
    ∷ []

-- The request that r2_get_object makes.
unfoldable pub get_request : Hashing → Now → R2Config → Request
get_request h now cfg = record {
  method = codes "GET";
  url = object_url cfg;
  headers = header_texts (sign_request h now cfg (codes "GET") (object_path cfg) none);
  body = none;
}

unfoldable pub put_request : Hashing → Now → R2Config → Bytes → Request
put_request h now cfg content = record {
  method = codes "PUT";
  url = object_url cfg;
  headers =
      header_texts (sign_request h now cfg (codes "PUT") (object_path cfg) (some content))
      ++ codes "Content-Type: application/octet-stream" ∷ [];
  body = some content;
}

-- The request that r2_test_connection makes, to the bucket alone.
unfoldable pub test_request : Hashing → Now → R2Config → Request
test_request h now cfg = record {
  method = codes "HEAD";
  url = copy 1024 (cat (cfg.endpoint ∷ codes "/" ∷ cfg.bucket ∷ []));
  headers =
      header_texts
        (sign_request h now cfg (codes "HEAD") (copy 512 (cat (codes "/" ∷ cfg.bucket ∷ []))) none);
  body = none;
}

-- The results of curl_easy_perform: none is a failed transfer, else the status and what write_cb left.
unfoldable pub get_result : Option (ℕ × Option Bytes) → ℕ × Option Bytes
get_result none = (0, none)
get_result (some (code, buf)) = if code == 200 then (code, buf) else (code, none)

-- 0 or -1; of r2_put_object and of r2_test_connection.
unfoldable pub is_accepted : Option ℕ → Bool
is_accepted none = false
is_accepted (some code) = code == 200 || code == 204
