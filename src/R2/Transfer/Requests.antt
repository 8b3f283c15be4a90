-- ===== src/R2/Transfer/Requests.antt =====
-- The requests of r2_get_object and r2_put_object, and that no text of theirs is cut.
use sshpad.Prelude.{
  ℕ, ◌+◌, ◌<◌, Option, none, some, List, [], ◌∷◌, ◌++◌, ◌≡◌, refl, subst, ap, ◌∙◌, arith, Bytes,
  length, length-cat, length-append, codes, cat, append-nil,
}
use sshpad.Config.Host.{copy, copy_fits}
use sshpad.R2.{R2Config, Fits}
use sshpad.R2.Sign.{Hashing, Now, Signed, host_part, sign_request}
use sshpad.R2.Sign.Reference.{
  with_path, sign_request_lem, bytes_of, auth_short, sha_length, date_length,
}
use sshpad.R2.Transfer.{object_url, object_path, header_texts, get_request, put_request}

-- The headers of a signature, whole.
unfoldable pub headers_of : Signed → List Bytes
headers_of s =
    (codes "Authorization: " ++ s.auth)
    ∷ (codes "x-amz-date: " ++ s.date)
    ∷ (codes "x-amz-content-sha256: " ++ s.sha256)
    ∷ []

abbrev pub path_of : R2Config → Bytes
path_of cfg = codes "/" ++ (cfg.bucket ++ (codes "/" ++ cfg.object_key))

abbrev pub url_of : R2Config → Bytes
url_of cfg = cfg.endpoint ++ path_of cfg

object_path_lem : (cfg : R2Config) → Fits cfg → object_path cfg ≡ path_of cfg
unfolding object_path
object_path_lem cfg fits =
    copy_fits 512 _ (
      omega (
        arith,
        fits.bucket_fits,
        fits.object_key_fits,
        length-cat (codes "/" ∷ cfg.bucket ∷ codes "/" ∷ cfg.object_key ∷ []),
      ))
    ∙ ap (λ k. codes "/" ++ (cfg.bucket ++ (codes "/" ++ k))) (append-nil cfg.object_key)

object_url_lem : (cfg : R2Config) → Fits cfg → object_url cfg ≡ url_of cfg
unfolding object_url
object_url_lem cfg fits =
    copy_fits 1024 _ (
      omega (
        arith,
        fits.endpoint_fits,
        fits.bucket_fits,
        fits.object_key_fits,
        length-cat (cfg.endpoint ∷ codes "/" ∷ cfg.bucket ∷ codes "/" ∷ cfg.object_key ∷ []),
      ))
    ∙ ap (λ k. cfg.endpoint ++ (codes "/" ++ (cfg.bucket ++ (codes "/" ++ k))))
        (append-nil cfg.object_key)

two_pieces :
    (size : ℕ) (a b : Bytes) → length a + length b < size → copy size (cat (a ∷ b ∷ [])) ≡ a ++ b
two_pieces size a b h =
    copy_fits size _ (omega (arith, length-cat (a ∷ b ∷ []))) ∙ ap (λ t. a ++ t) (append-nil b)

header_texts_lem :
    (s : Signed)
    → length s.auth < 512
    → length s.date ≡ 16
    → length s.sha256 ≡ 64
    → header_texts s ≡ headers_of s
unfolding header_texts headers_of
header_texts_lem s auth date sha =
    rw
      (
        two_pieces 600 (codes "Authorization: ") s.auth (omega arith),
        two_pieces 64 (codes "x-amz-date: ") s.date (omega arith),
        two_pieces 96 (codes "x-amz-content-sha256: ") s.sha256 (omega arith),
      )
      refl

module _ (h : Hashing) (now : Now) (cfg : R2Config) (fits : Fits cfg)
    (host : length (host_part cfg.endpoint) < 256) where
  path_short : length (path_of cfg) < 512
  path_short = omega (
    arith,
    fits.bucket_fits,
    fits.object_key_fits,
    length-append cfg.bucket (codes "/" ++ cfg.object_key),
  )

  signed_texts :
      (method : Bytes) (payload : Option Bytes)
      → length method < 16
      → header_texts (sign_request h now cfg method (object_path cfg) payload)
        ≡ headers_of (with_path h now cfg method (path_of cfg) (bytes_of payload))
  signed_texts method payload short =
      let same : sign_request h now cfg method (path_of cfg) payload
          ≡ with_path h now cfg method (path_of cfg) (bytes_of payload) =
        sign_request_lem h now cfg method (path_of cfg) payload fits host short path_short in
      rw (object_path_lem cfg fits, same)
        (header_texts_lem (with_path h now cfg method (path_of cfg) (bytes_of payload))
          (subst (λ s. length s.auth < 512) same
            (auth_short h now cfg method (path_of cfg) payload))
          (date_length h now cfg method (path_of cfg) (bytes_of payload))
          (sha_length h now cfg method (path_of cfg) (bytes_of payload)))

  -- The requests of r2_get_object and r2_put_object have the whole URL of the object and the headers
  -- of AWS Signature V4 for its path, as it is, and for the payload that is sent, with no text cut at its buffer,
  -- for a configuration that fits its arrays and a host of less than 256 bytes.
  pub requests_lem :
      (content : Bytes)
      → (get_request h now cfg ≡ record {
        method = codes "GET";
        url = url_of cfg;
        headers = headers_of (with_path h now cfg (codes "GET") (path_of cfg) []);
        body = none;
      })
        × (put_request h now cfg content ≡ record {
          method = codes "PUT";
          url = url_of cfg;
          headers =
              headers_of (with_path h now cfg (codes "PUT") (path_of cfg) content)
              ++ codes "Content-Type: application/octet-stream" ∷ [];
          body = some content;
        })
  unfolding get_request put_request
  requests_lem content = (
    rw (object_url_lem cfg fits, signed_texts (codes "GET") none (omega arith)) refl,
    rw (object_url_lem cfg fits, signed_texts (codes "PUT") (some content) (omega arith)) refl,
  )
