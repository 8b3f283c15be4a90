-- ===== src/R2/Sign/Reference.antt =====
-- The signature as AWS Signature V4 defines it, without buffers, and that sign_request computes it.
use sshpad.Prelude.{
  ℕ, ◌+◌, ◌<◌, true, Option, none, some, List, [], ◌∷◌, ◌++◌, ◌≡◌, refl, subst, sym, ap, ◌∙◌, arith,
  Bytes, length, length-cat, codes, cat, append-nil,
}
use sshpad.Config.Host.{copy, copy_fits, length-copy}
use sshpad.R2.{R2Config, Fits}
use sshpad.R2.Sign.Uri.{uri_encode, is_plain, uri_encode_plain}
use sshpad.R2.Sign.{
  hex, Hashing, Now, nl, host_part, extract_host, Signed, signed_headers, payload_hash,
  canonical_headers, canonical_request, credential_scope, string_to_sign, signing_key,
  authorization, sign_request,
}

-- The texts with the byte between them.
unfoldable pub join : ℕ → List Bytes → Bytes
join sep [] = []
join sep (s ∷ []) = s
join sep (s ∷ t ∷ ss) = s ++ sep ∷ join sep (t ∷ ss)

-- Each header in a line of its own, `name:value`.
unfoldable pub header_lines : List (Bytes × Bytes) → Bytes
header_lines [] = []
header_lines ((name, value) ∷ hs) = name ++ 58 ∷ (value ++ 10 ∷ header_lines hs)

unfoldable pub names : List (Bytes × Bytes) → List Bytes
names [] = []
names ((name, value) ∷ hs) = name ∷ names hs

-- The keys of a chain of HMAC, one for each text.
unfoldable pub key_chain : Hashing → Bytes → List Bytes → Bytes
key_chain h key [] = key
key_chain h key (s ∷ ss) = key_chain h (h.hmac_sha256 key s) ss

abbrev pub bytes_of : Option Bytes → Bytes
bytes_of none = []
bytes_of (some b) = b

module _ (h : Hashing) (now : Now) (cfg : R2Config) where
  abbrev pub request_headers : Bytes → List (Bytes × Bytes)
  request_headers hash =
      (codes "host", host_part cfg.endpoint)
      ∷ (codes "x-amz-content-sha256", hash)
      ∷ (codes "x-amz-date", now.datetime)
      ∷ []

  -- Method, path, the empty query, the headers, their names, the hash of the payload.
  abbrev pub request_of : Bytes → Bytes → Bytes → Bytes
  request_of method path hash = join 10 (
      method
      ∷ path
      ∷ []
      ∷ header_lines (request_headers hash)
      ∷ join 59 (names (request_headers hash))
      ∷ hash
      ∷ [])

  abbrev pub scope_texts : List Bytes
  scope_texts = now.date ∷ codes "auto" ∷ codes "s3" ∷ codes "aws4_request" ∷ []

  abbrev pub signature : Bytes → Bytes → Bytes → Bytes
  signature method path hash = hex (
      h.hmac_sha256 (key_chain h (codes "AWS4" ++ cfg.secret_access_key) scope_texts) (
        join 10 (
          codes "AWS4-HMAC-SHA256"
          ∷ now.datetime
          ∷ join 47 scope_texts
          ∷ hex (h.sha256 (request_of method path hash))
          ∷ [])))

  -- The headers with the canonical path.
  unfoldable pub with_path : Bytes → Bytes → Bytes → Signed
  unfolding join header_lines names key_chain
  with_path method path payload = record {
    auth =
        codes "AWS4-HMAC-SHA256 Credential="
        ++ (cfg.access_key_id
            ++ (codes "/"
                ++ (join 47 scope_texts
                    ++ (codes ",SignedHeaders="
                        ++ (join 59 (names (request_headers (hex (h.sha256 payload))))
                            ++ (codes ",Signature="
                                ++ signature method path (hex (h.sha256 payload))))))));
    date = now.datetime;
    sha256 = hex (h.sha256 payload);
  }

module _ (h : Hashing) (now : Now) (cfg : R2Config) where
  -- The headers of a request with this method, path and payload.
  unfoldable pub reference : Bytes → Bytes → Bytes → Signed
  unfolding with_path uri_encode
  reference method path payload = with_path h now cfg method (uri_encode path) payload

length-hex : (s : Bytes) → length (hex s) ≡ length s + length s
unfolding hex
length-hex [] = refl
length-hex (b ∷ bs) = omega (arith, length-hex bs)

module _ (h : Hashing) (now : Now) (cfg : R2Config) where
  payload_hash_lem :
      (payload : Option Bytes) → payload_hash h payload ≡ hex (h.sha256 (bytes_of payload))
  unfolding payload_hash
  payload_hash_lem none = sym h.sha256_nil
  payload_hash_lem (some []) = sym h.sha256_nil
  payload_hash_lem (some (b ∷ bs)) = refl

  headers_lem :
      (hash : Bytes)
      → length hash ≡ 64
      → length (host_part cfg.endpoint) < 256
      → canonical_headers (extract_host 256 cfg.endpoint) hash now.datetime
        ≡ header_lines (request_headers h now cfg hash)
  unfolding canonical_headers extract_host header_lines
  headers_lem hash size fits = rw (copy_fits 256 (host_part cfg.endpoint) fits) (
      copy_fits 1024 _ (
        omega (
          arith,
          now.length-datetime,
          length-cat (
              codes "host:"
              ∷ host_part cfg.endpoint
              ∷ nl
              ∷ codes "x-amz-content-sha256:"
              ∷ hash
              ∷ nl
              ∷ codes "x-amz-date:"
              ∷ now.datetime
              ∷ nl
              ∷ []),
        )))

  scope_lem : credential_scope now.date ≡ join 47 (scope_texts h now cfg)
  unfolding credential_scope join
  scope_lem =
      copy_fits 128 _
        (omega (arith, now.length-date, length-cat (now.date ∷ codes "/auto/s3/aws4_request" ∷ [])))

  request_lem :
      (method path headers hash : Bytes)
      → length method < 16
      → length path < 512
      → length headers < 1024
      → length hash ≡ 64
      → canonical_request method path headers hash
        ≡ method ++ 10 ∷ (path ++ 10 ∷ (10 ∷ (headers ++ 10 ∷ (signed_headers ++ 10 ∷ hash))))
  unfolding canonical_request
  request_lem method path headers hash hm hp hh size =
      copy_fits 4096 _ (
        omega (
          arith,
          length-cat
              (method ∷ nl ∷ path ∷ nl ∷ nl ∷ headers ∷ nl ∷ signed_headers ∷ nl ∷ hash ∷ []),
        ))
      ∙ ap (λ r. method ++ 10 ∷ (path ++ 10 ∷ (10 ∷ (headers ++ 10 ∷ (signed_headers ++ 10 ∷ r)))))
          (append-nil hash)

  string_lem :
      (scope hash : Bytes)
      → length scope < 128
      → length hash ≡ 64
      → string_to_sign now.datetime scope hash
        ≡ join 10 (codes "AWS4-HMAC-SHA256" ∷ now.datetime ∷ scope ∷ hash ∷ [])
  unfolding string_to_sign join
  string_lem scope hash hs size =
      copy_fits 1024 _ (
        omega (
          arith,
          now.length-datetime,
          length-cat (codes "AWS4-HMAC-SHA256" ∷ nl ∷ now.datetime ∷ nl ∷ scope ∷ nl ∷ hash ∷ []),
        ))
      ∙ ap (λ r. codes "AWS4-HMAC-SHA256" ++ 10 ∷ (now.datetime ++ 10 ∷ (scope ++ 10 ∷ r)))
          (append-nil hash)

  key_lem :
      length cfg.secret_access_key < 256
      → signing_key h cfg.secret_access_key now.date
        ≡ key_chain h (codes "AWS4" ++ cfg.secret_access_key) (scope_texts h now cfg)
  unfolding signing_key key_chain
  key_lem fits =
      let whole : cat (codes "AWS4" ∷ cfg.secret_access_key ∷ [])
          ≡ codes "AWS4" ++ cfg.secret_access_key =
        ap (λ s. codes "AWS4" ++ s) (append-nil cfg.secret_access_key) in
      let room : copy 300 (cat (codes "AWS4" ∷ cfg.secret_access_key ∷ []))
          ≡ codes "AWS4" ++ cfg.secret_access_key =
        copy_fits 300 _ (omega (arith, length-cat (codes "AWS4" ∷ cfg.secret_access_key ∷ [])))
        ∙ whole in
      ap
        (λ k.
          h.hmac_sha256
            (h.hmac_sha256 (h.hmac_sha256 (h.hmac_sha256 k now.date) (codes "auto")) (codes "s3"))
            (codes "aws4_request"))
        room

  authorization_lem :
      (scope sig : Bytes)
      → length cfg.access_key_id < 128
      → length scope < 128
      → length sig ≡ 64
      → authorization cfg.access_key_id scope sig
        ≡ codes "AWS4-HMAC-SHA256 Credential="
          ++ (cfg.access_key_id
              ++ (codes "/"
                  ++ (scope
                      ++ (codes ",SignedHeaders="
                          ++ (signed_headers ++ (codes ",Signature=" ++ sig))))))
  unfolding authorization
  authorization_lem scope sig ha hs size =
      copy_fits 512 _ (
        omega (
          arith,
          length-cat (
              codes "AWS4-HMAC-SHA256 Credential="
              ∷ cfg.access_key_id
              ∷ codes "/"
              ∷ scope
              ∷ codes ",SignedHeaders="
              ∷ signed_headers
              ∷ codes ",Signature="
              ∷ sig
              ∷ []),
        ))
      ∙ ap
          (λ r.
            codes "AWS4-HMAC-SHA256 Credential="
            ++ (cfg.access_key_id
                ++ (codes "/"
                    ++ (scope
                        ++ (codes ",SignedHeaders="
                            ++ (signed_headers ++ (codes ",Signature=" ++ r)))))))
          (append-nil sig)

  length-hex_sha256 : (s : Bytes) → length (hex (h.sha256 s)) ≡ 64
  length-hex_sha256 s = omega (arith, length-hex (h.sha256 s), h.length-sha256 s)

  length-hex_hmac : (key s : Bytes) → length (hex (h.hmac_sha256 key s)) ≡ 64
  length-hex_hmac key s = omega (arith, length-hex (h.hmac_sha256 key s), h.length-hmac key s)

  -- The same for any path, as it is.
  pub sign_request_lem :
      (method path : Bytes) (payload : Option Bytes)
      → Fits cfg
      → length (host_part cfg.endpoint) < 256
      → length method < 16
      → length path < 512
      → sign_request h now cfg method path payload
        ≡ with_path h now cfg method path (bytes_of payload)
  unfolding sign_request with_path
  sign_request_lem method path payload fits host hm hp =
      let hash : Bytes = hex (h.sha256 (bytes_of payload)) in
      let size : length hash ≡ 64 = length-hex_sha256 (bytes_of payload) in
      let headers : Bytes = header_lines (request_headers h now cfg hash) in
      let scope : Bytes = join 47 (scope_texts h now cfg) in
      let request : Bytes =
        method ++ 10 ∷ (path ++ 10 ∷ (10 ∷ (headers ++ 10 ∷ (signed_headers ++ 10 ∷ hash)))) in
      let scope_fits : length scope < 128 =
        subst (λ t. length t < 128) scope_lem
          (unfold credential_scope in length-copy 128 _ (omega arith)) in
      let headers_fit : length headers < 1024 =
        subst (λ t. length t < 1024) (headers_lem hash size host)
          (unfold canonical_headers in length-copy 1024 _ (omega arith)) in
      rw
        (
          payload_hash_lem payload,
          headers_lem hash size host,
          request_lem method path headers hash hm hp headers_fit size,
          scope_lem,
          string_lem scope (hex (h.sha256 request)) scope_fits (length-hex_sha256 request),
          key_lem fits.secret_fits,
          authorization_lem scope (signature h now cfg method path hash) fits.access_key_fits
              scope_fits (length-hex_hmac _ _),
        )
        refl

  -- sign_request computes the headers that AWS Signature V4 defines: no text is cut at its buffer, for
  -- a configuration that fits its arrays, a host of less than 256 bytes, a method of less than 16 and
  -- a path of less than 512, and the path needs no encoding: it has letters, digits, slashes and the
  -- bytes - . _ ~ only.
  pub sign_request-reference :
      (method path : Bytes) (payload : Option Bytes)
      → Fits cfg
      → length (host_part cfg.endpoint) < 256
      → length method < 16
      → length path < 512
      → is_plain path ≡ true
      → sign_request h now cfg method path payload
        ≡ reference h now cfg method path (bytes_of payload)
  unfolding reference
  sign_request-reference method path payload fits host hm hp plain =
      sign_request_lem method path payload fits host hm hp
      ∙ sym
          (ap (λ p. with_path h now cfg method p (bytes_of payload)) (uri_encode_plain path plain))

  pub auth_short :
      (method path : Bytes) (payload : Option Bytes)
      → length (sign_request h now cfg method path payload).auth < 512
  unfolding sign_request authorization
  auth_short method path payload = length-copy 512 _ (omega arith)

  pub sha_length :
      (method path payload : Bytes) → length (with_path h now cfg method path payload).sha256 ≡ 64
  unfolding with_path
  sha_length method path payload = length-hex_sha256 payload

  pub date_length :
      (method path payload : Bytes) → length (with_path h now cfg method path payload).date ≡ 16
  unfolding with_path
  date_length method path payload = now.length-datetime
