-- ===== src/Http/Router/Body.antt =====
-- The calls of request_handler for one POST request, put together.
use sshpad.Prelude.{
  true, List, [], ◌∷◌, ◌++◌, ◌≡◌, refl, ◌≢◌, Bytes, All, cat, append-nil, append_assoc,
}
use sshpad.Json.{JsonC}
use sshpad.Text.{c_str}
use sshpad.Config.Fields.{is_empty}
use sshpad.Http.{App, World}
use sshpad.Http.Router.{
  Query, Conn, fresh, posted, Call, fails, goes_on, answers, is_post, route_post, request_handler,
}

-- What the web server does with one request: it calls the handler to begin, with each piece, and at
-- the end, as long as it is told to go on. The end is a call with no data.
abbrev next : Call → (Conn → Call) → Call
next (goes_on conn) f = f conn
next (fails conn) f = fails conn
next (answers conn o) f = answers conn o

module _ (c : JsonC) (w : World) (app : App) (q : Query) where
  unfoldable pub feed : List Bytes → Conn → Call
  feed [] conn = request_handler c w app q [] true conn
  feed (piece ∷ pieces) conn = next (request_handler c w app q piece true conn) (feed pieces)

  unfoldable pub serve : List Bytes → Call
  serve pieces = next (request_handler c w app q [] true fresh) (feed pieces)

  feed_lem :
      (so_far : Bytes) (pieces : List Bytes)
      → is_post q ≡ true
      → All (λ piece. piece ≢ []) pieces
      → feed pieces (posted so_far)
        ≡ answers fresh (route_post c w app q.url (c_str (so_far ++ cat pieces)))
  unfolding feed request_handler is_empty
  feed_lem so_far [] post filled = rw (post, append-nil so_far) refl
  feed_lem so_far ([] ∷ pieces) post (ne, filled) = absurd (ne refl)
  feed_lem so_far ((b ∷ piece) ∷ pieces) post (ne, filled) =
      rw
        (
          post,
          feed_lem (so_far ++ (b ∷ piece)) pieces post filled,
          append_assoc so_far (b ∷ piece) (cat pieces),
        )
        refl

  -- However the body of a POST request is cut into pieces, none of them empty, the request is answered
  -- by the handler of its address with the whole body, up to its first NUL, when no allocation fails;
  -- and the connection is left as it was before the request.
  pub serve_lem :
      (pieces : List Bytes)
      → is_post q ≡ true
      → All (λ piece. piece ≢ []) pieces
      → serve pieces ≡ answers fresh (route_post c w app q.url (c_str (cat pieces)))
  unfolding serve request_handler
  serve_lem pieces post filled = rw (post, feed_lem [] pieces post filled) refl
