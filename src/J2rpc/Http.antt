-- ===== src/J2rpc/Http.antt =====
-- The part of net/http that the server uses, and the checks on a request in j2rpc/functions.go.
pub mod Validate
use gof.Base.{
  ℕ, ◌*◌, Bool, false, ◌||◌, Option, none, some, List, [], ◌∷◌, ◌++◌, ltb, if◌then◌else◌, length,
  any, Text, codes, text_eq,
}
use gof.Base.Dict.{Dict, get, put}
use gof.Base.Int.{ℤ, pos, ltb_int}
use gof.Base.Decimal.{int_text}
use gof.J2rpc.Error.{GoError, other}

-- what goes out on the wire, in order
pub data Sent : Type 0 where
  status : ℕ → Sent
  body : Text → Sent

pub record Writer : Type 0 where
  pub header : Dict Text
  pub sent : List Sent

-- the parts of `http.Request` that are read; `content_type` is that header's value
pub record Request : Type 0 where
  pub method : Text
  pub content_length : ℤ
  pub raw_query : Text
  pub content_type : Text
  pub body : Text
  pub body_broken : Bool

-- `w.Header().Get(key)`: the empty text if it is not set
unfoldable pub header_get : Text → Writer → Text
header_get key w = elim (get key w.header) [ none ↦ [] | some v ↦ v ]

unfoldable pub header_set : Text → Text → Writer → Writer
header_set key value w = record w { header = put key value w.header }

unfoldable pub send : Sent → Writer → Writer
send s w = record w { sent = w.sent ++ s ∷ [] }

abbrev pub status_written : Text
status_written = codes "Status-Written"

-- `AbortWriteHeader`
unfoldable pub abort_write_header : ℕ → Writer → Writer
unfolding send header_set
abort_write_header code w = header_set status_written (codes "1") (send (status code) w)

-- `len(w.Header().Get("Status-Written")) != 0`
unfoldable pub is_written : Writer → Bool
unfolding header_get
is_written w = ltb 0 (length (header_get status_written w))

-- `writeError`
unfoldable pub write_error : ℕ → Text → Writer → Writer
unfolding abort_write_header
write_error code message w = send (body message) (
    abort_write_header code
      (header_set (codes "Content-Type") (codes "text/plain; charset=utf-8") w))

-- `http.Error` of the standard library
unfoldable pub http_error : Text → ℕ → Writer → Writer
unfolding send header_set
http_error message code w = send (body (message ++ 10 ∷ [])) (
    send (status code) (
      header_set (codes "X-Content-Type-Options") (codes "nosniff")
        (header_set (codes "Content-Type") (codes "text/plain; charset=utf-8") w)))

abbrev pub max_request_content_length : ℕ
max_request_content_length = 1024 * 1024 * 5

abbrev pub content_type_json : Text
content_type_json = codes "application/json"

abbrev pub accepted_content_types : List Text
accepted_content_types =
    content_type_json ∷ codes "application/json-rpc" ∷ codes "application/jsonrequest" ∷ []

-- `mime.ParseMediaType` is the argument: the media type, or nothing on an error
unfoldable pub accepts : (Text → Option Text) → Text → Bool
accepts parse_media_type header = elim (parse_media_type header) [
  | none ↦ false
  | some mt ↦ any (λ a. text_eq a mt) accepted_content_types
]

-- `validateRequest`: the status and the error, or nothing if the request may go on
unfoldable pub validate_request : (Text → Option Text) → Request → Option (ℕ × GoError)
unfolding accepts
validate_request parse_media_type r =
    if text_eq r.method (codes "PUT") || text_eq r.method (codes "DELETE")
    then some (405, other (codes "method not allowed"))
    else if ltb_int (pos max_request_content_length) r.content_length
    then some (
      413,
      other (
          codes "content length too large ("
          ++ int_text r.content_length
          ++ codes ">"
          ++ int_text (pos max_request_content_length)
          ++ codes ")"),
    )
    else if text_eq r.method (codes "OPTIONS")
    then none
    else if accepts parse_media_type r.content_type
    then none
    else some (415, other (codes "invalid content type, only application/json is supported"))
