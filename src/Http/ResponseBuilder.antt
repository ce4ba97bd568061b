-- ===== src/Http/ResponseBuilder.antt =====
-- `ResponseBuilder` (src/response_builder.cc), and `SerializeResponse` (src/session.cc).
use ucla_bathroom_ratings.Base.{length, Bytes, codes, Option, none, some, List, [], ◌∷◌, ◌++◌}
use ucla_bathroom_ratings.Base.Decimal.{to_decimal}
use ucla_bathroom_ratings.Http.Message.{Response}

unfoldable pub format_response : Bytes → Bytes → Bytes → Response
format_response status_code content_type body = record {
  http_version = codes "1.1";
  status_code = status_code;
  content_type = content_type;
  content_length = to_decimal (length body);
  headers =
      (codes "Content-Type: " ++ content_type)
      ∷ (codes "Content-Length: " ++ to_decimal (length body))
      ∷ codes "Connection: close"
      ∷ [];
  body = body;
}

abbrev pub build_response : Bytes → Bytes → Bytes → Response
build_response status_code content_type body = format_response status_code content_type body

abbrev pub plain : Bytes
plain = codes "text/plain"

abbrev pub ok : Bytes → Bytes → Response
ok body content_type = format_response (codes "200 OK") content_type body

abbrev pub not_found : Bytes → Response
not_found message = format_response (codes "404 Not Found") plain message

abbrev pub forbidden : Bytes → Response
forbidden message = format_response (codes "403 Forbidden") plain message

abbrev pub bad_request : Bytes → Response
bad_request message = format_response (codes "400 Bad Request") plain message

abbrev pub internal_server_error : Bytes → Response
internal_server_error message = format_response (codes "500 Internal Server Error") plain message

abbrev pub method_not_allowed : Bytes → Response
method_not_allowed message = format_response (codes "405 Method Not Allowed") plain message

-- The loop over the headers.
unfoldable pub serialize_headers : List Bytes → Bytes → Bytes
serialize_headers [] rest = rest
serialize_headers (h ∷ hs) rest = h ++ (codes "\r\n" ++ serialize_headers hs rest)

-- The message of a response object; a null pointer gives that of an internal server error.
unfoldable pub serialize : Response → Bytes
unfolding serialize_headers
serialize r =
    codes "HTTP/1.1 "
    ++ (r.status_code ++ (codes "\r\n" ++ serialize_headers r.headers (codes "\r\n" ++ r.body)))

unfoldable pub serialize_response : Option Response → Bytes
serialize_response none = serialize (internal_server_error (codes "500 Internal Server Error"))
serialize_response (some r) = serialize r
