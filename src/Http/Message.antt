-- ===== src/Http/Message.antt =====
-- `struct request` and `struct response` (include/request_handler.h).
use ucla_bathroom_ratings.Base.{Bytes, Bool, List}

pub record Request : Type 0 where
  pub is_valid : Bool
  pub raw_request : Bytes
  pub method : Bytes
  pub url : Bytes
  pub http_version : Bytes
  pub headers : List Bytes
  pub body : Bytes

pub record Response : Type 0 where
  pub http_version : Bytes
  pub status_code : Bytes
  pub content_type : Bytes
  pub content_length : Bytes
  pub headers : List Bytes
  pub body : Bytes
