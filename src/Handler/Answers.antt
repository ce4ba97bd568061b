-- ===== src/Handler/Answers.antt =====
-- What every handler answers with: a response that `ResponseBuilder` (src/response_builder.cc)
-- makes of a status and a content type of one line each.
use ucla_bathroom_ratings.Base.{
  ◌==◌, if◌then◌else◌, Option-cases, all, Bytes, codes, ◌≡◌, refl, inl, inr, Bool, true, false, not,
  Option, none, some, List, [], ◌∷◌, arith,
}
use ucla_bathroom_ratings.Http.Message.{Request, Response}
use ucla_bathroom_ratings.Http.ResponseBuilder.{
  format_response, plain, ok, not_found, bad_request, internal_server_error, method_not_allowed,
}
use ucla_bathroom_ratings.Http.Serialized.{IsOneLine, one_line}
use ucla_bathroom_ratings.Store.Interface.{EntityStore}
use ucla_bathroom_ratings.Handler.Api.{
  json, extract_segments, handle_post, respond_read, get_one, handle_get, handle_put, handle_delete,
  with_id, post_alone, dispatch_method, handle_segments, handle_request,
}
use ucla_bathroom_ratings.Base.Int.{ℤ}
use ucla_bathroom_ratings.Store.Validation.{parse_id}
use ucla_bathroom_ratings.Handler.File
use ucla_bathroom_ratings.Handler.File.{
  FileSystem, relative_path, read_file, get_content_type, missing, serve, serve_canonical,
  canonicalize, handle_path, returned,
}

pub record IsBuilt (a : Response) : Type 0 where
  pub built : a ≡ format_response a.status_code a.content_type a.body
  pub status_one_line : IsOneLine a.status_code
  pub type_one_line : IsOneLine a.content_type

abbrev has_no_return : Bytes → Bool
has_no_return = all (λ c. not (c == b'\r'))

pub format_response-IsBuilt :
    (status content_type body : Bytes)
    → has_no_return status ≡ true
    → has_no_return content_type ≡ true
    → IsBuilt (format_response status content_type body)
unfolding format_response
format_response-IsBuilt status content_type body h k = record {
  built = refl;
  status_one_line = one_line status h;
  type_one_line = one_line content_type k;
}

pub either_IsBuilt :
    (b : Bool) (x y : Response) → IsBuilt x → IsBuilt y → IsBuilt (if b then x else y)
either_IsBuilt true x y h k = h
either_IsBuilt false x y h k = k

module _ {S : Type 0} (is_valid_json : Bytes → Bool) (store : EntityStore S) where
  -- A result of the API handler whose response is built.
  pub record IsGood (x : S × Response) : Type 0 where
    pub response_built : IsBuilt x.1

  either : (b : Bool) (x y : S × Response) → IsGood x → IsGood y → IsGood (if b then x else y)
  either true x y h k = h
  either false x y h k = k

  bad : (s : S) (message : Bytes) → IsGood (s, bad_request message)
  bad s message = record {
    response_built = format_response-IsBuilt (codes "400 Bad Request") plain message refl refl;
  }

  good : (s : S) (body : Bytes) → IsGood (s, ok body json)
  good s body = record {
    response_built = format_response-IsBuilt (codes "200 OK") json body refl refl;
  }

  broken : (s : S) (message : Bytes) → IsGood (s, internal_server_error message)
  broken s message = record {
    response_built =
        format_response-IsBuilt (codes "500 Internal Server Error") plain message refl refl;
  }

  absent : (s : S) (message : Bytes) → IsGood (s, not_found message)
  absent s message = record {
    response_built = format_response-IsBuilt (codes "404 Not Found") plain message refl refl;
  }

  unsupported : (s : S) (message : Bytes) → IsGood (s, method_not_allowed message)
  unsupported s message = record {
    response_built =
        format_response-IsBuilt (codes "405 Method Not Allowed") plain message refl refl;
  }

  ruleset good_responses = (either, bad, good, broken, absent, unsupported)

  handle_post-IsGood : (s : S) (e body : Bytes) → IsGood (handle_post is_valid_json store s e body)
  unfolding handle_post
  handle_post-IsGood s e body = search good_responses

  respond_read-IsGood : (x : S × Option Bytes) → IsGood (respond_read is_valid_json store x)
  unfolding respond_read
  respond_read-IsGood (s, none) = search good_responses
  respond_read-IsGood (s, some found) = search good_responses

  get_one-IsGood : (s : S) (e : Bytes) (id : Option ℤ) → IsGood (get_one is_valid_json store s e id)
  unfolding get_one
  get_one-IsGood s e none = search good_responses
  get_one-IsGood s e (some id) = respond_read-IsGood (store.read s e id)

  handle_get-IsGood :
      (s : S) (e : Bytes) (segments : List Bytes)
      → IsGood (handle_get is_valid_json store s e segments)
  unfolding handle_get
  handle_get-IsGood s e [] = search good_responses
  handle_get-IsGood s e (a ∷ []) = search good_responses
  handle_get-IsGood s e (a ∷ segment ∷ segments) = get_one-IsGood s e (parse_id segment)

  handle_put-IsGood :
      (s : S) (e : Bytes) (id : ℤ) (body : Bytes)
      → IsGood (handle_put is_valid_json store s e id body)
  unfolding handle_put
  handle_put-IsGood s e id body = search good_responses

  handle_delete-IsGood :
      (s : S) (e : Bytes) (id : ℤ) → IsGood (handle_delete is_valid_json store s e id)
  unfolding handle_delete
  handle_delete-IsGood s e id = search good_responses

  post_alone-IsGood :
      (s : S) (e : Bytes) (segments : List Bytes) (body : Bytes)
      → IsGood (post_alone is_valid_json store s e segments body)
  unfolding post_alone
  post_alone-IsGood s e [] body = search good_responses
  post_alone-IsGood s e (a ∷ []) body = handle_post-IsGood s e body
  post_alone-IsGood s e (a ∷ b ∷ segments) body = search good_responses

  with_id-IsGood :
      (s : S) (message : Bytes) (segments : List Bytes) (go : ℤ → S × Response)
      → ((id : ℤ) → IsGood (go id))
      → IsGood (with_id is_valid_json store s message segments go)
  unfolding with_id
  with_id-IsGood s message [] go h = search good_responses
  with_id-IsGood s message (a ∷ []) go h = search good_responses
  with_id-IsGood s message (a ∷ segment ∷ []) go h = elim (Option-cases (parse_id segment)) [
    | inl missing ↦ rw (missing, with_id) (search good_responses)
    | inr (id, found) ↦ rw (found, with_id) (h id)
  ]
  with_id-IsGood s message (a ∷ segment ∷ b ∷ segments) go h = search good_responses

  dispatch_method-IsGood :
      (s : S) (e : Bytes) (segments : List Bytes) (r : Request)
      → IsGood (dispatch_method is_valid_json store s e segments r)
  unfolding dispatch_method
  dispatch_method-IsGood s e segments r =
      search
        (
          good_responses, post_alone-IsGood, handle_get-IsGood, with_id-IsGood, handle_put-IsGood,
          handle_delete-IsGood,
        )
        depth 12

  segments-IsGood :
      (s : S) (segments : List Bytes) (r : Request)
      → IsGood (handle_segments is_valid_json store s segments r)
  unfolding handle_segments
  segments-IsGood s [] r = search good_responses
  segments-IsGood s (e ∷ segments) r = search (good_responses, dispatch_method-IsGood)

  pub api-IsBuilt :
      (prefix : Bytes) (s : S) (r : Request)
      → IsBuilt (handle_request is_valid_json store prefix s r).1
  unfolding handle_request
  api-IsBuilt prefix s r = (segments-IsGood s (extract_segments prefix r.url) r).response_built

module _ (fs : FileSystem) where
  serve-IsBuilt : (path : Bytes) → IsBuilt (serve fs path)
  unfolding serve get_content_type
  serve-IsBuilt path =
      format_response-IsBuilt (codes "200 OK") (get_content_type fs path) (read_file fs path) refl
        (ground arith)

  missing-IsBuilt : IsBuilt (missing fs)
  missing-IsBuilt =
      format_response-IsBuilt (codes "404 Not Found") plain (codes "404 Not Found") refl refl

  serve_canonical-IsBuilt : (base requested : Bytes) → IsBuilt (serve_canonical fs base requested)
  unfolding serve_canonical
  serve_canonical-IsBuilt base requested =
      search (either_IsBuilt, serve-IsBuilt, missing-IsBuilt, format_response-IsBuilt)

  canonicalize-IsBuilt : (requested base : Option Bytes) → IsBuilt (canonicalize fs requested base)
  unfolding canonicalize
  canonicalize-IsBuilt (some requested) (some base) = serve_canonical-IsBuilt base requested
  canonicalize-IsBuilt (some requested) none = missing-IsBuilt
  canonicalize-IsBuilt none base = missing-IsBuilt

  pub file-IsBuilt :
      (base_dir prefix : Bytes) (r : Request)
      → IsBuilt (returned fs (File.handle_request fs base_dir prefix r))
  unfolding File.handle_request File.handle_path
  file-IsBuilt base_dir prefix r =
      elim (Option-cases (fs.exists (fs.join base_dir (relative_path prefix r.url)))) [
        | inl throws ↦ rw (throws, File.handle_path) missing-IsBuilt
        | inr (true, there) ↦ rw (there, File.handle_path) (canonicalize-IsBuilt _ _)
        | inr (false, gone) ↦ rw (gone, File.handle_path) missing-IsBuilt
      ]
