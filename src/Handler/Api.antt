-- ===== src/Handler/Api.antt =====
-- `ApiRequestHandler` (src/request_handler_api.cc), over a store's interface. What Boost.JSON says
-- of a body is the parameter `is_valid_json`.
use ucla_bathroom_ratings.Base.{
  ◌==◌, if◌then◌else◌, length, is_empty, take, drop, Bytes, codes, same, starts_with, find,
  trim_front, trim_back, get_lines, ℕ, Bool, true, false, not, ◌&&◌, Option, none, some, List, [],
  ◌∷◌, ◌++◌,
}
use ucla_bathroom_ratings.Base.Int.{ℤ, is_negative}
use ucla_bathroom_ratings.Base.Sort.{sort}
use ucla_bathroom_ratings.Base.Decimal.{int_to_string}
use ucla_bathroom_ratings.Http.Message.{Request, Response}
use ucla_bathroom_ratings.Http.ResponseBuilder.{
  ok, not_found, bad_request, internal_server_error, method_not_allowed,
}
use ucla_bathroom_ratings.Store.Interface.{EntityStore}
use ucla_bathroom_ratings.Store.Validation.{is_valid_entity_name, parse_id}

abbrev pub json : Bytes
json = codes "application/json"

-- `path.substr(0, path.find('?'))`.
unfoldable pub cut_query : Bytes → Bytes
cut_query path = elim (find (codes "?") path) [ none ↦ path | some n ↦ take n path ]

-- `path.size() == prefix_len`, or `path[prefix_len] == '/'`, for the rest behind the prefix.
abbrev pub at_boundary : Bytes → Bool
at_boundary [] = true
at_boundary (c ∷ s) = c == b'/'

unfoldable pub strip_prefix : Bytes → Bytes → Bytes
strip_prefix prefix path =
    if not (is_empty prefix) && starts_with prefix path && at_boundary (drop (length prefix) path)
    then drop (length prefix) path
    else path

abbrev pub is_slash : ℕ → Bool
is_slash c = c == b'/'

-- The loop over the parts between slashes.
unfoldable pub keep_nonempty : List Bytes → List Bytes
keep_nonempty [] = []
keep_nonempty (s ∷ ss) = if not (is_empty s) then s ∷ keep_nonempty ss else keep_nonempty ss

unfoldable pub extract_segments : Bytes → Bytes → List Bytes
unfolding cut_query strip_prefix keep_nonempty
extract_segments prefix raw_url = keep_nonempty (
    get_lines b'/'
      (trim_back is_slash (trim_front is_slash (strip_prefix prefix (cut_query raw_url)))))

unfoldable pub json_id : ℤ → Bytes
json_id id = codes "{\"id\":" ++ (int_to_string id ++ codes "}")

-- The loop that writes the identifiers; the flag is `i != 0`.
unfoldable pub json_ids : Bool → List ℤ → Bytes
json_ids later [] = codes "]"
json_ids later (id ∷ ids) =
    (if later then codes "," else []) ++ (int_to_string id ++ json_ids true ids)

unfoldable pub json_list : List ℤ → Bytes
unfolding json_ids
json_list ids = codes "[" ++ json_ids false ids

module _ {S : Type 0} (is_valid_json : Bytes → Bool) (store : EntityStore S) where
  unfoldable pub handle_post : S → Bytes → Bytes → S × Response
  handle_post s entity body =
      let (s', id) = store.create s entity body in
      if not (is_valid_json body)
      then (s, bad_request (codes "Body is not valid JSON"))
      else if is_negative id
      then (s', internal_server_error (codes "Failed to create entity"))
      else (s', ok (json_id id) json)

  unfoldable pub respond_read : S × Option Bytes → S × Response
  respond_read (s, none) = (s, not_found (codes "Entity not found"))
  respond_read (s, some found) = (s, ok found json)

  unfoldable pub get_one : S → Bytes → Option ℤ → S × Response
  unfolding respond_read
  get_one s entity none = (s, bad_request (codes "Invalid ID"))
  get_one s entity (some id) = respond_read (store.read s entity id)

  -- `segments[1]` is there: the list of segments has at least one, and not exactly one.
  unfoldable pub handle_get : S → Bytes → List Bytes → S × Response
  unfolding get_one
  handle_get s entity (e ∷ segment ∷ segments) = get_one s entity (parse_id segment)
  handle_get s entity _ =
      let (s', ids) = store.list s entity in (s', ok (json_list (sort ids)) json)

  unfoldable pub handle_put : S → Bytes → ℤ → Bytes → S × Response
  handle_put s entity id body =
      let (s', good) = store.update s entity id body in
      if not (is_valid_json body)
      then (s, bad_request (codes "Body is not valid JSON"))
      else if not good
      then (s', internal_server_error (codes "Failed to update entity"))
      else (s', ok (json_id id) json)

  unfoldable pub handle_delete : S → Bytes → ℤ → S × Response
  handle_delete s entity id =
      let (s', good) = store.delete s entity id in
      if not good
      then (s', not_found (codes "Entity not found"))
      else (s', ok (codes "{\"deleted\":true}") json)

  -- `PUT` and `DELETE` want a second segment that is an identifier, and no third.
  unfoldable pub with_id : S → Bytes → List Bytes → (ℤ → S × Response) → S × Response
  with_id s message (e ∷ segment ∷ []) go = elim (parse_id segment) [
    | none ↦ (s, bad_request (codes "Invalid ID"))
    | some id ↦ go id
  ]
  with_id s message _ go = (s, bad_request message)

  unfoldable pub post_alone : S → Bytes → List Bytes → Bytes → S × Response
  post_alone s entity (e ∷ []) body = handle_post s entity body
  post_alone s entity _ body = (s, bad_request (codes "POST target must be /Entity"))

  -- The switch on the method.
  unfoldable pub dispatch_method : S → Bytes → List Bytes → Request → S × Response
  unfolding post_alone with_id
  dispatch_method s entity segments r =
      if same r.method (codes "POST")
      then post_alone s entity segments r.body
      else if same r.method (codes "GET")
      then handle_get s entity segments
      else if same r.method (codes "PUT")
      then with_id s (codes "PUT target must be /Entity/{id}") segments
          (λ id. handle_put s entity id r.body)
      else if same r.method (codes "DELETE")
      then with_id s (codes "DELETE target must be /Entity/{id}") segments
          (λ id. handle_delete s entity id)
      else (s, method_not_allowed (codes "Unsupported method"))

  unfoldable pub handle_segments : S → List Bytes → Request → S × Response
  handle_segments s [] r = (s, bad_request (codes "Entity type required"))
  handle_segments s (entity ∷ segments) r =
      if not (is_valid_entity_name entity)
      then (s, bad_request (codes "Invalid entity name"))
      else dispatch_method s entity (entity ∷ segments) r

  -- The constructor refuses a null store, so the store is there.
  unfoldable pub handle_request : Bytes → S → Request → S × Response
  unfolding handle_segments
  handle_request prefix s r = handle_segments s (extract_segments prefix r.url) r
