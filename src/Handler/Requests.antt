-- ===== src/Handler/Requests.antt =====
-- Requests by URL to `ApiRequestHandler` (src/request_handler_api.cc) one after the other, over any
-- store that keeps its contract.
use ucla_bathroom_ratings.Base.{
  All, Bytes, codes, ℕ, suc, ◌+◌, ◌<◌, ◌≡◌, ap, ◌∙◌, Bool, true, Option, List, [], ◌∷◌, ◌++◌, arith,
}
use ucla_bathroom_ratings.Base.Int.{ℤ, pos}
use ucla_bathroom_ratings.Base.Decimal.{to_decimal, int_to_string, decimal_loop-All}
use ucla_bathroom_ratings.Http.Message.{Request, Response}
use ucla_bathroom_ratings.Store.Interface.{EntityStore}
use ucla_bathroom_ratings.Store.Validation.{is_valid_entity_name}
use ucla_bathroom_ratings.Store.Contract.{Contract}
use ucla_bathroom_ratings.Store.Identifiers.{
  decimal_loop-ne-nil, IsPlainByte, is_valid_entity_name-IsPlainByte,
}
use ucla_bathroom_ratings.Handler.Api.{json, extract_segments, json_id, handle_request}
use ucla_bathroom_ratings.Handler.Crud.{entity_missing, respond_segments}
use ucla_bathroom_ratings.Handler.Segments.{
  IsSegmentByte, IsSegment, IsPlainPrefix, join, extract_segments-join,
}
use ucla_bathroom_ratings.Http.ResponseBuilder.{ok}
use ucla_bathroom_ratings.Handler.RoundTrip.{post-get, put-get, delete-get}

-- "/Entity" and "/Entity/{id}" behind the prefix.
abbrev pub entity_url : Bytes → Bytes → Bytes
entity_url prefix e = prefix ++ join (e ∷ [])

abbrev pub object_url : Bytes → Bytes → ℕ → Bytes
object_url prefix e n = prefix ++ join (e ∷ int_to_string (pos n) ∷ [])

plain_bytes : (s : Bytes) → All IsPlainByte s → All IsSegmentByte s
plain_bytes [] h = tt
plain_bytes (c ∷ s) ((a, b, d, e, g), hs) = ((a, d), plain_bytes s hs)

pub name-IsSegment : (e : Bytes) → is_valid_entity_name e ≡ true → IsSegment e
name-IsSegment e h =
    let (n, plain_name) = is_valid_entity_name-IsPlainByte e h in (n, plain_bytes e plain_name)

digit-IsSegmentByte : (d : ℕ) → d < 10 → IsSegmentByte (b'0' + d)
digit-IsSegmentByte d h = ((λ e. omega arith), (λ e. omega arith))

pub number-IsSegment : (n : ℕ) → IsSegment (int_to_string (pos n))
unfolding int_to_string to_decimal
number-IsSegment n = (
  decimal_loop-ne-nil (suc n) n (omega arith),
  decimal_loop-All IsSegmentByte digit-IsSegmentByte (suc n) n,
)

module _ {S : Type 0} (is_valid_json : Bytes → Bool) (store : EntityStore S) where
  abbrev pub answer_to : Bytes → S → Request → S × Response
  answer_to prefix = handle_request is_valid_json store prefix

module _ {S : Type 0} (is_valid_json : Bytes → Bool) (store : EntityStore S) {Holds : S → Type 0}
    {HasRoom : S → Bytes → Type 0} {view_of : S → Bytes → ℤ → Option Bytes}
    (laws : Contract store Holds HasRoom view_of) (prefix : Bytes)
    (plain_prefix : IsPlainPrefix prefix) where
  at_url :
      (s : S) (r : Request) (ss : List Bytes)
      → r.url ≡ prefix ++ join ss
      → All IsSegment ss
      → answer_to is_valid_json store prefix s r ≡ respond_segments is_valid_json store s ss r
  unfolding handle_request
  at_url s r ss u h =
      ap (λ (x : List Bytes). respond_segments is_valid_json store s x r)
        (ap (extract_segments prefix) u ∙ (extract_segments-join prefix ss [] plain_prefix h).0)

  pub at_entity :
      (s : S) (r : Request) (e : Bytes)
      → is_valid_entity_name e ≡ true
      → r.url ≡ entity_url prefix e
      → answer_to is_valid_json store prefix s r ≡ respond_segments is_valid_json store s (e ∷ []) r
  at_entity s r e valid u = at_url s r (e ∷ []) u (name-IsSegment e valid, tt)

  pub at_object :
      (s : S) (r : Request) (e : Bytes) (n : ℕ)
      → is_valid_entity_name e ≡ true
      → r.url ≡ object_url prefix e n
      → answer_to is_valid_json store prefix s r
        ≡ respond_segments is_valid_json store s (e ∷ int_to_string (pos n) ∷ []) r
  at_object s r e n valid u =
      at_url s r (e ∷ int_to_string (pos n) ∷ []) u
        (name-IsSegment e valid, (number-IsSegment n, tt))

  -- Over any store that keeps `Contract`, in a state that its invariant holds of and that has
  -- room in the entity: a POST of valid JSON to the URL of an entity, for which the store gives
  -- an identifier `n`, answers with that identifier, and a GET of its URL then answers with the
  -- posted body. The entity's name is valid; the prefix is not empty and has no question mark.
  pub handle_request-post-get :
      (s : S) (e : Bytes) (n : ℕ) (post get : Request)
      → Holds s
      → HasRoom s e
      → is_valid_entity_name e ≡ true
      → post.method ≡ codes "POST"
      → post.url ≡ entity_url prefix e
      → get.method ≡ codes "GET"
      → get.url ≡ object_url prefix e n
      → is_valid_json post.body ≡ true
      → (store.create s e post.body).1 ≡ pos n
      → ((answer_to is_valid_json store prefix s post).1 ≡ ok (json_id (pos n)) json)
        × ((answer_to is_valid_json store prefix
              (answer_to is_valid_json store prefix s post).0
              get).1
            ≡ ok post.body json)
  handle_request-post-get s e n post get holds room valid mp up mg ug good made =
      rw (at_entity s post e valid up, at_object _ get e n valid ug)
        (post-get is_valid_json store laws s e n post get holds room valid mp mg good made)

  -- Over any store that keeps `Contract`, in a state that its invariant holds of: a PUT of valid
  -- JSON to the URL of an object, which the store accepts, is answered with the identifier, and a
  -- GET of that URL then answers with the new body. The identifier is below 2^31. The entity's
  -- name is valid; the prefix is not empty and has no question mark.
  pub handle_request-put-get :
      (s : S) (e : Bytes) (n : ℕ) (replace get : Request)
      → Holds s
      → is_valid_entity_name e ≡ true
      → replace.method ≡ codes "PUT"
      → replace.url ≡ object_url prefix e n
      → get.method ≡ codes "GET"
      → get.url ≡ object_url prefix e n
      → is_valid_json replace.body ≡ true
      → (store.update s e (pos n) replace.body).1 ≡ true
      → n < 2147483648
      → ((answer_to is_valid_json store prefix s replace).1 ≡ ok (json_id (pos n)) json)
        × ((answer_to is_valid_json store prefix
              (answer_to is_valid_json store prefix s replace).0
              get).1
            ≡ ok replace.body json)
  handle_request-put-get s e n replace get holds valid mp up mg ug good done small =
      rw (at_object s replace e n valid up, at_object _ get e n valid ug)
        (put-get is_valid_json store laws s e n replace get holds valid mp mg good done small)

  -- Over any store that keeps `Contract`, in a state that its invariant holds of: a DELETE of the
  -- URL of an object, which the store carries out, is answered as done, and a GET of that URL then
  -- answers that the entity is not found. The identifier is below 2^31. The entity's name is
  -- valid; the prefix is not empty and has no question mark.
  pub handle_request-delete-get :
      (s : S) (e : Bytes) (n : ℕ) (remove get : Request)
      → Holds s
      → is_valid_entity_name e ≡ true
      → remove.method ≡ codes "DELETE"
      → remove.url ≡ object_url prefix e n
      → get.method ≡ codes "GET"
      → get.url ≡ object_url prefix e n
      → (store.delete s e (pos n)).1 ≡ true
      → n < 2147483648
      → ((answer_to is_valid_json store prefix s remove).1 ≡ ok (codes "{\"deleted\":true}") json)
        × ((answer_to is_valid_json store prefix
              (answer_to is_valid_json store prefix s remove).0
              get).1
            ≡ entity_missing)
  handle_request-delete-get s e n remove get holds valid mp up mg ug done small =
      rw (at_object s remove e n valid up, at_object _ get e n valid ug)
        (delete-get is_valid_json store laws s e n remove get holds valid mp mg done small)
