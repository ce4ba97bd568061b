-- ===== src/Handler/Crud.antt =====
-- The methods of `ApiRequestHandler` (src/request_handler_api.cc), over any store.
use ucla_bathroom_ratings.Base.{
  Bytes, codes, same, ◌≡◌, refl, ap, ◌∙◌, Bool, true, false, some, List, [], ◌∷◌,
}
use ucla_bathroom_ratings.Base.Int.{ℤ}
use ucla_bathroom_ratings.Http.Message.{Request, Response}
use ucla_bathroom_ratings.Http.ResponseBuilder.{not_found, bad_request}
use ucla_bathroom_ratings.Store.Interface.{EntityStore}
use ucla_bathroom_ratings.Store.Validation.{is_valid_entity_name, parse_id}
use ucla_bathroom_ratings.Handler.Api.{
  handle_post, respond_read, get_one, handle_get, handle_put, handle_delete, with_id, post_alone,
  dispatch_method, handle_segments,
}

abbrev pub invalid_json : Response
invalid_json = bad_request (codes "Body is not valid JSON")

abbrev pub entity_missing : Response
entity_missing = not_found (codes "Entity not found")

-- The method of a request, compared with a literal.
pub method_is : {m : Bytes} (n k : Bytes) (b : Bool) → same n k ≡ b → m ≡ n → same m k ≡ b
method_is n k b h e = ap (λ (x : Bytes). same x k) e ∙ h

module _ {S : Type 0} (is_valid_json : Bytes → Bool) (store : EntityStore S) where
  abbrev pub respond_segments : S → List Bytes → Request → S × Response
  respond_segments = handle_segments is_valid_json store

  pub valid_segments :
      (s : S) (e : Bytes) (segments : List Bytes) (r : Request)
      → is_valid_entity_name e ≡ true
      → respond_segments s (e ∷ segments) r
        ≡ dispatch_method is_valid_json store s e (e ∷ segments) r
  unfolding handle_segments
  valid_segments s e segments r valid = rw valid

  -- The four methods.
  by_post :
      (s : S) (e : Bytes) (segments : List Bytes) (r : Request)
      → r.method ≡ codes "POST"
      → dispatch_method is_valid_json store s e segments r
        ≡ post_alone is_valid_json store s e segments r.body
  unfolding dispatch_method same
  by_post s e segments r m = rw (method_is (codes "POST") (codes "POST") true refl m)

  pub by_get :
      (s : S) (e : Bytes) (segments : List Bytes) (r : Request)
      → r.method ≡ codes "GET"
      → dispatch_method is_valid_json store s e segments r
        ≡ handle_get is_valid_json store s e segments
  unfolding dispatch_method same
  by_get s e segments r m = rw (
    method_is (codes "GET") (codes "POST") false refl m,
    method_is (codes "GET") (codes "GET") true refl m,
  )

  by_put :
      (s : S) (e : Bytes) (segments : List Bytes) (r : Request)
      → r.method ≡ codes "PUT"
      → dispatch_method is_valid_json store s e segments r
        ≡ with_id is_valid_json store s
            (codes "PUT target must be /Entity/{id}")
            segments
            (λ id. handle_put is_valid_json store s e id r.body)
  unfolding dispatch_method same
  by_put s e segments r m = rw (
    method_is (codes "PUT") (codes "POST") false refl m,
    method_is (codes "PUT") (codes "GET") false refl m,
    method_is (codes "PUT") (codes "PUT") true refl m,
  )

  by_delete :
      (s : S) (e : Bytes) (segments : List Bytes) (r : Request)
      → r.method ≡ codes "DELETE"
      → dispatch_method is_valid_json store s e segments r
        ≡ with_id is_valid_json store s
            (codes "DELETE target must be /Entity/{id}")
            segments
            (λ id. handle_delete is_valid_json store s e id)
  unfolding dispatch_method same
  by_delete s e segments r m = rw (
    method_is (codes "DELETE") (codes "POST") false refl m,
    method_is (codes "DELETE") (codes "GET") false refl m,
    method_is (codes "DELETE") (codes "PUT") false refl m,
    method_is (codes "DELETE") (codes "DELETE") true refl m,
  )

  get_found :
      (s : S) (e segment : Bytes) (id : ℤ)
      → parse_id segment ≡ some id
      → handle_get is_valid_json store s e (e ∷ segment ∷ [])
        ≡ respond_read is_valid_json store (store.read s e id)
  unfolding handle_get
  get_found s e segment id p = rw (p, get_one)

  with_id_found :
      (s : S) (e segment : Bytes) (id : ℤ) (message : Bytes) (go : ℤ → S × Response)
      → parse_id segment ≡ some id
      → with_id is_valid_json store s message (e ∷ segment ∷ []) go ≡ go id
  unfolding with_id
  with_id_found s e segment id message go p = rw (p, with_id)

  pub get_segments :
      (s : S) (e : Bytes) (id : ℤ) (segment : Bytes) (r : Request)
      → is_valid_entity_name e ≡ true
      → r.method ≡ codes "GET"
      → parse_id segment ≡ some id
      → respond_segments s (e ∷ segment ∷ []) r
        ≡ respond_read is_valid_json store (store.read s e id)
  get_segments s e id segment r valid m p =
      valid_segments s e (segment ∷ []) r valid
      ∙ by_get s e (e ∷ segment ∷ []) r m
      ∙ get_found s e segment id p

  pub post_segments :
      (s : S) (e : Bytes) (r : Request)
      → is_valid_entity_name e ≡ true
      → r.method ≡ codes "POST"
      → respond_segments s (e ∷ []) r ≡ handle_post is_valid_json store s e r.body
  unfolding post_alone
  post_segments s e r valid m = valid_segments s e [] r valid ∙ by_post s e (e ∷ []) r m

  pub put_segments :
      (s : S) (e : Bytes) (id : ℤ) (segment : Bytes) (r : Request)
      → is_valid_entity_name e ≡ true
      → r.method ≡ codes "PUT"
      → parse_id segment ≡ some id
      → respond_segments s (e ∷ segment ∷ []) r ≡ handle_put is_valid_json store s e id r.body
  put_segments s e id segment r valid m p =
      valid_segments s e (segment ∷ []) r valid
      ∙ by_put s e (e ∷ segment ∷ []) r m
      ∙ with_id_found s e segment id _ _ p

  pub delete_segments :
      (s : S) (e : Bytes) (id : ℤ) (segment : Bytes) (r : Request)
      → is_valid_entity_name e ≡ true
      → r.method ≡ codes "DELETE"
      → parse_id segment ≡ some id
      → respond_segments s (e ∷ segment ∷ []) r ≡ handle_delete is_valid_json store s e id
  delete_segments s e id segment r valid m p =
      valid_segments s e (segment ∷ []) r valid
      ∙ by_delete s e (e ∷ segment ∷ []) r m
      ∙ with_id_found s e segment id _ _ p
