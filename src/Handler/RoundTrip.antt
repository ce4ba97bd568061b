-- ===== src/Handler/RoundTrip.antt =====
-- Requests to `ApiRequestHandler` (src/request_handler_api.cc) one after the other, over any store
-- that keeps its contract.
use ucla_bathroom_ratings.Base.{
  Bool-cases, Bytes, codes, same_self, ℕ, ◌<◌, ◌≡◌, refl, ap, ◌∙◌, inl, inr, Bool, true, false,
  Option, none, some, List, [], ◌∷◌,
}
use ucla_bathroom_ratings.Base.Int.{ℤ, same_int_self, is_negative, pos}
use ucla_bathroom_ratings.Http.ResponseBuilder.{ok}
use ucla_bathroom_ratings.Store.Interface.{EntityStore}
use ucla_bathroom_ratings.Store.Memory.{put}
use ucla_bathroom_ratings.Handler.Api.{
  json, json_id, handle_post, respond_read, handle_put, handle_delete,
}
use ucla_bathroom_ratings.Handler.Crud.{
  invalid_json, entity_missing, respond_segments, get_segments, post_segments, put_segments,
  delete_segments,
}
use ucla_bathroom_ratings.Base.Decimal.{int_to_string}
use ucla_bathroom_ratings.Http.Message.{Request, Response}
use ucla_bathroom_ratings.Store.Validation.{is_valid_entity_name}
use ucla_bathroom_ratings.Store.Contract.{Contract}
use ucla_bathroom_ratings.Store.Identifiers.{parse_id-int_to_string}

put_same :
    (f : Bytes → ℤ → Option Bytes) (e : Bytes) (id : ℤ) (d : Option Bytes) → put f e id d e id ≡ d
put_same f e id d = rw (same_self e, same_int_self id)

module _ {S : Type 0} (is_valid_json : Bytes → Bool) (store : EntityStore S) where
  post_success :
      (s : S) (e body : Bytes) (n : ℕ)
      → is_valid_json body ≡ true
      → (store.create s e body).1 ≡ pos n
      → handle_post is_valid_json store s e body
        ≡ ((store.create s e body).0, ok (json_id (pos n)) json)
  unfolding handle_post
  post_success s e body n good made = rw (good, made)

  put_success :
      (s : S) (e body : Bytes) (id : ℤ)
      → is_valid_json body ≡ true
      → (store.update s e id body).1 ≡ true
      → handle_put is_valid_json store s e id body
        ≡ ((store.update s e id body).0, ok (json_id id) json)
  unfolding handle_put
  put_success s e body id good done = rw (good, done)

  read_some :
      (s : S) (e : Bytes) (id : ℤ) (d : Bytes)
      → (store.read s e id).1 ≡ some d
      → (respond_read is_valid_json store (store.read s e id)).1 ≡ ok d json
  unfolding respond_read
  read_some s e id d h = rw h

  read_none :
      (s : S) (e : Bytes) (id : ℤ)
      → (store.read s e id).1 ≡ none
      → (respond_read is_valid_json store (store.read s e id)).1 ≡ entity_missing
  unfolding respond_read
  read_none s e id h = rw h

  delete_state :
      (s : S) (e : Bytes) (id : ℤ)
      → (handle_delete is_valid_json store s e id).0 ≡ (store.delete s e id).0
  unfolding handle_delete
  delete_state s e id = elim (Bool-cases (store.delete s e id).1) [ inl h ↦ rw h | inr h ↦ rw h ]

  -- A request whose body is not valid JSON changes nothing, whatever the store: where the path
  -- behind the prefix is a valid entity name, a POST, and where it is that name and an identifier
  -- below 2^31, a PUT, is answered as a bad request, with the state as it was.
  pub bad_json-unchanged :
      (s : S) (e : Bytes) (n : ℕ) (post replace : Request)
      → is_valid_entity_name e ≡ true
      → post.method ≡ codes "POST"
      → replace.method ≡ codes "PUT"
      → is_valid_json post.body ≡ false
      → is_valid_json replace.body ≡ false
      → n < 2147483648
      → (respond_segments is_valid_json store s (e ∷ []) post ≡ (s, invalid_json))
        × (respond_segments is_valid_json store s (e ∷ int_to_string (pos n) ∷ []) replace
            ≡ (s, invalid_json))
  unfolding handle_post handle_put
  bad_json-unchanged s e n post replace valid mp mr bad bad' small = (
    post_segments is_valid_json store s e post valid mp ∙ rw bad refl,
    put_segments is_valid_json store s e (pos n) (int_to_string (pos n)) replace valid mr
          (parse_id-int_to_string n small)
        ∙ rw bad' refl,
  )

module _ {S : Type 0} (is_valid_json : Bytes → Bool) (store : EntityStore S) {Holds : S → Type 0}
    {HasRoom : S → Bytes → Type 0} {view_of : S → Bytes → ℤ → Option Bytes}
    (laws : Contract store Holds HasRoom view_of) where
  abbrev answer : S → List Bytes → Request → S × Response
  answer = respond_segments is_valid_json store

  -- What a GET of one identifier answers.
  pub get_some :
      (s : S) (e : Bytes) (n : ℕ) (get : Request) (d : Bytes)
      → Holds s
      → is_valid_entity_name e ≡ true
      → get.method ≡ codes "GET"
      → n < 2147483648
      → view_of s e (pos n) ≡ some d
      → (answer s (e ∷ int_to_string (pos n) ∷ []) get).1 ≡ ok d json
  get_some s e n get d holds valid m small there =
      ap (λ (x : S × Response). x.1)
        (get_segments is_valid_json store s e (pos n) (int_to_string (pos n)) get valid m
          (parse_id-int_to_string n small))
      ∙ read_some is_valid_json store s e (pos n) d
          ((laws.read_law s e (pos n) e (pos n) holds small).0 ∙ there)

  pub get_none :
      (s : S) (e : Bytes) (n : ℕ) (get : Request)
      → Holds s
      → is_valid_entity_name e ≡ true
      → get.method ≡ codes "GET"
      → n < 2147483648
      → view_of s e (pos n) ≡ none
      → (answer s (e ∷ int_to_string (pos n) ∷ []) get).1 ≡ entity_missing
  get_none s e n get holds valid m small missing =
      ap (λ (x : S × Response). x.1)
        (get_segments is_valid_json store s e (pos n) (int_to_string (pos n)) get valid m
          (parse_id-int_to_string n small))
      ∙ read_none is_valid_json store s e (pos n)
          ((laws.read_law s e (pos n) e (pos n) holds small).0 ∙ missing)

  -- A POST of valid JSON for which the store gives an identifier answers with it, and a GET of it
  -- then answers with the posted body.
  pub post-get :
      (s : S) (e : Bytes) (n : ℕ) (post get : Request)
      → Holds s
      → HasRoom s e
      → is_valid_entity_name e ≡ true
      → post.method ≡ codes "POST"
      → get.method ≡ codes "GET"
      → is_valid_json post.body ≡ true
      → (store.create s e post.body).1 ≡ pos n
      → ((answer s (e ∷ []) post).1 ≡ ok (json_id (pos n)) json)
        × ((answer (answer s (e ∷ []) post).0 (e ∷ int_to_string (pos n) ∷ []) get).1
            ≡ ok post.body json)
  post-get s e n post get holds room valid mp mg good made =
      let (kept, int_id) = laws.create_keeps s e post.body holds room in
      let small : n < 2147483648 = rw made at int_id in
      let posted =
        post_segments is_valid_json store s e post valid mp
        ∙ post_success is_valid_json store s e post.body n good made in
      let law =
        (laws.create_law s e post.body e (pos n) holds room small (ap is_negative made)).1 in
      let stored = rw made at law in
      rw posted (
        refl,
        get_some (store.create s e post.body).0 e n get post.body kept valid mg small
            (stored ∙ put_same (view_of s) e (pos n) (some post.body)),
      )

  -- A PUT of valid JSON that the store accepts is answered with the identifier, and a GET of it
  -- then answers with the new body. The identifier is below 2^31.
  pub put-get :
      (s : S) (e : Bytes) (n : ℕ) (replace get : Request)
      → Holds s
      → is_valid_entity_name e ≡ true
      → replace.method ≡ codes "PUT"
      → get.method ≡ codes "GET"
      → is_valid_json replace.body ≡ true
      → (store.update s e (pos n) replace.body).1 ≡ true
      → n < 2147483648
      → ((answer s (e ∷ int_to_string (pos n) ∷ []) replace).1 ≡ ok (json_id (pos n)) json)
        × ((answer
              (answer s (e ∷ int_to_string (pos n) ∷ []) replace).0
              (e ∷ int_to_string (pos n) ∷ [])
              get).1
            ≡ ok replace.body json)
  put-get s e n replace get holds valid mp mg good done small =
      let replaced =
        put_segments is_valid_json store s e (pos n) (int_to_string (pos n)) replace valid mp
          (parse_id-int_to_string n small)
        ∙ put_success is_valid_json store s e replace.body (pos n) good done in
      let (read, kept, deleted, listed) = laws.keeps s e (pos n) replace.body holds small in
      rw replaced (
        refl,
        get_some (store.update s e (pos n) replace.body).0 e n get replace.body kept valid mg small
            (laws.update_law s e (pos n) replace.body e (pos n) holds small small done
              ∙ put_same (view_of s) e (pos n) (some replace.body)),
      )

  delete_success :
      (s : S) (e : Bytes) (id : ℤ)
      → (store.delete s e id).1 ≡ true
      → handle_delete is_valid_json store s e id
        ≡ ((store.delete s e id).0, ok (codes "{\"deleted\":true}") json)
  unfolding handle_delete
  delete_success s e id done = rw done

  -- A DELETE that the store carries out is answered as done, and a GET of the identifier then
  -- answers that the entity is not found. The identifier is below 2^31.
  pub delete-get :
      (s : S) (e : Bytes) (n : ℕ) (remove get : Request)
      → Holds s
      → is_valid_entity_name e ≡ true
      → remove.method ≡ codes "DELETE"
      → get.method ≡ codes "GET"
      → (store.delete s e (pos n)).1 ≡ true
      → n < 2147483648
      → ((answer s (e ∷ int_to_string (pos n) ∷ []) remove).1
          ≡ ok (codes "{\"deleted\":true}") json)
        × ((answer
              (answer s (e ∷ int_to_string (pos n) ∷ []) remove).0
              (e ∷ int_to_string (pos n) ∷ [])
              get).1
            ≡ entity_missing)
  delete-get s e n remove get holds valid mp mg done small =
      let deleted =
        delete_segments is_valid_json store s e (pos n) (int_to_string (pos n)) remove valid mp
          (parse_id-int_to_string n small)
        ∙ delete_success s e (pos n) done in
      let law = laws.delete_law s e (pos n) e (pos n) holds small small in
      let law' = rw done at law in
      let (read, updated, kept, listed) = laws.keeps s e (pos n) [] holds small in
      rw deleted (
        refl,
        get_none (store.delete s e (pos n)).0 e n get kept valid mg small
            (law' ∙ put_same (view_of s) e (pos n) none),
      )
