-- ===== src/Handler/Calls.antt =====
-- Which call of the store a request to `ApiRequestHandler` (src/request_handler_api.cc) makes.
use ucla_bathroom_ratings.Base.{
  if◌then◌else◌, Bool-cases, Option-cases, is_empty, All, Bytes, codes, same, same_iff, ◌≡◌, refl,
  inl, inr, Bool, true, false, not, none, some, List, [], ◌∷◌, arith,
}
use ucla_bathroom_ratings.Base.Int.{ℤ, IsInt32}
use ucla_bathroom_ratings.Http.Message.{Request}
use ucla_bathroom_ratings.Store.Interface.{EntityStore}
use ucla_bathroom_ratings.Store.Validation.{is_valid_entity_name, parse_id}
use ucla_bathroom_ratings.Store.Identifiers.{parse_id-IsInt32}
use ucla_bathroom_ratings.Store.Calls.{
  StoreCall, call, run_calls, NamesInt32, creates, reads, updates, deletes, lists,
}
use ucla_bathroom_ratings.Handler.Crud.{method_is}
use ucla_bathroom_ratings.Handler.Api.{
  handle_post, respond_read, get_one, handle_get, handle_put, handle_delete, with_id, post_alone,
  dispatch_method, handle_segments,
}

abbrev has_method : Bytes → Request → Bool
has_method m r = same r.method m

module _ (is_valid_json : Bytes → Bool) where
  -- A request about all objects of an entity.
  unfoldable pub entity_calls : Bytes → Request → List StoreCall
  entity_calls e r =
      if has_method (codes "POST") r
      then if is_valid_json r.body then creates e r.body ∷ [] else []
      else if has_method (codes "GET") r
      then lists e ∷ []
      else []

  -- A request about one object; a GET does not look at what stands behind the identifier.
  unfoldable pub object_calls : Bytes → ℤ → List Bytes → Request → List StoreCall
  object_calls e id more r =
      if has_method (codes "POST") r
      then []
      else if has_method (codes "GET") r
      then reads e id ∷ []
      else if not (is_empty more)
      then []
      else if has_method (codes "PUT") r
      then if is_valid_json r.body then updates e id r.body ∷ [] else []
      else if has_method (codes "DELETE") r
      then deletes e id ∷ []
      else []

  -- The calls of the store that the segments of the path and the request lead to: one or none.
  unfoldable pub segments_calls : List Bytes → Request → List StoreCall
  unfolding entity_calls object_calls
  segments_calls [] r = []
  segments_calls (e ∷ []) r = if is_valid_entity_name e then entity_calls e r else []
  segments_calls (e ∷ segment ∷ more) r = elim (parse_id segment) [
    | none ↦ []
    | some id ↦ if is_valid_entity_name e then object_calls e id more r else []
  ]

module _ (is_valid_json : Bytes → Bool) where
  -- A POST of valid JSON makes one call.
  pub segments_calls-post :
      (e : Bytes) (r : Request)
      → is_valid_entity_name e ≡ true
      → r.method ≡ codes "POST"
      → is_valid_json r.body ≡ true
      → segments_calls is_valid_json (e ∷ []) r ≡ creates e r.body ∷ []
  unfolding segments_calls entity_calls
  segments_calls-post e r valid m good = rw (valid, (same_iff r.method (codes "POST")).1 m, good)

  -- A DELETE of an object makes one call.
  pub segments_calls-delete :
      (e segment : Bytes) (id : ℤ) (r : Request)
      → is_valid_entity_name e ≡ true
      → r.method ≡ codes "DELETE"
      → parse_id segment ≡ some id
      → segments_calls is_valid_json (e ∷ segment ∷ []) r ≡ deletes e id ∷ []
  unfolding segments_calls object_calls same
  segments_calls-delete e segment id r valid m named =
      rw (named, segments_calls)
        (rw
          (
            valid,
            method_is (codes "DELETE") (codes "POST") false refl m,
            method_is (codes "DELETE") (codes "GET") false refl m,
            method_is (codes "DELETE") (codes "PUT") false refl m,
            method_is (codes "DELETE") (codes "DELETE") true refl m,
          )
          refl)

module _ {S : Type 0} (is_valid_json : Bytes → Bool) (store : EntityStore S) where
  abbrev run_state : List StoreCall → S → S
  run_state cs s = (run_calls store cs s).0

  abbrev handled_state : S → List Bytes → Request → S
  handled_state s segments r = (handle_segments is_valid_json store s segments r).0

  -- What a request leaves of the state is what its calls leave, whatever the store.
  pub handle_segments-calls :
      (s : S) (segments : List Bytes) (r : Request)
      → handled_state s segments r ≡ run_state (segments_calls is_valid_json segments r) s
  unfolding handle_segments dispatch_method post_alone handle_post handle_put handle_delete
      handle_get get_one respond_read with_id segments_calls entity_calls object_calls run_calls
      call
  handle_segments-calls s [] r = refl
  handle_segments-calls s (e ∷ []) r = ground arith
  handle_segments-calls s (e ∷ segment ∷ []) r = ground arith
  handle_segments-calls s (e ∷ segment ∷ x ∷ more) r = ground arith

module _ (is_valid_json : Bytes → Bool) where
  one_call : (b : Bool) (c : StoreCall) → NamesInt32 c → All NamesInt32 (if b then c ∷ [] else [])
  one_call true c h = (h, tt)
  one_call false c h = tt

  entity_calls-NamesInt32 :
      (e : Bytes) (r : Request) → All NamesInt32 (entity_calls is_valid_json e r)
  unfolding entity_calls
  entity_calls-NamesInt32 e r = elim (Bool-cases (has_method (codes "POST") r)) [
    | inl post ↦ rw post (one_call (is_valid_json r.body) (creates e r.body) tt)
    | inr other ↦ rw other (one_call (has_method (codes "GET") r) (lists e) tt)
  ]

  object_calls-NamesInt32 :
      (e : Bytes) (id : ℤ) (more : List Bytes) (r : Request)
      → IsInt32 id
      → All NamesInt32 (object_calls is_valid_json e id more r)
  unfolding object_calls
  object_calls-NamesInt32 e id more r h = elim (Bool-cases (has_method (codes "POST") r)) [
    | inl post ↦ rw post tt
    | inr a ↦ rw a (elim (Bool-cases (has_method (codes "GET") r)) [
      | inl get ↦ rw get (h, tt)
      | inr b ↦ rw b (elim (Bool-cases (is_empty more)) [
        | inr longer ↦ rw longer tt
        | inl alone ↦ rw alone (elim (Bool-cases (has_method (codes "PUT") r)) [
          | inl put ↦ rw put (one_call (is_valid_json r.body) (updates e id r.body) h)
          | inr c ↦ rw c (one_call (has_method (codes "DELETE") r) (deletes e id) h)
        ])
      ])
    ])
  ]

  pub segments_calls-NamesInt32 :
      (segments : List Bytes) (r : Request)
      → All NamesInt32 (segments_calls is_valid_json segments r)
  unfolding segments_calls
  segments_calls-NamesInt32 [] r = tt
  segments_calls-NamesInt32 (e ∷ []) r = elim (Bool-cases (is_valid_entity_name e)) [
    | inl valid ↦ rw valid (entity_calls-NamesInt32 e r)
    | inr invalid ↦ rw invalid tt
  ]
  segments_calls-NamesInt32 (e ∷ segment ∷ more) r = elim (Option-cases (parse_id segment)) [
    | inl none_ ↦ rw (none_, segments_calls) tt
    | inr (id, found) ↦ elim (Bool-cases (is_valid_entity_name e)) [
      | inl valid ↦
          rw (found, segments_calls)
            (rw valid (object_calls-NamesInt32 e id more r (parse_id-IsInt32 segment id found)))
      | inr invalid ↦ rw (found, segments_calls) (rw invalid tt)
    ]
  ]
