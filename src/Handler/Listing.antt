-- ===== src/Handler/Listing.antt =====
-- What `ApiRequestHandler` (src/request_handler_api.cc) answers to a request for the identifiers
-- of an entity, over any store that keeps its contract.
use mathlib.Core.List.Perm
use mathlib.Core.List.{Mem, Perm}
use ucla_bathroom_ratings.Base.{Bytes, codes, ◌≡◌, ap, ◌∙◌, ◌↔◌, Bool, true, Option, List, [], ◌∷◌}
use ucla_bathroom_ratings.Base.Int.{ℤ, IsInt32}
use ucla_bathroom_ratings.Base.Sort.{sort}
use ucla_bathroom_ratings.Base.Sorted.{IsSorted, sort-Perm, sort-IsSorted}
use ucla_bathroom_ratings.Http.Message.{Request, Response}
use ucla_bathroom_ratings.Http.ResponseBuilder.{ok}
use ucla_bathroom_ratings.Store.Interface.{EntityStore}
use ucla_bathroom_ratings.Store.Validation.{is_valid_entity_name}
use ucla_bathroom_ratings.Store.Contract.{Contract}
use ucla_bathroom_ratings.Store.Memory.{is_found}
use ucla_bathroom_ratings.Handler.Api.{json, json_list, handle_get}
use ucla_bathroom_ratings.Handler.Crud.{respond_segments, valid_segments, by_get}
use ucla_bathroom_ratings.Handler.Segments.{IsPlainPrefix}
use ucla_bathroom_ratings.Handler.Requests.{entity_url, answer_to, at_entity}

-- A response that lists the identifiers with data, in order and each as often as the store does.
pub record Lists (stored : List ℤ) (data_at : ℤ → Option Bytes) (r : Response) : Type 0 where
  pub ids : List ℤ
  pub answered : r ≡ ok (json_list ids) json
  pub sorted : IsSorted ids
  pub same_ids : Perm stored ids
  pub complete : (id : ℤ) → IsInt32 id → Mem id ids ↔ (is_found (data_at id) ≡ true)

module _ {S : Type 0} (is_valid_json : Bytes → Bool) (store : EntityStore S) where
  list_answer :
      (s : S) (e : Bytes) (r : Request)
      → is_valid_entity_name e ≡ true
      → r.method ≡ codes "GET"
      → respond_segments is_valid_json store s (e ∷ []) r
        ≡ ((store.list s e).0, ok (json_list (sort (store.list s e).1)) json)
  unfolding handle_get
  list_answer s e r valid m =
      valid_segments is_valid_json store s e [] r valid
      ∙ by_get is_valid_json store s e (e ∷ []) r m

module _ {S : Type 0} (is_valid_json : Bytes → Bool) (store : EntityStore S) {Holds : S → Type 0}
    {HasRoom : S → Bytes → Type 0} {view_of : S → Bytes → ℤ → Option Bytes}
    (laws : Contract store Holds HasRoom view_of) (prefix : Bytes)
    (plain_prefix : IsPlainPrefix prefix) where
  -- Over any store that keeps `Contract`, in a state that its invariant holds of: a GET of the
  -- URL of an entity answers with a list in ascending order, in which each identifier stands as
  -- often as the store lists it, and in which an identifier that an `int` can hold stands exactly
  -- if it has data. The entity's name is valid; the prefix is not empty and has no question mark.
  pub handle_request-Lists :
      (s : S) (e : Bytes) (get : Request)
      → Holds s
      → is_valid_entity_name e ≡ true
      → get.method ≡ codes "GET"
      → get.url ≡ entity_url prefix e
      → Lists (store.list s e).1 (view_of s e) (answer_to is_valid_json store prefix s get).1
  handle_request-Lists s e get holds valid m u =
      let listed = (store.list s e).1 in
      record {
        ids = sort listed;
        answered =
            ap (λ (x : S × Response). x.1)
              (at_entity is_valid_json store laws prefix plain_prefix s get e valid u
                ∙ list_answer is_valid_json store s e get valid m);
        sorted = sort-IsSorted listed;
        same_ids = sort-Perm listed;
        complete = λ id r.
            let found = (laws.list_law s e id e id holds r).0 in
            let kept = Perm.mem_iff (sort-Perm listed) in
            ((λ h. found.0 (kept.1 h)), (λ h. kept.0 (found.1 h)));
      }
