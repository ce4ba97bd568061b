-- ===== src/Store/History.antt =====
-- What `EntityStore` (include/entity_store.h) promises of a sequence of calls: each call, with its
-- reply, is a step of a map from entities and identifiers to data.
use mathlib.Core.List.{Mem}
use ucla_bathroom_ratings.Base.{
  Bool-cases, Option-cases, All, Bytes, ◌≡◌, refl, ◌∙◌, ◌↔◌, inl, inr, true, false, Option, none,
  some, List, [], ◌∷◌, arith,
}
use ucla_bathroom_ratings.Base.Int.{ℤ, is_negative, IsInt32, pos}
use ucla_bathroom_ratings.Store.Interface.{EntityStore}
use ucla_bathroom_ratings.Store.Memory.{put, is_found}
use ucla_bathroom_ratings.Store.Contract.{View, SameBut, Contract}
use ucla_bathroom_ratings.Store.Calls.{
  StoreCall, StoreReply, call, run_calls, FindsRoom, RoomThroughout, NamesInt32, creates, reads,
  updates, deletes, lists, identified, shown, told, listed,
}

-- The map `g` is `f` with the data of one place given anew.
abbrev pub Becomes : View → Bytes → ℤ → Option Bytes → View → Type 0
Becomes f e id d g = (e' : Bytes) (j : ℤ) → IsInt32 j → g e' j ≡ put f e id d e' j

abbrev pub Stays : View → View → Type 0
Stays f g = (e : Bytes) (j : ℤ) → IsInt32 j → g e j ≡ f e j

-- The steps of the map. A `Create` or `Update` that fails may leave anything at one place, which
-- for `Create` was free.
pub data Step (f g : View) : StoreCall → StoreReply → Type 0 where
  created :
      {e d : Bytes} {id : ℤ}
      → IsInt32 id
      → is_negative id ≡ false
      → f e id ≡ none
      → Becomes f e id (some d) g
      → Step f g (creates e d) (identified id)
  not_created :
      {e d : Bytes} {id : ℤ} (k : ℤ)
      → is_negative id ≡ true
      → f e k ≡ none
      → SameBut e k f g
      → Step f g (creates e d) (identified id)
  was_read :
      {e : Bytes} {id : ℤ} {d : Option Bytes}
      → d ≡ f e id
      → Stays f g
      → Step f g (reads e id) (shown d)
  updated :
      {e d : Bytes} {id : ℤ} → Becomes f e id (some d) g → Step f g (updates e id d) (told true)
  not_updated : {e d : Bytes} {id : ℤ} → SameBut e id f g → Step f g (updates e id d) (told false)
  deleted :
      {e : Bytes} {id : ℤ}
      → is_found (f e id) ≡ true
      → Becomes f e id none g
      → Step f g (deletes e id) (told true)
  not_deleted : {e : Bytes} {id : ℤ} → Stays f g → Step f g (deletes e id) (told false)
  was_listed :
      {e : Bytes} {ids : List ℤ}
      → ((id : ℤ) → IsInt32 id → Mem id ids ↔ (is_found (f e id) ≡ true))
      → Stays f g
      → Step f g (lists e) (listed ids)

-- The calls of a log, in order, lead from one map to another.
pub data History : View → List (StoreCall × StoreReply) → View → Type 0 where
  done : {f g : View} → Stays f g → History f [] g
  followed :
      {f g h : View} {c : StoreCall} {r : StoreReply} {log : List (StoreCall × StoreReply)}
      → Step f g c r
      → History g log h
      → History f ((c, r) ∷ log) h

module _ {S : Type 0} (store : EntityStore S) {Holds : S → Type 0} {HasRoom : S → Bytes → Type 0}
    {view_of : S → View} (contract : Contract store Holds HasRoom view_of) where
  Holds-call :
      (c : StoreCall) (s : S)
      → Holds s
      → NamesInt32 c
      → FindsRoom store HasRoom c s
      → Holds (call store c s).0
  unfolding call
  Holds-call (creates e d) s v n room = (contract.create_keeps s e d v room).0
  Holds-call (reads e id) s v n room = (contract.keeps s e id [] v n).0
  Holds-call (updates e id d) s v n room = (contract.keeps s e id d v n).1
  Holds-call (deletes e id) s v n room = (contract.keeps s e id [] v n).2
  Holds-call (lists e) s v n room = (contract.keeps s e (pos 0) [] v (omega arith)).3

  found_if_deleted :
      (s : S) (e : Bytes) (id : ℤ)
      → Holds s
      → IsInt32 id
      → (store.delete s e id).1 ≡ true
      → is_found (view_of s e id) ≡ true
  found_if_deleted s e id v n good = elim (Option-cases (view_of s e id)) [
    | inl missing ↦ let kept = contract.delete_missing s e id v n missing in absurd (cc)
    | inr (d, there) ↦ rw there refl
  ]

  -- A call of a store that keeps its contract is a step of the map.
  call-Step :
      (c : StoreCall) (s : S)
      → Holds s
      → NamesInt32 c
      → FindsRoom store HasRoom c s
      → Step (view_of s) (view_of (call store c s).0) c (call store c s).1
  unfolding call
  call-Step (creates e d) s v n room = elim (Bool-cases (is_negative (store.create s e d).1)) [
    | inl failed ↦
        let (k, free, same_but) = contract.create_failed s e d v room failed in
        not_created k failed free same_but
    | inr good ↦
        let law = λ (e' : Bytes) (j : ℤ) (small : IsInt32 j).
          contract.create_law s e d e' j v room small good in
        created (contract.create_keeps s e d v room).1 good (law e (pos 0) (omega arith)).0
          (λ e' j small. (law e' j small).1)
  ]
  call-Step (reads e id) s v n room =
      was_read (contract.read_law s e id e id v n).0
        (λ e' j small. (contract.read_law s e id e' j v n).1)
  call-Step (updates e id d) s v n room = elim (Bool-cases (store.update s e id d).1) [
    | inl good ↦ rw good (updated (λ e' j small. contract.update_law s e id d e' j v n small good))
    | inr failed ↦ rw failed (not_updated (contract.update_failed s e id d v n failed))
  ]
  call-Step (deletes e id) s v n room = elim (Bool-cases (store.delete s e id).1) [
    | inl good ↦ rw good (
        deleted (found_if_deleted s e id v n good)
          (λ e' j small. contract.delete_law s e id e' j v n small ∙ rw good refl))
    | inr failed ↦
        rw failed
          (not_deleted (λ e' j small. contract.delete_law s e id e' j v n small ∙ rw failed refl))
  ]
  call-Step (lists e) s v n room =
      was_listed (λ id small. (contract.list_law s e id e id v small).0)
        (λ e' j small. (contract.list_law s e (pos 0) e' j v (omega arith)).1)

  -- Any calls of a store that keeps its contract, each of an identifier that an `int` can hold
  -- and each `Create` with room, are a history of the map: each reply is one that the map allows,
  -- in order, from the data before the calls to the data behind them; and the invariant holds
  -- again.
  pub run_calls-History :
      (cs : List StoreCall) (s : S)
      → Holds s
      → All NamesInt32 cs
      → RoomThroughout store HasRoom cs s
      → History (view_of s) (run_calls store cs s).1 (view_of (run_calls store cs s).0)
        × Holds (run_calls store cs s).0
  unfolding run_calls
  run_calls-History [] s v n room = (done (λ e j small. refl), v)
  run_calls-History (c ∷ cs) s v (n, ns) (room, rooms) =
      let s' = (call store c s).0 in
      let (rest, held) = run_calls-History cs s' (Holds-call c s v n room) ns rooms in
      (followed (call-Step c s v n room) rest, held)
