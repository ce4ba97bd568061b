-- ===== src/Store/Calls.antt =====
-- Sequences of calls of an `EntityStore` (include/entity_store.h), with what they return.
use ucla_bathroom_ratings.Base.{Bytes, Bool, Option, List, [], ◌∷◌}
use ucla_bathroom_ratings.Base.Int.{ℤ, IsInt32}
use ucla_bathroom_ratings.Store.Interface.{EntityStore}

pub data StoreCall : Type 0 where
  creates : Bytes → Bytes → StoreCall
  reads : Bytes → ℤ → StoreCall
  updates : Bytes → ℤ → Bytes → StoreCall
  deletes : Bytes → ℤ → StoreCall
  lists : Bytes → StoreCall

pub data StoreReply : Type 0 where
  identified : ℤ → StoreReply
  shown : Option Bytes → StoreReply
  told : Bool → StoreReply
  listed : List ℤ → StoreReply

module _ {S : Type 0} (store : EntityStore S) where
  unfoldable pub call : StoreCall → S → S × StoreReply
  call (creates e d) s = let (s', id) = store.create s e d in (s', identified id)
  call (reads e id) s = let (s', d) = store.read s e id in (s', shown d)
  call (updates e id d) s = let (s', ok) = store.update s e id d in (s', told ok)
  call (deletes e id) s = let (s', ok) = store.delete s e id in (s', told ok)
  call (lists e) s = let (s', ids) = store.list s e in (s', listed ids)

  -- The state behind some calls, and each call with its reply.
  unfoldable pub run_calls : List StoreCall → S → S × List (StoreCall × StoreReply)
  run_calls [] s = (s, [])
  run_calls (c ∷ cs) s =
      let (s', r) = call c s in let (s'', log) = run_calls cs s' in (s'', (c, r) ∷ log)

  -- Each `Create` finds room, where `HasRoom` says that an `int` can count the objects.
  abbrev pub FindsRoom : (S → Bytes → Type 0) → StoreCall → S → Type 0
  FindsRoom HasRoom (creates e d) s = HasRoom s e
  FindsRoom HasRoom _ s = Unit

  abbrev pub RoomThroughout : (S → Bytes → Type 0) → List StoreCall → S → Type 0
  RoomThroughout HasRoom [] s = Unit
  RoomThroughout HasRoom (c ∷ cs) s = FindsRoom HasRoom c s × RoomThroughout HasRoom cs (call c s).0

-- The identifier that a call names is one that an `int` can hold.
abbrev pub NamesInt32 : StoreCall → Type 0
NamesInt32 (creates e d) = Unit
NamesInt32 (reads e id) = IsInt32 id
NamesInt32 (updates e id d) = IsInt32 id
NamesInt32 (deletes e id) = IsInt32 id
NamesInt32 (lists e) = Unit
