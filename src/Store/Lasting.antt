-- ===== src/Store/Lasting.antt =====
-- What stays in an `EntityStore` (include/entity_store.h) over any sequence of calls.
use ucla_bathroom_ratings.Base.{
  Bool-cases, All, Bytes, same, same_iff, ◌≡◌, refl, ◌∙◌, inl, inr, false, none, some, List, [],
  ◌∷◌, arith,
}
use ucla_bathroom_ratings.Base.Int.{ℤ, same_int, same_int_iff, IsInt32}
use ucla_bathroom_ratings.Store.Memory.{put}
use ucla_bathroom_ratings.Store.Contract.{View, IsElsewhere, Contract, put_elsewhere}
use ucla_bathroom_ratings.Store.Calls.{
  StoreCall, StoreReply, call, run_calls, RoomThroughout, NamesInt32, creates, updates, deletes,
}
use ucla_bathroom_ratings.Store.History.{
  Step, History, run_calls-History, created, not_created, was_read, updated, not_updated, deleted,
  not_deleted, was_listed, done, followed,
}
use ucla_bathroom_ratings.Store.Interface.{EntityStore}

-- The call neither updates nor deletes the object of the entity `e` and the identifier `id`.
abbrev pub Spares : Bytes → ℤ → StoreCall → Type 0
Spares e id (updates e' j d) = IsElsewhere e' j e id
Spares e id (deletes e' j) = IsElsewhere e' j e id
Spares e id _ = Unit

-- The call neither creates an object of the entity nor updates the one with the identifier.
abbrev pub LeavesOut : Bytes → ℤ → StoreCall → Type 0
LeavesOut e id (creates e' d) = same e' e ≡ false
LeavesOut e id (updates e' j d) = IsElsewhere e' j e id
LeavesOut e id _ = Unit

-- A free place is another one than that of an object.
free-IsElsewhere :
    (f : View) (e' : Bytes) (k : ℤ) (e : Bytes) (id : ℤ) (d : Bytes)
    → f e' k ≡ none
    → f e id ≡ some d
    → IsElsewhere e' k e id
free-IsElsewhere f e' k e id d free there = elim (Bool-cases (same e' e)) [
  | inr other ↦ rw other refl
  | inl same_ ↦ elim (Bool-cases (same_int k id)) [
    | inr other ↦ rw (same_, other) refl
    | inl equal ↦
        let here : f e id ≡ none =
          rw (← (same_iff e' e).0 same_, ← (same_int_iff k id).0 equal) free in
        absurd (cc)
  ]
]

Step-keeps :
    {f g : View} {c : StoreCall} {r : StoreReply} (e : Bytes) (id : ℤ) (d : Bytes)
    → IsInt32 id
    → Spares e id c
    → f e id ≡ some d
    → Step f g c r
    → g e id ≡ some d
Step-keeps {f} e id d small spared there
      (created {e = e'} {d = d'} {id = k} k_small good free becomes) =
    becomes e id small
    ∙ put_elsewhere f e' k (some d') e id (free-IsElsewhere f e' k e id d free there)
    ∙ there
Step-keeps {f} e id d small spared there (not_created {e = e'} k failed free same_but) =
    same_but e id small (free-IsElsewhere f e' k e id d free there) ∙ there
Step-keeps e id d small spared there (was_read shown_ stays) = stays e id small ∙ there
Step-keeps {f} e id d small spared there (updated {e = e'} {d = d'} {id = k} becomes) =
    becomes e id small ∙ put_elsewhere f e' k (some d') e id spared ∙ there
Step-keeps e id d small spared there (not_updated same_but) = same_but e id small spared ∙ there
Step-keeps {f} e id d small spared there (deleted {e = e'} {id = k} found becomes) =
    becomes e id small ∙ put_elsewhere f e' k none e id spared ∙ there
Step-keeps e id d small spared there (not_deleted stays) = stays e id small ∙ there
Step-keeps e id d small spared there (was_listed ids stays) = stays e id small ∙ there

put-none :
    (f : View) (e' : Bytes) (k : ℤ) (e : Bytes) (id : ℤ)
    → f e id ≡ none
    → put f e' k none e id ≡ none
put-none f e' k e id free = ground (arith)

apart : (e' e : Bytes) (k id : ℤ) → same e' e ≡ false → IsElsewhere e' k e id
apart e' e k id h = rw h refl

Step-keeps_none :
    {f g : View} {c : StoreCall} {r : StoreReply} (e : Bytes) (id : ℤ)
    → IsInt32 id
    → LeavesOut e id c
    → f e id ≡ none
    → Step f g c r
    → g e id ≡ none
Step-keeps_none {f} e id small out free
      (created {e = e'} {d = d'} {id = k} k_small good unused becomes) =
    becomes e id small ∙ put_elsewhere f e' k (some d') e id (apart e' e k id out) ∙ free
Step-keeps_none e id small out free (not_created {e = e'} k failed unused same_but) =
    same_but e id small (apart e' e k id out) ∙ free
Step-keeps_none e id small out free (was_read shown_ stays) = stays e id small ∙ free
Step-keeps_none {f} e id small out free (updated {e = e'} {d = d'} {id = k} becomes) =
    becomes e id small ∙ put_elsewhere f e' k (some d') e id out ∙ free
Step-keeps_none e id small out free (not_updated same_but) = same_but e id small out ∙ free
Step-keeps_none {f} e id small out free (deleted {e = e'} {id = k} found becomes) =
    becomes e id small ∙ put-none f e' k e id free
Step-keeps_none e id small out free (not_deleted stays) = stays e id small ∙ free
Step-keeps_none e id small out free (was_listed ids stays) = stays e id small ∙ free

History-keeps :
    {f g : View} {log : List (StoreCall × StoreReply)} (e : Bytes) (id : ℤ) (d : Bytes)
    → IsInt32 id
    → f e id ≡ some d
    → History f log g
    → All (λ x. Spares e id x.0) log
    → g e id ≡ some d
History-keeps e id d small there (done stays) spared = stays e id small ∙ there
History-keeps e id d small there (followed step history) (h, hs) =
    History-keeps e id d small (Step-keeps e id d small h there step) history hs

History-keeps_none :
    {f g : View} {log : List (StoreCall × StoreReply)} (e : Bytes) (id : ℤ)
    → IsInt32 id
    → f e id ≡ none
    → History f log g
    → All (λ x. LeavesOut e id x.0) log
    → g e id ≡ none
History-keeps_none e id small free (done stays) out = stays e id small ∙ free
History-keeps_none e id small free (followed step history) (h, hs) =
    History-keeps_none e id small (Step-keeps_none e id small h free step) history hs

-- The log has the calls, in order.
All-log :
    {S : Type 0} (store : EntityStore S) (P : StoreCall → Type 0) (cs : List StoreCall) (s : S)
    → All P cs
    → All (λ x. P x.0) (run_calls store cs s).1
unfolding run_calls
All-log store P [] s h = tt
All-log store P (c ∷ cs) s (h, hs) = (h, All-log store P cs (call store c s).0 hs)

module _ {S : Type 0} (store : EntityStore S) {Holds : S → Type 0} {HasRoom : S → Bytes → Type 0}
    {view_of : S → View} (contract : Contract store Holds HasRoom view_of) where
  abbrev state_behind : List StoreCall → S → S
  state_behind cs s = (run_calls store cs s).0

  shown_behind :
      (e : Bytes) (id : ℤ) (cs : List StoreCall) (s : S)
      → IsInt32 id
      → Holds s
      → All NamesInt32 cs
      → RoomThroughout store HasRoom cs s
      → (store.read (state_behind cs s) e id).1 ≡ view_of (state_behind cs s) e id
  shown_behind e id cs s small v names room =
      let held = (run_calls-History store contract cs s v names room).1 in
      (contract.read_law (state_behind cs s) e id e id held small).0

  -- An object outlasts the calls that are not about it, over any store that keeps its contract:
  -- behind any calls, each of an identifier that an `int` can hold and each `Create` with room,
  -- none of which updates or deletes an object that was there with data, `Read` gives that data,
  -- whatever calls failed.
  pub run_calls-keeps :
      (e : Bytes) (id : ℤ) (d : Bytes) (cs : List StoreCall) (s : S)
      → IsInt32 id
      → Holds s
      → All NamesInt32 cs
      → RoomThroughout store HasRoom cs s
      → All (Spares e id) cs
      → view_of s e id ≡ some d
      → (store.read (state_behind cs s) e id).1 ≡ some d
  run_calls-keeps e id d cs s small v names room spared there =
      shown_behind e id cs s small v names room
      ∙ History-keeps e id d small there (run_calls-History store contract cs s v names room).0
          (All-log store (Spares e id) cs s spared)

  -- What is missing stays so, over any store that keeps its contract: behind such calls, none of
  -- which creates an object of the entity or updates the one with the identifier, `Read` finds
  -- nothing where there was nothing.
  pub run_calls-misses :
      (e : Bytes) (id : ℤ) (cs : List StoreCall) (s : S)
      → IsInt32 id
      → Holds s
      → All NamesInt32 cs
      → RoomThroughout store HasRoom cs s
      → All (LeavesOut e id) cs
      → view_of s e id ≡ none
      → (store.read (state_behind cs s) e id).1 ≡ none
  run_calls-misses e id cs s small v names room out free =
      shown_behind e id cs s small v names room
      ∙ History-keeps_none e id small free (run_calls-History store contract cs s v names room).0
          (All-log store (LeavesOut e id) cs s out)
