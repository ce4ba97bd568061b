-- ===== src/Store/Contract.antt =====
-- What `EntityStore` promises (the comments of include/entity_store.h), as laws about the data of
-- each entity and identifier; `EntityStoreInMemory` keeps them.
use mathlib.Core.List.{Mem}
use ucla_bathroom_ratings.Base.{
  if◌then◌else◌, Bool-cases, Option-cases, Bytes, same, same_iff, ℕ, ◌≡◌, sym, ap, ◌∙◌, ◌≢◌, ◌↔◌,
  inl, inr, true, false, ◌&&◌, Option, none, some, arith,
}
use ucla_bathroom_ratings.Base.Int.{ℤ, same_int, same_int_iff, is_negative, IsInt32, pos}
use ucla_bathroom_ratings.Store.Interface.{EntityStore}
use ucla_bathroom_ratings.Store.InMemory.{
  InMemory, empty_store, objects_of, create, read, update, delete, list, or_unchanged, in_memory,
}
use ucla_bathroom_ratings.Store.Memory.{
  view, IsValid, put, HasRoom, created, update-view, read-view, is_found, delete-view, list-view,
  operations-IsValid,
}

-- The data of all entities and identifiers.
abbrev pub View : Type 0
View = Bytes → ℤ → Option Bytes

-- Another place than that of the entity `e` and the identifier `id`.
abbrev pub IsElsewhere : Bytes → ℤ → Bytes → ℤ → Type 0
IsElsewhere e id e' j = (same e e' && same_int id j) ≡ false

-- Nothing but the data of one place differs.
abbrev pub SameBut : Bytes → ℤ → View → View → Type 0
SameBut e id f g = (e' : Bytes) (j : ℤ) → IsInt32 j → IsElsewhere e id e' j → g e' j ≡ f e' j

-- `Holds` is the invariant of the store's state, `HasRoom` says that an `int` can count the objects
-- of an entity, and `view_of` is the data that the state stands for. The identifiers are those that
-- an `int` can hold.
pub record Contract {S : Type 0} (store : EntityStore S) (Holds : S → Type 0)
    (HasRoom : S → Bytes → Type 0) (view_of : S → Bytes → ℤ → Option Bytes) : Type 0 where
  pub create_keeps :
      (s : S) (e d : Bytes)
      → Holds s
      → HasRoom s e
      → Holds (store.create s e d).0 × IsInt32 (store.create s e d).1
  pub keeps :
      (s : S) (e : Bytes) (id : ℤ) (d : Bytes)
      → Holds s
      → IsInt32 id
      → Holds (store.read s e id).0
        × Holds (store.update s e id d).0
        × Holds (store.delete s e id).0
        × Holds (store.list s e).0
  pub create_law :
      (s : S) (e d : Bytes) (e' : Bytes) (j : ℤ)
      → Holds s
      → HasRoom s e
      → IsInt32 j
      → is_negative (store.create s e d).1 ≡ false
      → (view_of s e (store.create s e d).1 ≡ none)
        × (view_of (store.create s e d).0 e' j
            ≡ put (view_of s) e (store.create s e d).1 (some d) e' j)
  pub create_failed :
      (s : S) (e d : Bytes)
      → Holds s
      → HasRoom s e
      → is_negative (store.create s e d).1 ≡ true
      → (k : ℤ) × (view_of s e k ≡ none) × SameBut e k (view_of s) (view_of (store.create s e d).0)
  pub read_law :
      (s : S) (e : Bytes) (id : ℤ) (e' : Bytes) (j : ℤ)
      → Holds s
      → IsInt32 id
      → ((store.read s e id).1 ≡ view_of s e id)
        × (view_of (store.read s e id).0 e' j ≡ view_of s e' j)
  pub update_law :
      (s : S) (e : Bytes) (id : ℤ) (d : Bytes) (e' : Bytes) (j : ℤ)
      → Holds s
      → IsInt32 id
      → IsInt32 j
      → (store.update s e id d).1 ≡ true
      → view_of (store.update s e id d).0 e' j ≡ put (view_of s) e id (some d) e' j
  pub update_failed :
      (s : S) (e : Bytes) (id : ℤ) (d : Bytes)
      → Holds s
      → IsInt32 id
      → (store.update s e id d).1 ≡ false
      → SameBut e id (view_of s) (view_of (store.update s e id d).0)
  pub delete_law :
      (s : S) (e : Bytes) (id : ℤ) (e' : Bytes) (j : ℤ)
      → Holds s
      → IsInt32 id
      → IsInt32 j
      → view_of (store.delete s e id).0 e' j
        ≡ (if (store.delete s e id).1 then put (view_of s) e id none e' j else view_of s e' j)
  pub delete_missing :
      (s : S) (e : Bytes) (id : ℤ)
      → Holds s
      → IsInt32 id
      → view_of s e id ≡ none
      → (store.delete s e id).1 ≡ false
  pub list_law :
      (s : S) (e : Bytes) (id : ℤ) (e' : Bytes) (j : ℤ)
      → Holds s
      → IsInt32 id
      → (Mem id (store.list s e).1 ↔ (is_found (view_of s e id) ≡ true))
        × (view_of (store.list s e).0 e' j ≡ view_of s e' j)

memory_create_law :
    (s : InMemory) (e d : Bytes) (e' : Bytes) (j : ℤ)
    → (view s e (or_unchanged s (create s e d)).1 ≡ none)
      × (view (or_unchanged s (create s e d)).0 e' j
          ≡ put (view s) e (or_unchanged s (create s e d)).1 (some d) e' j)
memory_create_law s e d e' j = let c = created s e d in rw c.returns (c.was_free, c.stored e' j)

memory_create_keeps :
    (s : InMemory) (e d : Bytes)
    → IsValid s
    → HasRoom s e
    → IsValid (or_unchanged s (create s e d)).0 × IsInt32 (or_unchanged s (create s e d)).1
memory_create_keeps s e d v room =
    let c = created s e d in
    let (made, seen, updated, deleted, listed) = operations-IsValid s e (pos 0) d v in
    let le = c.within in (made, rw c.returns (omega arith))

memory_keeps :
    (s : InMemory) (e : Bytes) (id : ℤ) (d : Bytes)
    → IsValid s
    → IsValid (read s e id).0
      × IsValid (update s e id d).0
      × IsValid (delete s e id).0
      × IsValid (list s e).0
memory_keeps s e id d v =
    let (made, seen, updated, deleted, listed) = operations-IsValid s e id d v in
    (seen, updated, deleted, listed)

pub put_elsewhere :
    (f : View) (e : Bytes) (id : ℤ) (d : Option Bytes) (e' : Bytes) (j : ℤ)
    → IsElsewhere e id e' j
    → put f e id d e' j ≡ f e' j
put_elsewhere f e id d e' j h = elim (Bool-cases (same e e')) [
  | inr other ↦ rw other
  | inl same_ ↦ let away = rw same_ at h in rw (same_, away)
]

put_missing :
    (f : Bytes → ℤ → Option Bytes) (e : Bytes) (id : ℤ) (e' : Bytes) (j : ℤ)
    → f e id ≡ none
    → put f e id none e' j ≡ f e' j
put_missing f e id e' j h = elim (Bool-cases (same e e')) [
  | inr other ↦ rw other
  | inl same_ ↦ elim (Bool-cases (same_int id j)) [
    | inr other ↦ rw (same_, other)
    | inl equal ↦
        rw (same_, equal, ← (same_iff e e').0 same_, ← (same_int_iff id j).0 equal) (sym h)
  ]
]

memory_delete_law :
    (s : InMemory) (e : Bytes) (id : ℤ) (e' : Bytes) (j : ℤ)
    → IsValid s
    → view (delete s e id).0 e' j
      ≡ (if (delete s e id).1 then put (view s) e id none e' j else view s e' j)
memory_delete_law s e id e' j v =
    let (found, seen) = delete-view s e id e' j v in
    elim (Option-cases (view s e id)) [
      | inl missing ↦ rw (found, missing) (seen ∙ put_missing (view s) e id e' j missing)
      | inr (d, there) ↦ rw (found, there) seen
    ]

memory_delete_missing :
    (s : InMemory) (e : Bytes) (id : ℤ) → IsValid s → view s e id ≡ none → (delete s e id).1 ≡ false
memory_delete_missing s e id v h = (delete-view s e id e id v).0 ∙ ap is_found h

pos_not_negative : (n : ℕ) → is_negative (pos n) ≢ true
pos_not_negative n h = cc

true-ne-false : true ≢ false
true-ne-false e = cc

-- `EntityStoreInMemory` keeps the contract of `EntityStore`: its invariant is that no identifier
-- stands twice in an entity, there is room while the next identifier and the number of the
-- entity's objects are together below 2^31, and its view is the data found there.
pub in_memory-Contract : Contract in_memory IsValid HasRoom view
unfolding in_memory
in_memory-Contract = record {
  create_keeps = λ s e d v r. memory_create_keeps s e d v r;
  keeps = λ s e id d v r. memory_keeps s e id d v;
  create_law = λ s e d e' j v r r' n. memory_create_law s e d e' j;
  create_failed = λ s e d v r failed.
      let c = created s e d in absurd (pos_not_negative c.id (rw c.returns at failed));
  read_law = λ s e id e' j v r. read-view s e id e' j;
  update_law = λ s e id d e' j v r r' h. (update-view s e id d e' j).1;
  update_failed =
      λ s e id d v r failed. absurd (true-ne-false (sym (update-view s e id d e id).0 ∙ failed));
  delete_law = λ s e id e' j v r r'. memory_delete_law s e id e' j v;
  delete_missing = λ s e id v r. memory_delete_missing s e id v;
  list_law = λ s e id e' j v r. list-view s e id e' j;
}

pub empty_store-IsValid : IsValid empty_store
unfolding IsValid objects_of
empty_store-IsValid e = tt
