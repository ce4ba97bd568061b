-- ===== src/Store/Memory.antt =====
-- `EntityStoreInMemory` (src/entity_store_in_memory.cc) against the map that it stands for: the
-- data of each entity and identifier.
use mathlib.Core.List.{Mem}
use ucla_bathroom_ratings.Base.{
  if◌then◌else◌, Bool-cases, length, Bytes, same, same_iff, ℕ, suc, ◌+◌, ◌≤◌, ◌<◌, ◌≡◌, refl, ◌∙◌,
  ◌↔◌, inl, inr, Bool, true, false, Option, none, some, arith,
}
use ucla_bathroom_ratings.Base.Int.{ℤ, same_int, pos}
use ucla_bathroom_ratings.Store.InMemory.{
  Objects, InMemory, find_object, set_object, erase_object, count_object, objects_of, with_objects,
  store_new, create, read, update, delete, list, or_unchanged,
}
use ucla_bathroom_ratings.Store.Objects.{
  IsDistinct, find_object-set_object, set_object-IsDistinct, find_object-erase_object,
  erase_object-IsDistinct, objects_of-set_objects, next_free_enough, next_free_total, mem-ids_of,
}

-- The abstract view.
unfoldable pub view : InMemory → Bytes → ℤ → Option Bytes
view s e id = find_object id (objects_of e s.objects_by_id_by_entity)

-- No entity holds an identifier twice.
unfoldable pub IsValid : InMemory → Type 0
IsValid s = (e : Bytes) → IsDistinct (objects_of e s.objects_by_id_by_entity)

-- The view with one place given anew.
abbrev pub put : (Bytes → ℤ → Option Bytes) → Bytes → ℤ → Option Bytes → Bytes → ℤ → Option Bytes
put f e id d e' j = if same e e' then if same_int id j then d else f e' j else f e' j

with_objects-objects_of :
    (s : InMemory) (e e' : Bytes) (m : Objects)
    → objects_of e' (with_objects s e m).objects_by_id_by_entity
      ≡ (if same e e' then m else objects_of e' s.objects_by_id_by_entity)
with_objects-objects_of s e e' m = objects_of-set_objects e e' m s.objects_by_id_by_entity

view-set :
    (s : InMemory) (e : Bytes) (id : ℤ) (d : Bytes) (e' : Bytes) (j : ℤ)
    → view (with_objects s e (set_object id d (objects_of e s.objects_by_id_by_entity))) e' j
      ≡ put (view s) e id (some d) e' j
unfolding view
view-set s e id d e' j = rw with_objects-objects_of (elim (Bool-cases (same e e')) [
  | inl same_ ↦ rw (same_, ← (same_iff e e').0 same_) (find_object-set_object id j d _)
  | inr other ↦ rw other
])

view-next_id :
    (s : InMemory) (n : ℕ) (e : Bytes) (j : ℤ) → view (record s { next_id = n }) e j ≡ view s e j
unfolding view
view-next_id s n e j = refl

view-erase :
    (s : InMemory) (e : Bytes) (id : ℤ) (e' : Bytes) (j : ℤ)
    → IsValid s
    → view (with_objects s e (erase_object id (objects_of e s.objects_by_id_by_entity))) e' j
      ≡ put (view s) e id none e' j
unfolding view IsValid
view-erase s e id e' j v = rw with_objects-objects_of (elim (Bool-cases (same e e')) [
  | inl same_ ↦ rw (same_, ← (same_iff e e').0 same_) (find_object-erase_object id j _ (v e))
  | inr other ↦ rw other
])

-- To put an entity there with its own objects, or with none if it was missing, shows nothing.
view-same :
    (s : InMemory) (e e' : Bytes) (j : ℤ)
    → view (with_objects s e (objects_of e s.objects_by_id_by_entity)) e' j ≡ view s e' j
unfolding view
view-same s e e' j = rw with_objects-objects_of (elim (Bool-cases (same e e')) [
  | inl same_ ↦ rw (same_, ← (same_iff e e').0 same_)
  | inr other ↦ rw other
])

IsValid-with_objects :
    (s : InMemory) (e : Bytes) (m : Objects)
    → IsDistinct m
    → IsValid s
    → IsValid (with_objects s e m)
unfolding IsValid
IsValid-with_objects s e m h v e' =
    rw with_objects-objects_of
      (elim (Bool-cases (same e e')) [ inl same_ ↦ rw same_ h | inr other ↦ rw other (v e') ])

-- The next identifier and the objects of the entity together are below 2^31.
abbrev pub HasRoom : InMemory → Bytes → Type 0
HasRoom s e = s.next_id + length (objects_of e s.objects_by_id_by_entity) < 2147483648

-- What `Create` did: it returned the first free identifier from `next_id_` on, and stored the data
-- there.
pub record Created (s : InMemory) (e d : Bytes) : Type 0 where
  pub id : ℕ
  pub after : InMemory
  pub returns : create s e d ≡ some (after, pos id)
  pub from_next : s.next_id ≤ id
  pub within : id ≤ s.next_id + length (objects_of e s.objects_by_id_by_entity)
  pub next_after : after.next_id ≡ suc id
  pub was_free : view s e (pos id) ≡ none
  pub stored : (e' : Bytes) (j : ℤ) → view after e' j ≡ put (view s) e (pos id) (some d) e' j

pub created : (s : InMemory) (e d : Bytes) → Created s e d
created s e d =
    let m = objects_of e s.objects_by_id_by_entity in
    let (k, found, first, bound) = next_free_enough (suc (length m)) m s.next_id (omega arith) in
    record {
      id = k;
      after = record (with_objects s e (set_object (pos k) d m)) { next_id = suc k };
      returns = unfold create store_new in rw found;
      from_next = first.from;
      within = bound;
      next_after = refl;
      was_free = unfold view in first.free;
      stored = λ e' j.
          view-next_id (with_objects s e (set_object (pos k) d m)) (suc k) e' j
          ∙ view-set s e (pos k) d e' j;
    }

-- While `next_id_` and the number of objects of the entity add up to less than 2^31 - 1, `Create`
-- succeeds and `next_id_` stays an `int`. The identifier is not below the old `next_id_`, which
-- becomes the number behind it, and above it by at most the number of objects of the entity;
-- nothing stood there, the data stands there now, and nothing else changes.
pub create-Created :
    (s : InMemory) (e d : Bytes)
    → suc (s.next_id + length (objects_of e s.objects_by_id_by_entity)) < 2147483648
    → (c : Created s e d) × (c.after.next_id < 2147483648)
create-Created s e d room =
    let c = created s e d in let le = c.within in let next = c.next_after in (c, omega arith)

-- `Update` always succeeds, and gives the data of its entity and identifier anew; nothing else
-- changes.
pub update-view :
    (s : InMemory) (e : Bytes) (id : ℤ) (d : Bytes) (e' : Bytes) (j : ℤ)
    → ((update s e id d).1 ≡ true)
      × (view (update s e id d).0 e' j ≡ put (view s) e id (some d) e' j)
unfolding update
update-view s e id d e' j = (refl, view-set s e id d e' j)

-- `Read` returns the data of the view, and shows no change.
pub read-view :
    (s : InMemory) (e : Bytes) (id : ℤ) (e' : Bytes) (j : ℤ)
    → ((read s e id).1 ≡ view s e id) × (view (read s e id).0 e' j ≡ view s e' j)
unfolding read
read-view s e id e' j = (unfold view in refl, view-same s e e' j)

abbrev pub is_found : Option Bytes → Bool
is_found none = false
is_found (some d) = true

count_object-is_found : (id : ℤ) (m : Objects) → count_object id m ≡ is_found (find_object id m)
unfolding count_object
count_object-is_found id m = ground arith

-- `Delete` returns whether there was an object, which is gone then; nothing else changes.
pub delete-view :
    (s : InMemory) (e : Bytes) (id : ℤ) (e' : Bytes) (j : ℤ)
    → IsValid s
    → ((delete s e id).1 ≡ is_found (view s e id))
      × (view (delete s e id).0 e' j ≡ put (view s) e id none e' j)
unfolding delete view
delete-view s e id e' j v = (count_object-is_found id _, view-erase s e id e' j v)

-- `List` gives exactly the identifiers of the entity that have data, and shows no change.
pub list-view :
    (s : InMemory) (e : Bytes) (id : ℤ) (e' : Bytes) (j : ℤ)
    → (Mem id (list s e).1 ↔ (is_found (view s e id) ≡ true))
      × (view (list s e).0 e' j ≡ view s e' j)
unfolding list view
list-view s e id e' j = (rw (← count_object-is_found) (mem-ids_of id _), view-same s e e' j)

at : (s : InMemory) → IsValid s → (e : Bytes) → IsDistinct (objects_of e s.objects_by_id_by_entity)
unfolding IsValid
at s v e = v e

same_IsValid :
    (s : InMemory) (e : Bytes)
    → IsValid s
    → IsValid (with_objects s e (objects_of e s.objects_by_id_by_entity))
same_IsValid s e v = IsValid-with_objects s e _ (at s v e) v

next_id-IsValid : (s : InMemory) (n : ℕ) → IsValid s → IsValid (record s { next_id = n })
unfolding IsValid
next_id-IsValid s n v = v

create-IsValid :
    (s : InMemory) (e d : Bytes) → IsValid s → IsValid (or_unchanged s (create s e d)).0
unfolding create store_new
create-IsValid s e d v =
    let m = objects_of e s.objects_by_id_by_entity in
    let (k, found, first) = next_free_total m s.next_id in
    rw (found, store_new)
      (next_id-IsValid _ (suc k)
        (IsValid-with_objects s e _ (set_object-IsDistinct (pos k) d m (at s v e)) v))

-- Every operation keeps the identifiers of each entity distinct.
pub operations-IsValid :
    (s : InMemory) (e : Bytes) (id : ℤ) (d : Bytes)
    → IsValid s
    → IsValid (or_unchanged s (create s e d)).0
      × IsValid (read s e id).0
      × IsValid (update s e id d).0
      × IsValid (delete s e id).0
      × IsValid (list s e).0
operations-IsValid s e id d v = (
  create-IsValid s e d v,
  (unfold read in same_IsValid s e v),
  (unfold update in IsValid-with_objects s e _ (set_object-IsDistinct id d _ (at s v e)) v),
  (unfold delete in IsValid-with_objects s e _ (erase_object-IsDistinct id _ (at s v e)) v),
  (unfold list in same_IsValid s e v),
)
