-- ===== src/Store/InMemory.antt =====
-- `EntityStoreInMemory` (src/entity_store_in_memory.cc). An `unordered_map` is an association list
-- with distinct keys; a method runs whole under the mutex.
use ucla_bathroom_ratings.Base.{
  if◌then◌else◌, length, Bytes, same, ℕ, zero, suc, Bool, true, false, Option, none, some, List, [],
  ◌∷◌,
}
use ucla_bathroom_ratings.Base.Int.{ℤ, same_int, pos, negsuc}
use ucla_bathroom_ratings.Store.Interface.{EntityStore}

abbrev pub Objects : Type 0
Objects = List (ℤ × Bytes)

abbrev pub Entities : Type 0
Entities = List (Bytes × Objects)

-- `next_id_` without its bound: the theorems on `create` ask for room, so that it stays an `int`.
pub record InMemory : Type 0 where
  pub objects_by_id_by_entity : Entities
  pub next_id : ℕ

abbrev pub empty_store : InMemory
empty_store = record { objects_by_id_by_entity = []; next_id = 0 }

-- `find`, `operator[] =` and `erase` on the objects of one entity.
unfoldable pub find_object : ℤ → Objects → Option Bytes
find_object id [] = none
find_object id ((k, v) ∷ m) = if same_int k id then some v else find_object id m

unfoldable pub set_object : ℤ → Bytes → Objects → Objects
set_object id d [] = (id, d) ∷ []
set_object id d ((k, v) ∷ m) = if same_int k id then (k, d) ∷ m else (k, v) ∷ set_object id d m

unfoldable pub erase_object : ℤ → Objects → Objects
erase_object id [] = []
erase_object id ((k, v) ∷ m) = if same_int k id then m else (k, v) ∷ erase_object id m

unfoldable pub count_object : ℤ → Objects → Bool
unfolding find_object
count_object id m = elim (find_object id m) [ none ↦ false | some v ↦ true ]

abbrev pub ids_of : Objects → List ℤ
ids_of [] = []
ids_of ((k, v) ∷ m) = k ∷ ids_of m

-- `objects_by_id_by_entity_[entity_name]`: a missing entity is put there, with no objects.
unfoldable pub objects_of : Bytes → Entities → Objects
objects_of e [] = []
objects_of e ((k, m) ∷ es) = if same k e then m else objects_of e es

unfoldable pub set_objects : Bytes → Objects → Entities → Entities
set_objects e m [] = (e, m) ∷ []
set_objects e m ((k, n) ∷ es) = if same k e then (k, m) ∷ es else (k, n) ∷ set_objects e m es

-- `while (objects_by_id.count(next_id_)) next_id_++;` with fuel.
unfoldable pub next_free : ℕ → Objects → ℕ → Option ℕ
next_free zero m n = none
next_free (suc fuel) m n = elim (count_object (pos n) m) [
  | true ↦ next_free fuel m (suc n)
  | false ↦ some n
]

abbrev pub with_objects : InMemory → Bytes → Objects → InMemory
with_objects s e m = record s {
  objects_by_id_by_entity = set_objects e m s.objects_by_id_by_entity;
}

-- What `Create` does once a free identifier is found.
unfoldable pub store_new : InMemory → Bytes → Bytes → Objects → Option ℕ → Option (InMemory × ℤ)
store_new s e d m none = none
store_new s e d m (some id) =
    some (record (with_objects s e (set_object (pos id) d m)) { next_id = suc id }, pos id)

-- The fuel is one more than the number of objects.
unfoldable pub create : InMemory → Bytes → Bytes → Option (InMemory × ℤ)
create s e d =
    let m = objects_of e s.objects_by_id_by_entity in
    store_new s e d m (next_free (suc (length m)) m s.next_id)

unfoldable pub read : InMemory → Bytes → ℤ → InMemory × Option Bytes
read s e id =
    let m = objects_of e s.objects_by_id_by_entity in (with_objects s e m, find_object id m)

unfoldable pub update : InMemory → Bytes → ℤ → Bytes → InMemory × Bool
update s e id d =
    (with_objects s e (set_object id d (objects_of e s.objects_by_id_by_entity)), true)

unfoldable pub delete : InMemory → Bytes → ℤ → InMemory × Bool
delete s e id =
    let m = objects_of e s.objects_by_id_by_entity in
    (with_objects s e (erase_object id m), count_object id m)

unfoldable pub list : InMemory → Bytes → InMemory × List ℤ
list s e = let m = objects_of e s.objects_by_id_by_entity in (with_objects s e m, ids_of m)

-- The store as an implementation of the interface; the fuel of `create` never runs out.
abbrev pub or_unchanged : InMemory → Option (InMemory × ℤ) → InMemory × ℤ
or_unchanged s none = (s, negsuc 0)
or_unchanged s (some r) = r

unfoldable pub in_memory : EntityStore InMemory
in_memory = record {
  create = λ s e d. or_unchanged s (create s e d);
  read = read;
  update = update;
  delete = delete;
  list = list;
}
