-- ===== src/Store/Allocation.antt =====
-- The identifier that `EntityStorePersistent::Create` (src/entity_store_persistent.cc) chooses, and
-- what it leaves on the disk.
use ucla_bathroom_ratings.Base.{
  if◌then◌else◌, Bool-cases, Option-cases, length, Bytes, same_self, ℕ, zero, suc, ◌≤◌, ◌<◌, ◌≡◌,
  refl, sym, ◌∙◌, ◌≢◌, ◌⊎◌, inl, inr, Bool, true, false, none, some, List, [], ◌∷◌, arith,
}
use ucla_bathroom_ratings.Base.Int.{ℤ, pos, negsuc}
use ucla_bathroom_ratings.Store.InMemory.{Objects, find_object, count_object, next_free}
use ucla_bathroom_ratings.Store.Objects.{next_free_enough}
use ucla_bathroom_ratings.Store.Persistent.{
  Directory, Disk, System, ids_in, has_id, lowest_free, ensure_entity_directory, write_file,
  create_file, create_in, create, regular, other, directory, not_directory,
}
use ucla_bathroom_ratings.Base.Map.{lookup_name, lookup_name-insert_name}
use ucla_bathroom_ratings.Base.Decimal.{to_decimal}
use ucla_bathroom_ratings.Store.Validation.{is_valid_entity_name}
use ucla_bathroom_ratings.Store.Disk.{files_of, SameFiles}
use ucla_bathroom_ratings.Store.Writes.{Wrote, write_file-Wrote, ensure-SameFiles}

-- The search is that of the store in memory, over objects without data.
objects_with : List ℤ → Objects
objects_with [] = []
objects_with (id ∷ ids) = (id, []) ∷ objects_with ids

has_id-objects_with : (id : ℤ) (ids : List ℤ) → has_id id ids ≡ count_object id (objects_with ids)
unfolding has_id objects_with count_object find_object
has_id-objects_with id [] = refl
has_id-objects_with id (k ∷ ids) = ground (arith, has_id-objects_with id ids)

lowest_free-next_free :
    (fuel : ℕ) (ids : List ℤ) (n : ℕ) → lowest_free fuel ids n ≡ next_free fuel (objects_with ids) n
unfolding lowest_free next_free
lowest_free-next_free zero ids n = refl
lowest_free-next_free (suc fuel) ids n =
    elim (Bool-cases (count_object (pos n) (objects_with ids))) [
      | inl used ↦
          rw (has_id-objects_with, used, lowest_free, next_free)
            (lowest_free-next_free fuel ids (suc n))
      | inr free ↦ rw (has_id-objects_with, free, lowest_free, next_free) refl
    ]

length-objects_with : (ids : List ℤ) → length (objects_with ids) ≡ length ids
unfolding objects_with
length-objects_with [] = refl
length-objects_with (id ∷ ids) = omega (arith, length-objects_with ids)

length-ids_in : (d : Directory) → length (ids_in d) ≤ length d
unfolding ids_in
length-ids_in [] = omega arith
length-ids_in ((name, other) ∷ d) = omega (arith, length-ids_in d)
length-ids_in ((name, regular text) ∷ d) = ground (arith, length-ids_in d)

-- The lowest number that no file is named by.
pub record IsLowest (d : Directory) (k : ℕ) : Type 0 where
  pub within : k ≤ length d
  pub free : has_id (pos k) (ids_in d) ≡ false
  pub taken : (j : ℕ) → j < k → has_id (pos j) (ids_in d) ≡ true

uncounted : (id : ℤ) (m : Objects) → find_object id m ≡ none → count_object id m ≡ false
unfolding count_object
uncounted id m e = rw (e, count_object)

pub lowest_free_total :
    (d : Directory) → (k : ℕ) × (lowest_free (suc (length d)) (ids_in d) 0 ≡ some k) × IsLowest d k
lowest_free_total d =
    let ids = ids_in d in
    let len = length-objects_with ids in
    let le = length-ids_in d in
    let (k, e, first, bound) =
      next_free_enough (suc (length d)) (objects_with ids) 0 (omega arith) in
    (
      k,
      lowest_free-next_free (suc (length d)) ids 0 ∙ e,
      record {
        within = omega arith;
        free = has_id-objects_with (pos k) ids ∙ uncounted (pos k) (objects_with ids) first.free;
        taken = λ j lt. has_id-objects_with (pos j) ids ∙ first.taken j (omega arith) lt;
      },
    )

-- -1 is returned, or an `int` that is not negative.
abbrev pub IsTold : Disk × ℤ → Type 0
IsTold r = (r.1 ≡ negsuc 0) ⊎ ((k : ℕ) × (k < 2147483648) × (r.1 ≡ pos k))

module _ (sys : System) where
  -- Why `Create` writes nothing.
  pub data IsRefused (disk : Disk) (e : Bytes) : Type 0 where
    bad_name : is_valid_entity_name e ≡ false → IsRefused disk e
    no_directory : (ensure_entity_directory sys disk e).1 ≡ false → IsRefused disk e
    unlisted : sys.can_iterate e ≡ false → IsRefused disk e

  -- The results of `Create`: nothing but perhaps a new directory, with a reason, or the attempt to
  -- write the file that the lowest free number names.
  pub data Allocated (disk : Disk) (e text : Bytes) : Disk × ℤ → Type 0 where
    nothing :
        (disk' : Disk)
        → SameFiles disk disk'
        → IsRefused disk e
        → Allocated disk e text (disk', negsuc 0)
    attempt :
        (disk' : Disk) (k : ℕ) (r : Disk × Bool)
        → SameFiles disk disk'
        → is_valid_entity_name e ≡ true
        → (ensure_entity_directory sys disk e).1 ≡ true
        → sys.can_iterate e ≡ true
        → IsLowest (files_of disk e) k
        → Wrote sys disk' e (to_decimal k) text r
        → Allocated disk e text (r.0, if r.1 then pos k else negsuc 0)

  create_found :
      (disk disk' : Disk) (e text : Bytes) (d : Directory)
      → SameFiles disk disk'
      → is_valid_entity_name e ≡ true
      → (ensure_entity_directory sys disk e).1 ≡ true
      → sys.can_iterate e ≡ true
      → files_of disk' e ≡ d
      → Allocated disk e text
          (create_file sys disk' e text (lowest_free (suc (length d)) (ids_in d) 0))
  unfolding create_file
  create_found disk disk' e text d same_files valid ensured listed at_e =
      let (k, found, lowest) = lowest_free_total d in
      let here : files_of disk e ≡ d = sym (same_files e) ∙ at_e in
      rw (found, create_file)
        (attempt disk' k (write_file sys disk' e (to_decimal k) text) same_files valid ensured
          listed (rw here lowest) (write_file-Wrote sys disk' e (to_decimal k) text))

  false-ne-true : false ≢ true
  false-ne-true e = cc

  -- A directory that was ensured is there.
  ensured_there :
      (disk : Disk) (e : Bytes)
      → (ensure_entity_directory sys disk e).1 ≡ true
      → (d : Directory) × (lookup_name e (ensure_entity_directory sys disk e).0
          ≡ some (directory d))
  unfolding ensure_entity_directory
  ensured_there disk e h = elim (Option-cases (lookup_name e disk)) [
    | inr (directory d, there) ↦ (d, rw (there, ensure_entity_directory) there)
    | inr (not_directory, there) ↦ absurd (false-ne-true (rw (there, ensure_entity_directory) at h))
    | inl missing ↦ elim (Bool-cases (sys.can_create_directory e)) [
      | inr shut ↦ absurd (false-ne-true (rw (missing, ensure_entity_directory, shut) at h))
      | inl free ↦ (
        [],
        rw (missing, ensure_entity_directory)
            (rw free (rw (lookup_name-insert_name, same_self e) refl)),
      )
    ]
  ]

  ensured-Allocated :
      (disk : Disk) (e text : Bytes)
      → is_valid_entity_name e ≡ true
      → (ensure_entity_directory sys disk e).1 ≡ true
      → Allocated disk e text (create_in sys (ensure_entity_directory sys disk e).0 e text)
  unfolding create_in
  ensured-Allocated disk e text valid ensured =
      let disk' = (ensure_entity_directory sys disk e).0 in
      let same_files = ensure-SameFiles sys disk e in
      let (d, there) = ensured_there disk e ensured in
      elim (Bool-cases (sys.can_iterate e)) [
        | inr shut ↦ rw (there, create_in) (rw shut (nothing disk' same_files (unlisted shut)))
        | inl readable ↦
            rw (there, create_in)
              (rw readable (
                create_found disk disk' e text d same_files valid ensured readable (rw there refl)))
      ]

  Allocated-IsTold :
      (disk : Disk) (e text : Bytes) {r : Disk × ℤ}
      → length (files_of disk e) < 2147483648
      → Allocated disk e text r
      → IsTold r
  Allocated-IsTold disk e text room (nothing disk' same_files why) = inl refl
  Allocated-IsTold disk e text room (attempt disk' k r same_files valid ensured listed lowest w) =
      let le = lowest.within in
      elim (Bool-cases r.1) [
        | inr bad ↦ inl (rw bad refl)
        | inl good ↦ inr (k, omega arith, rw good refl)
      ]

  pub allocates : (disk : Disk) (e text : Bytes) → Allocated disk e text (create sys disk e text)
  unfolding create
  allocates disk e text = elim (Bool-cases (is_valid_entity_name e)) [
    | inr invalid ↦ rw invalid (nothing disk (λ e'. refl) (bad_name invalid))
    | inl valid ↦ rw valid (elim (Bool-cases (ensure_entity_directory sys disk e).1) [
      | inr failed ↦ rw failed (
          nothing (ensure_entity_directory sys disk e).0 (ensure-SameFiles sys disk e)
            (no_directory failed))
      | inl ensured ↦ rw ensured (ensured-Allocated disk e text valid ensured)
    ])
  ]

  -- In an entity with fewer than 2^31 files, `Create` does one of two things, whatever the
  -- operating system refuses. Where the entity's name is not valid, or its directory is not there
  -- and cannot be made, or cannot be listed, it returns -1 and changes no file. Where all three
  -- are well it tries to write the file named by the lowest number that names no regular file of
  -- the entity, which is an `int`, and returns that number if the write succeeds, and -1 if it
  -- fails. The search for that number always ends.
  pub create-Allocated :
      (disk : Disk) (e text : Bytes)
      → length (files_of disk e) < 2147483648
      → Allocated disk e text (create sys disk e text) × IsTold (create sys disk e text)
  create-Allocated disk e text room =
      (allocates disk e text, Allocated-IsTold disk e text room (allocates disk e text))
