-- ===== src/Store/FileCount.antt =====
-- How many files a call of `EntityStorePersistent` (src/entity_store_persistent.cc) adds to an
-- entity.
use ucla_bathroom_ratings.Base.{
  Bool-cases, Option-cases, length, Bytes, same, same_iff, ℕ, suc, ◌≤◌, ◌≡◌, inl, inr, Bool, not,
  ◌||◌, some, List, [], ◌∷◌, arith,
}
use ucla_bathroom_ratings.Base.Int.{ℤ, is_negative}
use ucla_bathroom_ratings.Base.Map.{lookup_name, insert_name, erase_name}
use ucla_bathroom_ratings.Base.Decimal.{to_decimal, int_to_string}
use ucla_bathroom_ratings.Store.Validation.{is_valid_entity_name}
use ucla_bathroom_ratings.Store.Persistent.{
  Directory, Disk, System, ensure_entity_directory, read, update, remove_in, delete, list,
  persistent, regular, directory, not_directory,
}
use ucla_bathroom_ratings.Store.Disk.{files_of, files_of-insert, SameFiles}
use ucla_bathroom_ratings.Store.Writes.{
  Wrote, write_file-Wrote, ensure-SameFiles, refused, whole, part,
}
use ucla_bathroom_ratings.Store.Allocation.{Allocated, allocates, nothing, attempt}
use ucla_bathroom_ratings.Store.Calls.{StoreCall, call, creates, reads, updates, deletes, lists}

length-insert_name :
    {V : Type 0} (k : Bytes) (v : V) (m : List (Bytes × V))
    → length (insert_name k v m) ≤ suc (length m)
unfolding insert_name
length-insert_name k v [] = omega arith
length-insert_name k v ((j, w) ∷ m) = ground (arith, length-insert_name k v m)

length-erase_name :
    {V : Type 0} (k : Bytes) (m : List (Bytes × V)) → length (erase_name k m) ≤ length m
unfolding erase_name
length-erase_name k [] = omega arith
length-erase_name k ((j, w) ∷ m) = ground (arith, length-erase_name k m)

-- How many files the directory of an entity has.
abbrev pub file_count : Disk → Bytes → ℕ
file_count disk e = length (files_of disk e)

-- No entity has more than one file more.
abbrev pub AddsAtMostOne : Disk → Disk → Type 0
AddsAtMostOne disk disk' = (e : Bytes) → file_count disk' e ≤ suc (file_count disk e)

one-insert :
    (disk : Disk) (e : Bytes) (d d' : Directory)
    → lookup_name e disk ≡ some (directory d)
    → length d' ≤ suc (length d)
    → AddsAtMostOne disk (insert_name e (directory d') disk)
one-insert disk e d d' at_e le e' = elim (Bool-cases (same e e')) [
  | inr differs ↦ rw (files_of-insert, differs) (omega arith)
  | inl equal ↦ rw (files_of-insert, equal, ← (same_iff e e').0 equal, at_e) le
]

same-AddsAtMostOne : (disk disk' : Disk) → SameFiles disk disk' → AddsAtMostOne disk disk'
same-AddsAtMostOne disk disk' h e = rw (h e) (omega arith)

module _ (sys : System) where
  Wrote-AddsAtMostOne :
      (disk : Disk) (e name text : Bytes) {r : Disk × Bool}
      → Wrote sys disk e name text r
      → AddsAtMostOne disk r.0
  Wrote-AddsAtMostOne disk e name text (refused why) e' = omega arith
  Wrote-AddsAtMostOne disk e name text (whole d at_e opened good) e' =
      one-insert disk e d (insert_name name (regular text) d) at_e (length-insert_name _ _ d) e'
  Wrote-AddsAtMostOne disk e name text (part d at_e opened bad) e' =
      one-insert disk e d (insert_name name (regular (sys.partial text)) d) at_e
        (length-insert_name _ _ d) e'

  Allocated-AddsAtMostOne :
      (disk : Disk) (e text : Bytes) {r : Disk × ℤ}
      → Allocated sys disk e text r
      → AddsAtMostOne disk r.0
  Allocated-AddsAtMostOne disk e text (nothing disk' same_files why) e' =
      same-AddsAtMostOne disk disk' same_files e'
  Allocated-AddsAtMostOne disk e text
        (attempt disk' k r same_files valid ensured list_ok lowest written) e' =
      rw (← same_files e') (Wrote-AddsAtMostOne disk' e (to_decimal k) text written e')

  update-AddsAtMostOne :
      (disk : Disk) (e : Bytes) (id : ℤ) (text : Bytes)
      → AddsAtMostOne disk (update sys disk e id text).0
  unfolding update
  update-AddsAtMostOne disk e id text e' =
      let disk' = (ensure_entity_directory sys disk e).0 in
      let same_files = ensure-SameFiles sys disk e in
      elim (Bool-cases (is_negative id || not (is_valid_entity_name e))) [
        | inl wrong ↦ rw wrong (omega arith)
        | inr right ↦ rw right (elim (Bool-cases (ensure_entity_directory sys disk e).1) [
          | inr failed ↦ rw failed (same-AddsAtMostOne disk disk' same_files e')
          | inl ensured ↦
              rw (ensured, ← same_files e')
                (Wrote-AddsAtMostOne disk' e (int_to_string id) text
                  (write_file-Wrote sys disk' e (int_to_string id) text) e')
        ])
      ]

  remove-AddsAtMostOne :
      (disk : Disk) (e name : Bytes)
      → AddsAtMostOne disk (remove_in sys disk e name (lookup_name e disk)).0
  unfolding remove_in
  remove-AddsAtMostOne disk e name e' = elim (Option-cases (lookup_name e disk)) [
    | inl missing ↦ rw (missing, remove_in) (omega arith)
    | inr (not_directory, there) ↦ rw (there, remove_in) (omega arith)
    | inr (directory d, there) ↦ elim (Option-cases (lookup_name name d)) [
      | inl missing ↦ rw (there, remove_in) (rw (missing, remove_in) (omega arith))
      | inr (item, found) ↦ elim (Bool-cases (sys.can_remove e name)) [
        | inr kept ↦ rw (there, remove_in) (rw (found, remove_in) (rw kept (omega arith)))
        | inl removed ↦
            let le = length-erase_name name d in
            rw (there, remove_in)
              (rw (found, remove_in)
                (rw removed (one-insert disk e d (erase_name name d) there (omega arith) e')))
      ]
    ]
  ]

  delete-AddsAtMostOne :
      (disk : Disk) (e : Bytes) (id : ℤ) → AddsAtMostOne disk (delete sys disk e id).0
  unfolding delete
  delete-AddsAtMostOne disk e id e' =
      elim (Bool-cases (is_negative id || not (is_valid_entity_name e))) [
        | inl wrong ↦ rw wrong (omega arith)
        | inr right ↦ rw right (remove-AddsAtMostOne disk e (int_to_string id) e')
      ]

  pub call-AddsAtMostOne :
      (c : StoreCall) (disk : Disk) → AddsAtMostOne disk (call (persistent sys) c disk).0
  unfolding call persistent read list
  call-AddsAtMostOne (creates e d) disk e' =
      Allocated-AddsAtMostOne disk e d (allocates sys disk e d) e'
  call-AddsAtMostOne (reads e id) disk e' = ground arith
  call-AddsAtMostOne (updates e id d) disk e' = update-AddsAtMostOne disk e id d e'
  call-AddsAtMostOne (deletes e id) disk e' = delete-AddsAtMostOne disk e id e'
  call-AddsAtMostOne (lists e) disk e' = ground arith
