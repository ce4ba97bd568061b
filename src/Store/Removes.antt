-- ===== src/Store/Removes.antt =====
-- `Delete` of `EntityStorePersistent` (src/entity_store_persistent.cc) and what the disk then
-- stands for, and the numbers that name no file.
use ucla_bathroom_ratings.Base.{
  if◌then◌else◌, Bool-cases, Option-cases, Bytes, ℕ, ◌<◌, ◌≡◌, refl, sym, ap, ◌∙◌, ◌≢◌, inl, inr,
  true, false, not, ◌||◌, none, some,
}
use ucla_bathroom_ratings.Base.Int.{ℤ, is_negative, IsInt32, pos, negsuc}
use ucla_bathroom_ratings.Base.Map.{lookup_name, insert_name, erase_name}
use ucla_bathroom_ratings.Base.Decimal.{to_decimal, int_to_string}
use ucla_bathroom_ratings.Store.Validation.{is_valid_entity_name}
use ucla_bathroom_ratings.Store.Memory.{put, is_found}
use ucla_bathroom_ratings.Store.Persistent.{
  Directory, Disk, System, ids_in, has_id, remove_in, delete, directory, not_directory,
}
use ucla_bathroom_ratings.Store.Names.{AllEntries, text_at, has_id-text_at, text_at-none}
use ucla_bathroom_ratings.Store.Disk.{
  files_of, disk_view, IsTidy, insert-IsTidy, erase-IsOrderly, text_at-erase, disk_view-change,
  files_at, IsTidy-IsOrderly, entries_of,
}

found-ne-none : {A : Type 0} (a : A) → some a ≢ none
found-ne-none a e = cc

pub false-ne-true : false ≢ true
false-ne-true e = cc

pub true-ne-false : true ≢ false
true-ne-false e = cc

pub free_text :
    (disk : Disk) (e : Bytes) (k : ℕ)
    → IsTidy disk
    → k < 2147483648
    → has_id (pos k) (ids_in (files_of disk e)) ≡ false
    → text_at (files_of disk e) k ≡ none
free_text disk e k t h free =
    let found = has_id-text_at (files_of disk e) k h (entries_of disk e t) in
    elim (Option-cases (text_at (files_of disk e) k)) [
      | inl missing ↦ missing
      | inr (text, there) ↦ absurd (false-ne-true (sym free ∙ found ∙ ap is_found there))
    ]

pub free_view :
    (disk : Disk) (e : Bytes) (k : ℕ)
    → IsTidy disk
    → k < 2147483648
    → has_id (pos k) (ids_in (files_of disk e)) ≡ false
    → disk_view disk e (pos k) ≡ none
unfolding disk_view
free_view disk e k t h free = elim (Bool-cases (is_valid_entity_name e)) [
  | inl valid ↦ rw valid (free_text disk e k t h free)
  | inr invalid ↦ rw invalid refl
]

module _ (sys : System) where
  removed_view :
      (disk : Disk) (e : Bytes) (n : ℕ) (d : Directory) (e' : Bytes) (j : ℤ)
      → IsTidy disk
      → n < 2147483648
      → IsInt32 j
      → is_valid_entity_name e ≡ true
      → lookup_name e disk ≡ some (directory d)
      → disk_view (insert_name e (directory (erase_name (to_decimal n) d)) disk) e' j
        ≡ put (disk_view disk) e (pos n) none e' j
  removed_view disk e n d e' j t h r valid there =
      disk_view-change disk e n (erase_name (to_decimal n) d) none e' j valid
        (λ m small.
          rw (files_at disk e d there)
            (text_at-erase d n m h small (IsTidy-IsOrderly disk e d t there).distinct))
        r

  -- What `Delete` does to a name.
  remove_file :
      (disk : Disk) (e : Bytes) (n : ℕ) (e' : Bytes) (j : ℤ)
      → IsTidy disk
      → n < 2147483648
      → IsInt32 j
      → is_valid_entity_name e ≡ true
      → disk_view (remove_in sys disk e (to_decimal n) (lookup_name e disk)).0 e' j ≡ (
          if (remove_in sys disk e (to_decimal n) (lookup_name e disk)).1
          then put (disk_view disk) e (pos n) none e' j
          else disk_view disk e' j)
  unfolding remove_in
  remove_file disk e n e' j t h r valid = elim (Option-cases (lookup_name e disk)) [
    | inl missing ↦ rw (missing, remove_in) refl
    | inr (not_directory, there) ↦ rw (there, remove_in) refl
    | inr (directory d, there) ↦ elim (Option-cases (lookup_name (to_decimal n) d)) [
      | inl missing ↦ rw (there, remove_in) (rw (missing, remove_in) refl)
      | inr (item, found) ↦ elim (Bool-cases (sys.can_remove e (to_decimal n))) [
        | inr kept ↦ rw (there, remove_in) (rw (found, remove_in) (rw kept refl))
        | inl removed ↦
            rw (there, remove_in)
              (rw (found, remove_in) (rw removed (removed_view disk e n d e' j t h r valid there)))
      ]
    ]
  ]

  pub delete_view :
      (disk : Disk) (e : Bytes) (id : ℤ) (e' : Bytes) (j : ℤ)
      → IsTidy disk
      → IsInt32 id
      → IsInt32 j
      → disk_view (delete sys disk e id).0 e' j ≡ (
          if (delete sys disk e id).1
          then put (disk_view disk) e id none e' j
          else disk_view disk e' j)
  unfolding delete int_to_string
  delete_view disk e (negsuc k) e' j t h r = refl
  delete_view disk e (pos n) e' j t h r = elim (Bool-cases (is_valid_entity_name e)) [
    | inr invalid ↦ rw invalid refl
    | inl valid ↦ rw valid (remove_file disk e n e' j t h r valid)
  ]

  remove_missing :
      (disk : Disk) (e : Bytes) (n : ℕ)
      → AllEntries (files_of disk e)
      → n < 2147483648
      → text_at (files_of disk e) n ≡ none
      → (remove_in sys disk e (to_decimal n) (lookup_name e disk)).1 ≡ false
  unfolding remove_in
  remove_missing disk e n es h free = elim (Option-cases (lookup_name e disk)) [
    | inl missing ↦ rw (missing, remove_in) refl
    | inr (not_directory, there) ↦ rw (there, remove_in) refl
    | inr (directory d, there) ↦ elim (Option-cases (lookup_name (to_decimal n) d)) [
      | inl missing ↦ rw (there, remove_in) (rw (missing, remove_in) refl)
      | inr (item, found) ↦ absurd (
          found-ne-none item (
            sym found
            ∙ text_at-none d n h (rw (files_at disk e d there) at es)
                (rw (files_at disk e d there) at free)))
    ]
  ]

  pub delete_missing :
      (disk : Disk) (e : Bytes) (id : ℤ)
      → IsTidy disk
      → IsInt32 id
      → disk_view disk e id ≡ none
      → (delete sys disk e id).1 ≡ false
  unfolding delete int_to_string disk_view
  delete_missing disk e (negsuc k) t h free = refl
  delete_missing disk e (pos n) t h free = elim (Bool-cases (is_valid_entity_name e)) [
    | inr invalid ↦ rw invalid refl
    | inl valid ↦ rw valid (remove_missing disk e n (entries_of disk e t) h (rw valid at free))
  ]

  pub remove-IsTidy :
      (disk : Disk) (e name : Bytes)
      → IsTidy disk
      → IsTidy (remove_in sys disk e name (lookup_name e disk)).0
  unfolding remove_in
  remove-IsTidy disk e name t = elim (Option-cases (lookup_name e disk)) [
    | inl missing ↦ rw (missing, remove_in) t
    | inr (not_directory, there) ↦ rw (there, remove_in) t
    | inr (directory d, there) ↦ elim (Option-cases (lookup_name name d)) [
      | inl missing ↦ rw (there, remove_in) (rw (missing, remove_in) t)
      | inr (item, found) ↦ elim (Bool-cases (sys.can_remove e name)) [
        | inr kept ↦ rw (there, remove_in) (rw (found, remove_in) (rw kept t))
        | inl removed ↦
            rw (there, remove_in)
              (rw (found, remove_in)
                (rw removed (
                  insert-IsTidy disk e (erase_name name d) t
                    (erase-IsOrderly d name (IsTidy-IsOrderly disk e d t there)))))
      ]
    ]
  ]

  pub delete-IsTidy :
      (disk : Disk) (e : Bytes) (id : ℤ) → IsTidy disk → IsTidy (delete sys disk e id).0
  unfolding delete
  delete-IsTidy disk e id t = elim (Bool-cases (is_negative id || not (is_valid_entity_name e))) [
    | inl wrong ↦ rw wrong t
    | inr right ↦ rw right (remove-IsTidy disk e (int_to_string id) t)
  ]
  -- The disk on which `Update` writes.
