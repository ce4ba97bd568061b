-- ===== src/Store/Writes.antt =====
-- What the operations of `EntityStorePersistent` (src/entity_store_persistent.cc) that write
-- leave on the disk, whatever the operating system refuses.
use ucla_bathroom_ratings.Base.{
  if◌then◌else◌, Bool-cases, Option-cases, Bytes, same, same_iff, ℕ, ◌<◌, ◌≡◌, refl, sym, ◌∙◌, ◌≢◌,
  inl, inr, Bool, true, false, not, Option, none, some, [], arith,
}
use ucla_bathroom_ratings.Base.Int.{ℤ, IsInt32, pos}
use ucla_bathroom_ratings.Base.Map.{lookup_name, insert_name}
use ucla_bathroom_ratings.Base.Decimal.{to_decimal}
use ucla_bathroom_ratings.Store.Validation.{is_valid_entity_name}
use ucla_bathroom_ratings.Store.Memory.{put}
use ucla_bathroom_ratings.Store.Contract.{SameBut, put_elsewhere}
use ucla_bathroom_ratings.Store.Persistent.{
  Directory, Node, Disk, System, ensure_entity_directory, write_file, regular, other, directory,
  not_directory,
}
use ucla_bathroom_ratings.Store.Disk.{
  files_of, disk_view, IsTidy, files_of-insert, SameFiles, insert-IsTidy, with_text,
  with_text-IsOrderly, text_at-with_text, disk_view-change, files_at, IsTidy-IsOrderly,
}

module _ (sys : System) where
  -- Why a file is not opened: no directory stands there, the name is not a regular file's, or the
  -- operating system refuses.
  pub data IsUnwritable (disk : Disk) (e name : Bytes) : Type 0 where
    no_folder :
        ((d : Directory) → lookup_name e disk ≢ some (directory d)) → IsUnwritable disk e name
    not_file :
        (d : Directory)
        → lookup_name e disk ≡ some (directory d)
        → lookup_name name d ≡ some other
        → IsUnwritable disk e name
    not_opened : sys.can_open_output e name ≡ false → IsUnwritable disk e name

  -- The results of writing a file: nothing done, all written, or a part written.
  pub data Wrote (disk : Disk) (e name text : Bytes) : Disk × Bool → Type 0 where
    refused : IsUnwritable disk e name → Wrote disk e name text (disk, false)
    whole :
        (d : Directory)
        → lookup_name e disk ≡ some (directory d)
        → sys.can_open_output e name ≡ true
        → sys.can_write e name ≡ true
        → Wrote disk e name text
            (insert_name e (directory (insert_name name (regular text) d)) disk, true)
    part :
        (d : Directory)
        → lookup_name e disk ≡ some (directory d)
        → sys.can_open_output e name ≡ true
        → sys.can_write e name ≡ false
        → Wrote disk e name text (
          insert_name e (directory (insert_name name (regular (sys.partial text)) d)) disk,
          false,
        )

  write_opened :
      (disk : Disk) (e name text : Bytes) (d : Directory)
      → lookup_name e disk ≡ some (directory d)
      → Wrote disk e name text (
          if not (sys.can_open_output e name)
          then (disk, false)
          else if sys.can_write e name
          then (insert_name e (directory (insert_name name (regular text) d)) disk, true)
          else (
            insert_name e (directory (insert_name name (regular (sys.partial text)) d)) disk,
            false,
          ))
  write_opened disk e name text d at_e = elim (Bool-cases (sys.can_open_output e name)) [
    | inr shut ↦ rw shut (refused (not_opened shut))
    | inl opened ↦ rw opened (elim (Bool-cases (sys.can_write e name)) [
      | inl good ↦ rw good (whole d at_e opened good)
      | inr bad ↦ rw bad (part d at_e opened bad)
    ])
  ]

  none-ne-some : {d : Directory} → none ≢ some (directory d)
  none-ne-some h = cc

  not_directory-ne : (d : Directory) → some not_directory ≢ some (directory d)
  not_directory-ne d h = cc

  write_in :
      (disk : Disk) (e name text : Bytes) (node : Option Node)
      → lookup_name e disk ≡ node
      → Wrote disk e name text (write_file sys disk e name text)
  unfolding write_file
  write_in disk e name text none at_e =
      rw (at_e, write_file) (refused (no_folder (λ d h. none-ne-some (sym at_e ∙ h))))
  write_in disk e name text (some not_directory) at_e =
      rw (at_e, write_file) (refused (no_folder (λ d h. not_directory-ne d (sym at_e ∙ h))))
  write_in disk e name text (some (directory d)) at_e = elim (Option-cases (lookup_name name d)) [
    | inl missing ↦
        rw (at_e, write_file) (rw (missing, write_file) (write_opened disk e name text d at_e))
    | inr (regular old, there) ↦
        rw (at_e, write_file) (rw (there, write_file) (write_opened disk e name text d at_e))
    | inr (other, there) ↦
        rw (at_e, write_file) (rw (there, write_file) (refused (not_file d at_e there)))
  ]

  pub write_file-Wrote :
      (disk : Disk) (e name text : Bytes) → Wrote disk e name text (write_file sys disk e name text)
  write_file-Wrote disk e name text = write_in disk e name text (lookup_name e disk) refl

  -- Writing the file of an object keeps a disk tidy, also where it fails.
  pub Wrote-IsTidy :
      (disk : Disk) (e : Bytes) (n : ℕ) (text : Bytes) {r : Disk × Bool}
      → n < 2147483648
      → IsTidy disk
      → Wrote disk e (to_decimal n) text r
      → IsTidy r.0
  Wrote-IsTidy disk e n text h t (refused why) = t
  Wrote-IsTidy disk e n text h t (whole d at_e opened good_write) =
      insert-IsTidy disk e (with_text d n text) t
        (with_text-IsOrderly d n text h (IsTidy-IsOrderly disk e d t at_e))
  Wrote-IsTidy disk e n text h t (part d at_e opened bad_write) =
      insert-IsTidy disk e (with_text d n (sys.partial text)) t
        (with_text-IsOrderly d n (sys.partial text) h (IsTidy-IsOrderly disk e d t at_e))

  -- Writing that succeeds changes the data of the object, and nothing else.
  pub Wrote-view :
      (disk : Disk) (e : Bytes) (n : ℕ) (text : Bytes) (e' : Bytes) (j : ℤ) {r : Disk × Bool}
      → n < 2147483648
      → IsInt32 j
      → is_valid_entity_name e ≡ true
      → r.1 ≡ true
      → Wrote disk e (to_decimal n) text r
      → disk_view r.0 e' j ≡ put (disk_view disk) e (pos n) (some text) e' j
  Wrote-view disk e n text e' j h k valid good (refused why) = absurd (ground arith)
  Wrote-view disk e n text e' j h k valid good (part d at_e opened bad_write) =
      absurd (ground arith)
  Wrote-view disk e n text e' j h k valid good (whole d at_e opened good_write) =
      disk_view-change disk e n (with_text d n text) (some text) e' j valid
        (λ m small. rw (files_at disk e d at_e) (text_at-with_text d n m text h small)) k

  -- Writing, however it ends, changes nothing but the data of the object.
  pub Wrote-SameBut :
      (disk : Disk) (e : Bytes) (n : ℕ) (text : Bytes) {r : Disk × Bool}
      → n < 2147483648
      → is_valid_entity_name e ≡ true
      → Wrote disk e (to_decimal n) text r
      → SameBut e (pos n) (disk_view disk) (disk_view r.0)
  Wrote-SameBut disk e n text h valid (refused why) e' j small away = refl
  Wrote-SameBut disk e n text h valid (whole d at_e opened good_write) e' j small away =
      disk_view-change disk e n (with_text d n text) (some text) e' j valid
        (λ m m_small. rw (files_at disk e d at_e) (text_at-with_text d n m text h m_small)) small
      ∙ put_elsewhere (disk_view disk) e (pos n) (some text) e' j away
  Wrote-SameBut disk e n text h valid (part d at_e opened bad_write) e' j small away =
      let left = sys.partial text in
      disk_view-change disk e n (with_text d n left) (some left) e' j valid
        (λ m m_small. rw (files_at disk e d at_e) (text_at-with_text d n m left h m_small)) small
      ∙ put_elsewhere (disk_view disk) e (pos n) (some left) e' j away

  made :
      (disk : Disk) (e e' : Bytes)
      → lookup_name e disk ≡ none
      → files_of (insert_name e (directory []) disk) e' ≡ files_of disk e'
  made disk e e' missing = elim (Bool-cases (same e e')) [
    | inr differs ↦ rw (files_of-insert, differs) refl
    | inl equal ↦ rw (files_of-insert, equal, ← (same_iff e e').0 equal, missing) refl
  ]

  -- `EnsureEntityDirectory` changes no file.
  pub ensure-SameFiles :
      (disk : Disk) (e : Bytes) → SameFiles disk (ensure_entity_directory sys disk e).0
  unfolding ensure_entity_directory
  ensure-SameFiles disk e e' = elim (Option-cases (lookup_name e disk)) [
    | inr (directory d, there) ↦ rw (there, ensure_entity_directory) refl
    | inr (not_directory, there) ↦ rw (there, ensure_entity_directory) refl
    | inl missing ↦ elim (Bool-cases (sys.can_create_directory e)) [
      | inr shut ↦ rw (missing, ensure_entity_directory) (rw shut refl)
      | inl free ↦ rw (missing, ensure_entity_directory) (rw free (made disk e e' missing))
    ]
  ]
