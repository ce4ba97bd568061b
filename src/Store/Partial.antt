-- ===== src/Store/Partial.antt =====
-- A `Create` of `EntityStorePersistent` (src/entity_store_persistent.cc) whose file opens and
-- whose write then fails, as on a disk that is full.
use mathlib.Core.List.{Mem}
use ucla_bathroom_ratings.Base.{
  length, Bytes, same_self, ℕ, suc, ◌<◌, ◌≡◌, refl, ap, ◌∙◌, true, false, Option, none, some, arith,
}
use ucla_bathroom_ratings.Base.Int.{ℤ, same_int_self, pos, negsuc}
use ucla_bathroom_ratings.Base.Map.{lookup_name, insert_name}
use ucla_bathroom_ratings.Base.Decimal.{to_decimal}
use ucla_bathroom_ratings.Store.Validation.{is_valid_entity_name}
use ucla_bathroom_ratings.Store.Persistent.{
  Directory, Disk, System, ids_in, has_id, lowest_free, ensure_entity_directory, write_file,
  create_file, create_in, create, read, list, regular, directory,
}
use ucla_bathroom_ratings.Store.Disk.{
  files_of, disk_view, IsTidy, insert-IsTidy, with_text, with_text-IsOrderly, text_at-with_text,
  disk_view-change, files_at, IsTidy-IsOrderly,
}
use ucla_bathroom_ratings.Store.Durable.{IsReadable, DiskHasRoom, read-disk_view, list_ids}
use ucla_bathroom_ratings.Store.Allocation.{lowest_free_total}
use ucla_bathroom_ratings.Store.Removes.{free_view}
use ucla_bathroom_ratings.Store.Race.{free_name}
use ucla_bathroom_ratings.Store.DiskContract.{persistent-Contract}

module _ (sys : System) where
  -- The files of the entity open for writing, and then nothing can be written.
  pub record IsFull (e : Bytes) : Type 0 where
    pub opens : (name : Bytes) → sys.can_open_output e name ≡ true
    pub fails : (name : Bytes) → sys.can_write e name ≡ false

  write_part :
      (disk : Disk) (e name text : Bytes) (d : Directory)
      → IsFull e
      → lookup_name e disk ≡ some (directory d)
      → lookup_name name d ≡ none
      → write_file sys disk e name text
        ≡ (insert_name e (directory (insert_name name (regular (sys.partial text)) d)) disk, false)
  unfolding write_file
  write_part disk e name text d full there missing =
      rw (there, write_file) (rw (missing, write_file) (rw (full.opens name, full.fails name) refl))

  ensure_there :
      (disk : Disk) (e : Bytes) (d : Directory)
      → lookup_name e disk ≡ some (directory d)
      → ensure_entity_directory sys disk e ≡ (disk, true)
  unfolding ensure_entity_directory
  ensure_there disk e d there = rw (there, ensure_entity_directory)

  pub create_there :
      (disk : Disk) (e text : Bytes) (d : Directory) (k : ℕ)
      → sys.can_iterate e ≡ true
      → is_valid_entity_name e ≡ true
      → lookup_name e disk ≡ some (directory d)
      → lowest_free (suc (length d)) (ids_in d) 0 ≡ some k
      → create sys disk e text ≡ create_file sys disk e text (some k)
  unfolding create create_in
  create_there disk e text d k iterates valid there found =
      rw (valid, ensure_there disk e d there) (rw (there, create_in) (rw (iterates, found) refl))

  create_part :
      (disk disk' : Disk) (e text : Bytes) (k : ℕ)
      → write_file sys disk e (to_decimal k) text ≡ (disk', false)
      → create_file sys disk e text (some k) ≡ (disk', negsuc 0)
  unfolding create_file
  create_part disk disk' e text k written = rw written refl

  -- `Create` failed, and yet there is a new object with what was written before the failure.
  pub record LeavesPart (disk : Disk) (e text : Bytes) : Type 0 where
    pub id : ℕ
    pub was_missing : (read sys disk e (pos id)).1 ≡ none
    pub refused : (create sys disk e text).1 ≡ negsuc 0
    pub shown : (read sys (create sys disk e text).0 e (pos id)).1 ≡ some (sys.partial text)
    pub listed : Mem (pos id) (list sys (create sys disk e text).0 e).1

  -- A `Create` that fails to write leaves an object behind: where the directories can be listed
  -- and the files read, on a tidy disk, in an entity with a valid name, a directory and room,
  -- whose files open for writing and whose writes fail, `Create` returns -1, and then an
  -- identifier for which `Read` gave nothing before is listed, and `Read` gives for it the part
  -- of the data that was written.
  pub create-LeavesPart :
      (disk : Disk) (e text : Bytes) (d : Directory)
      → IsReadable sys
      → IsFull e
      → IsTidy disk
      → DiskHasRoom disk e
      → is_valid_entity_name e ≡ true
      → lookup_name e disk ≡ some (directory d)
      → LeavesPart disk e text
  create-LeavesPart disk e text d readable full t room valid there =
      let (k, found, lowest) = lowest_free_total d in
      let le = lowest.within in
      let at_e = files_at disk e d there in
      let small : k < 2147483648 =
        let count = ap (λ (x : Directory). length x) at_e in omega arith in
      let free : has_id (pos k) (ids_in (files_of disk e)) ≡ false = rw at_e lowest.free in
      let disk' = insert_name e (directory (with_text d k (sys.partial text))) disk in
      let does : create sys disk e text ≡ (disk', negsuc 0) =
        create_there disk e text d k (readable.iterates e) valid there found
        ∙ create_part disk disk' e text k (
            write_part disk e (to_decimal k) text d full there
              (free_name disk e d k t small there free)) in
      let view' : disk_view disk' e (pos k) ≡ some (sys.partial text) =
        disk_view-change disk e k (with_text d k (sys.partial text)) (some (sys.partial text)) e
          (pos k) valid
          (λ m m_small. rw at_e (text_at-with_text d k m (sys.partial text) small m_small)) small
        ∙ rw (same_self e, same_int_self (pos k)) refl in
      let contract = persistent-Contract sys readable in
      let tidy' : IsTidy disk' =
        insert-IsTidy disk e (with_text d k (sys.partial text)) t
          (with_text-IsOrderly d k (sys.partial text) small (IsTidy-IsOrderly disk e d t there)) in
      record {
        id = k;
        was_missing =
            ap (λ (x : Disk × Option Bytes). x.1) (read-disk_view sys readable disk e (pos k))
            ∙ free_view disk e k t small free;
        refused = ap (λ (x : Disk × ℤ). x.1) does;
        shown =
            ap (λ (x : Disk × ℤ). (read sys x.0 e (pos k)).1) does
            ∙ ap (λ (x : Disk × Option Bytes). x.1) (read-disk_view sys readable disk' e (pos k))
            ∙ view';
        listed = rw does ((list_ids sys readable disk' e (pos k) tidy' small).1 (rw view' refl));
      }
