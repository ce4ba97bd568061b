-- ===== src/Store/Race.antt =====
-- Two calls of `EntityStorePersistent::Create` (src/entity_store_persistent.cc) on two of the
-- threads that src/server_main.cc starts. The store has no lock: each call scans the directory,
-- and later writes its file.
use ucla_bathroom_ratings.Base.{
  if◌then◌else◌, Option-cases, length, Bytes, same_self, ℕ, suc, ◌<◌, ◌≡◌, refl, sym, ◌∙◌, ◌≢◌, inl,
  inr, true, false, not, Option, none, some, arith,
}
use ucla_bathroom_ratings.Base.Int.{ℤ, pos}
use ucla_bathroom_ratings.Base.Map.{lookup_name, insert_name, lookup_name-insert_name}
use ucla_bathroom_ratings.Store.Persistent.{
  Directory, Disk, System, ids_in, has_id, lowest_free, write_file, create_file, regular, other,
  directory,
}
use ucla_bathroom_ratings.Store.Disk.{files_of, disk_view, IsTidy, with_text, files_at, entries_of}
use ucla_bathroom_ratings.Base.Decimal.{to_decimal}
use ucla_bathroom_ratings.Store.Validation.{is_valid_entity_name}
use ucla_bathroom_ratings.Store.Allocation.{lowest_free_total}
use ucla_bathroom_ratings.Store.Removes.{free_text, free_view}
use ucla_bathroom_ratings.Store.Durable.{DiskHasRoom}
use ucla_bathroom_ratings.Store.Names.{text_at-none}

module _ (sys : System) where
  -- What the loops over the directory and the counter find; `none` where the directory cannot be
  -- listed, and `create_file` then returns -1.
  unfoldable pub scan : Disk → Bytes → Option ℕ
  scan disk e =
      let d = files_of disk e in
      if not (sys.can_iterate e) then none else lowest_free (suc (length d)) (ids_in d) 0

  -- Both scan before either writes. The name is valid and the directory there, so that what
  -- `Create` does before that changes nothing.
  unfoldable pub create_both : Disk → Bytes → Bytes → Bytes → Disk × ℤ × ℤ
  create_both disk e a b =
      let found = scan disk e in
      let (disk', first) = create_file sys disk e a found in
      let (disk'', second) = create_file sys disk' e b found in (disk'', first, second)

pub free_name :
    (disk : Disk) (e : Bytes) (d : Directory) (k : ℕ)
    → IsTidy disk
    → k < 2147483648
    → lookup_name e disk ≡ some (directory d)
    → has_id (pos k) (ids_in (files_of disk e)) ≡ false
    → lookup_name (to_decimal k) d ≡ none
free_name disk e d k t small there free =
    let at_e = files_at disk e d there in
    let unread = free_text disk e k t small free in
    let es = entries_of disk e t in text_at-none d k small (rw at_e at es) (rw at_e at unread)

-- What the operating system needs to let happen to one file.
pub record IsWritable (sys : System) (e name : Bytes) : Type 0 where
  pub opens : sys.can_open_output e name ≡ true
  pub writes : sys.can_write e name ≡ true

module _ (sys : System) where
  pub write_whole :
      (disk : Disk) (e name text : Bytes) (d : Directory)
      → IsWritable sys e name
      → lookup_name e disk ≡ some (directory d)
      → lookup_name name d ≢ some other
      → write_file sys disk e name text
        ≡ (insert_name e (directory (insert_name name (regular text) d)) disk, true)
  unfolding write_file
  write_whole disk e name text d w there ne = elim (Option-cases (lookup_name name d)) [
    | inl missing ↦ rw (there, write_file) (rw (missing, write_file) (rw (w.opens, w.writes) refl))
    | inr (regular old, found) ↦
        rw (there, write_file) (rw (found, write_file) (rw (w.opens, w.writes) refl))
    | inr (other, found) ↦ absurd (ne found)
  ]

  -- Two calls were told the same identifier, and the data of the first is gone.
  pub record IsLost (disk : Disk) (e b : Bytes) (r : Disk × ℤ × ℤ) : Type 0 where
    pub id : ℕ
    pub was_free : disk_view disk e (pos id) ≡ none
    pub first_told : r.1 ≡ pos id
    pub second_told : r.2 ≡ pos id
    pub only_second : disk_view r.0 e (pos id) ≡ some b

  regular-ne-other : (text : Bytes) → some (regular text) ≢ some other
  regular-ne-other text e = cc

  pub none-ne-other : none ≢ some other
  none-ne-other e = cc

  pub create_whole :
      (disk disk' : Disk) (e text : Bytes) (k : ℕ)
      → write_file sys disk e (to_decimal k) text ≡ (disk', true)
      → create_file sys disk e text (some k) ≡ (disk', pos k)
  unfolding create_file
  create_whole disk disk' e text k written = rw written refl

  both_lem :
      (disk disk' disk'' : Disk) (e a b : Bytes) (k : ℕ)
      → scan sys disk e ≡ some k
      → create_file sys disk e a (some k) ≡ (disk', pos k)
      → create_file sys disk' e b (some k) ≡ (disk'', pos k)
      → create_both sys disk e a b ≡ (disk'', pos k, pos k)
  unfolding create_both
  both_lem disk disk' disk'' e a b k found first second = rw (found, first, second) refl

  overwritten :
      (disk : Disk) (e a b : Bytes) (d : Directory) (k : ℕ)
      → ((name : Bytes) → IsWritable sys e name)
      → is_valid_entity_name e ≡ true
      → lookup_name e disk ≡ some (directory d)
      → lookup_name (to_decimal k) d ≡ none
      → k < 2147483648
      → disk_view disk e (pos k) ≡ none
      → scan sys disk e ≡ some k
      → IsLost disk e b (create_both sys disk e a b)
  unfolding disk_view
  overwritten disk e a b d k w valid there free small unseen found =
      let name = to_decimal k in
      let d' = with_text d k a in
      let disk' = insert_name e (directory d') disk in
      let d'' = with_text d' k b in
      let first : write_file sys disk e name a ≡ (disk', true) =
        write_whole disk e name a d (w name) there (λ h. none-ne-other (sym free ∙ h)) in
      let there' : lookup_name e disk' ≡ some (directory d') =
        rw (lookup_name-insert_name, same_self e) refl in
      let held : lookup_name name d' ≡ some (regular a) =
        rw (lookup_name-insert_name, same_self name) refl in
      let second : write_file sys disk' e name b ≡ (insert_name e (directory d'') disk', true) =
        write_whole disk' e name b d' (w name) there' (λ h. regular-ne-other a (sym held ∙ h)) in
      rw
        (both_lem disk disk' (insert_name e (directory d'') disk') e a b k found
          (create_whole disk disk' e a k first)
          (create_whole disk' (insert_name e (directory d'') disk') e b k second))
        (record {
          id = k;
          was_free = unseen;
          first_told = refl;
          second_told = refl;
          only_second =
              rw
                (
                  valid,
                  lookup_name-insert_name,
                  same_self e,
                  lookup_name-insert_name,
                  same_self (to_decimal k),
                )
                refl;
        })

  -- In an entity with a directory that can be listed and with room, on a tidy disk on which every file of the entity
  -- can be written, two calls of `Create` that both scan before either writes return the same
  -- identifier, which was free, and what the first one stored is lost.
  pub create_both-IsLost :
      (disk : Disk) (e a b : Bytes) (d : Directory)
      → ((name : Bytes) → IsWritable sys e name)
      → sys.can_iterate e ≡ true
      → IsTidy disk
      → DiskHasRoom disk e
      → is_valid_entity_name e ≡ true
      → lookup_name e disk ≡ some (directory d)
      → IsLost disk e b (create_both sys disk e a b)
  unfolding scan
  create_both-IsLost disk e a b d w listed t room valid there =
      let (k, found, lowest) = lowest_free_total (files_of disk e) in
      let le = lowest.within in
      let small : k < 2147483648 = omega arith in
      overwritten disk e a b d k w valid there (free_name disk e d k t small there lowest.free)
        small (free_view disk e k t small lowest.free) (rw listed found)
