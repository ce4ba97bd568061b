-- ===== src/Store/Disk.antt =====
-- The data root of `EntityStorePersistent` (src/entity_store_persistent.cc): what it stands for,
-- and what the writing of one file changes.
use ucla_bathroom_ratings.Base.{
  ◌==◌, if◌then◌else◌, Bool-cases, Bytes, same, same_iff, ℕ, ◌<◌, ◌≡◌, refl, inl, inr, true, Option,
  none, some, [], arith,
}
use ucla_bathroom_ratings.Base.Int.{ℤ, same_int, IsInt32, pos, negsuc}
use ucla_bathroom_ratings.Base.Map.{
  lookup_name, insert_name, erase_name, lookup_name-insert_name, IsDistinct, lookup_name-erase_name,
  All-insert_name, All-erase_name, insert_name-IsDistinct, erase_name-IsDistinct,
}
use ucla_bathroom_ratings.Base.Decimal.{to_decimal}
use ucla_bathroom_ratings.Store.Validation.{is_valid_entity_name}
use ucla_bathroom_ratings.Store.Memory.{put}
use ucla_bathroom_ratings.Store.Persistent.{Directory, Node, Disk, regular, directory}
use ucla_bathroom_ratings.Store.Names.{same-decimal, IsEntry, AllEntries, text_at}

abbrev pub files_in : Option Node → Directory
files_in (some (directory d)) = d
files_in _ = []

-- The directory of an entity, empty if there is none.
abbrev pub files_of : Disk → Bytes → Directory
files_of disk e = files_in (lookup_name e disk)

-- The data of an entity and an identifier.
unfoldable pub disk_view : Disk → Bytes → ℤ → Option Bytes
disk_view disk e (negsuc k) = none
disk_view disk e (pos n) = if is_valid_entity_name e then text_at (files_of disk e) n else none

pub record IsOrderly (d : Directory) : Type 0 where
  pub entries : AllEntries d
  pub distinct : IsDistinct d

-- In each directory no name stands twice, and each identifier names the file of an object.
unfoldable pub IsTidy : Disk → Type 0
IsTidy disk = (e : Bytes) → IsOrderly (files_of disk e)

pub empty_disk-IsTidy : IsTidy []
unfolding IsTidy lookup_name
empty_disk-IsTidy e = record { entries = tt; distinct = tt }

pub files_of-insert :
    (disk : Disk) (e e' : Bytes) (d : Directory)
    → files_of (insert_name e (directory d) disk) e' ≡ (if same e e' then d else files_of disk e')
files_of-insert disk e e' d = elim (Bool-cases (same e e')) [
  | inl equal ↦ rw (lookup_name-insert_name, equal)
  | inr differs ↦ rw (lookup_name-insert_name, differs)
]

-- Disks with the same files.
abbrev pub SameFiles : Disk → Disk → Type 0
SameFiles disk disk' = (e : Bytes) → files_of disk' e ≡ files_of disk e

pub disk_view-SameFiles :
    (disk disk' : Disk) (e : Bytes) (id : ℤ)
    → SameFiles disk disk'
    → disk_view disk' e id ≡ disk_view disk e id
unfolding disk_view
disk_view-SameFiles disk disk' e (negsuc k) h = refl
disk_view-SameFiles disk disk' e (pos n) h = rw (h e)

pub IsTidy-SameFiles : (disk disk' : Disk) → SameFiles disk disk' → IsTidy disk → IsTidy disk'
unfolding IsTidy
IsTidy-SameFiles disk disk' h t e = rw (h e) (t e)

-- A tidy disk with one directory given anew.
pub insert-IsTidy :
    (disk : Disk) (e : Bytes) (d : Directory)
    → IsTidy disk
    → IsOrderly d
    → IsTidy (insert_name e (directory d) disk)
unfolding IsTidy
insert-IsTidy disk e d t h e' = elim (Bool-cases (same e e')) [
  | inl equal ↦ rw (files_of-insert, equal) h
  | inr differs ↦ rw (files_of-insert, differs) (t e')
]

-- The file of an object, written.
abbrev pub with_text : Directory → ℕ → Bytes → Directory
with_text d n text = insert_name (to_decimal n) (regular text) d

pub with_text-IsOrderly :
    (d : Directory) (n : ℕ) (text : Bytes)
    → n < 2147483648
    → IsOrderly d
    → IsOrderly (with_text d n text)
with_text-IsOrderly d n text h o = record {
  entries =
      All-insert_name IsEntry (to_decimal n) (regular text) d
        (inr (record { id = n; id_small = h; named = refl; text = text; is_file = refl }))
        o.entries;
  distinct = insert_name-IsDistinct (to_decimal n) (regular text) d o.distinct;
}

pub erase-IsOrderly : (d : Directory) (name : Bytes) → IsOrderly d → IsOrderly (erase_name name d)
erase-IsOrderly d name o = record {
  entries = All-erase_name IsEntry name d o.entries;
  distinct = erase_name-IsDistinct name d o.distinct;
}

pub text_at-with_text :
    (d : Directory) (n m : ℕ) (text : Bytes)
    → n < 2147483648
    → m < 2147483648
    → text_at (with_text d n text) m ≡ (if n == m then some text else text_at d m)
text_at-with_text d n m text h k = elim (Bool-cases (n == m)) [
  | inl equal ↦ rw (lookup_name-insert_name, same-decimal n m h k, equal)
  | inr differs ↦ rw (lookup_name-insert_name, same-decimal n m h k, differs)
]

pub text_at-erase :
    (d : Directory) (n m : ℕ)
    → n < 2147483648
    → m < 2147483648
    → IsDistinct d
    → text_at (erase_name (to_decimal n) d) m ≡ (if n == m then none else text_at d m)
text_at-erase d n m h k distinct = elim (Bool-cases (n == m)) [
  | inl equal ↦
      rw (
        lookup_name-erase_name (to_decimal n) (to_decimal m) d distinct,
        same-decimal n m h k,
        equal,
      )
  | inr differs ↦ rw (
    lookup_name-erase_name (to_decimal n) (to_decimal m) d distinct,
    same-decimal n m h k,
    differs,
  )
]

-- A change of one file, as a change of the view.
pub disk_view-change :
    (disk : Disk) (e : Bytes) (n : ℕ) (d : Directory) (changed : Option Bytes) (e' : Bytes) (j : ℤ)
    → is_valid_entity_name e ≡ true
    → ((m : ℕ)
        → m < 2147483648
        → text_at d m ≡ (if n == m then changed else text_at (files_of disk e) m))
    → IsInt32 j
    → disk_view (insert_name e (directory d) disk) e' j
      ≡ put (disk_view disk) e (pos n) changed e' j
unfolding disk_view same_int
disk_view-change disk e n d changed e' (negsuc k) valid h r = ground arith
disk_view-change disk e n d changed e' (pos m) valid h r = elim (Bool-cases (same e e')) [
  | inr differs ↦ rw (files_of-insert, differs) refl
  | inl equal ↦ rw (files_of-insert, equal, ← (same_iff e e').0 equal, valid) (h m r)
]

pub files_at :
    (disk : Disk) (e : Bytes) (d : Directory)
    → lookup_name e disk ≡ some (directory d)
    → files_of disk e ≡ d
files_at disk e d at_e = rw at_e refl

pub IsTidy-IsOrderly :
    (disk : Disk) (e : Bytes) (d : Directory)
    → IsTidy disk
    → lookup_name e disk ≡ some (directory d)
    → IsOrderly d
unfolding IsTidy
IsTidy-IsOrderly disk e d t at_e = rw (files_at disk e d at_e) at (t e)

pub entries_of : (disk : Disk) (e : Bytes) → IsTidy disk → AllEntries (files_of disk e)
unfolding IsTidy
entries_of disk e t = (t e).entries
