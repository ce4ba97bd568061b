-- ===== src/Store/Durable.antt =====
-- What `Read` and `List` of `EntityStorePersistent` (src/entity_store_persistent.cc) answer, if the
-- operating system lets them read what stands on the disk.
use mathlib.Core.List.{Mem, not-mem-nil, mem-cons}
use mathlib.Core.List.Perm
use mathlib.Core.Logic.Or
use mathlib.Core.Bool.{Bool-set}
use ucla_bathroom_ratings.Base.{
  Bool-cases, length, Bytes, ℕ, ◌<◌, ◌≡◌, refl, sym, ap, ◌∙◌, ◌↔◌, inl, inr, true, false, Option,
  none, some, List, [], ◌∷◌, arith,
}
use ucla_bathroom_ratings.Base.Int.{ℤ, same_int, same_int_iff, IsInt32, pos, negsuc}
use ucla_bathroom_ratings.Base.Map.{lookup_name}
use ucla_bathroom_ratings.Base.Decimal.{to_decimal, int_to_string}
use ucla_bathroom_ratings.Store.Validation.{is_valid_entity_name}
use ucla_bathroom_ratings.Store.Memory.{is_found}
use ucla_bathroom_ratings.Store.Persistent.{
  Item, Directory, Node, Disk, System, ids_in, has_id, read_item, read_in, read, list_in, list,
  regular, other, directory, not_directory,
}
use ucla_bathroom_ratings.Store.Names.{AllEntries, text_of, text_at, has_id-text_at, negative_free}
use ucla_bathroom_ratings.Store.Disk.{files_in, files_of, disk_view, IsTidy, entries_of}
use ucla_bathroom_ratings.Base.Sort.{sort}
use ucla_bathroom_ratings.Base.Sorted.{sort-Perm}

-- Every directory can be listed and every file be read; writing and removing may fail.
pub record IsReadable (sys : System) : Type 0 where
  pub iterates : (e : Bytes) → sys.can_iterate e ≡ true
  pub opens : (e name : Bytes) → sys.can_open_input e name ≡ true

-- A system that refuses nothing.
abbrev pub open_system : System
open_system = record {
  can_create_directory = λ e. true;
  can_iterate = λ e. true;
  can_open_output = λ e name. true;
  can_write = λ e name. true;
  partial = λ text. [];
  can_open_input = λ e name. true;
  can_remove = λ e name. true;
}

pub open_system-IsReadable : IsReadable open_system
open_system-IsReadable = record { iterates = λ e. refl; opens = λ e name. refl }

-- The files in the directory of the entity are fewer than 2^31.
abbrev pub DiskHasRoom : Disk → Bytes → Type 0
DiskHasRoom disk e = length (files_of disk e) < 2147483648

-- Membership, as `ids.count` tests it.
has_id_iff : (id : ℤ) (ids : List ℤ) → (has_id id ids ≡ true) ↔ Mem id ids
unfolding has_id
has_id_iff id [] = (λ h. absurd (ground arith), λ h. absurd (not-mem-nil h))
has_id_iff id (k ∷ ids) =
    let (to, from) = has_id_iff id ids in
    (
      λ h. elim (Bool-cases (same_int k id)) [
        | inl equal ↦ mem-cons.1 (Or.inl (sym ((same_int_iff k id).0 equal)))
        | inr differs ↦ mem-cons.1 (Or.inr (to (ground arith)))
      ],
      λ h.
          Or.elim (Bool-set _ _) (mem-cons.0 h) (λ (p : id ≡ k). ground (arith, same_int_iff k id))
            (λ (q : Mem id ids). ground (arith, from q)),
    )

has_id-is_found :
    (d : Directory) (id : ℤ) (e : Bytes) (disk : Disk)
    → is_valid_entity_name e ≡ true
    → files_of disk e ≡ d
    → AllEntries d
    → IsInt32 id
    → has_id id (ids_in d) ≡ is_found (disk_view disk e id)
unfolding disk_view
has_id-is_found d (negsuc k) e disk valid at_e es r = negative_free d k es
has_id-is_found d (pos n) e disk valid at_e es r = rw (valid, at_e) (has_id-text_at d n r es)

module _ (sys : System) (readable : IsReadable sys) where
  read_item-text : (e name : Bytes) (item : Option Item) → read_item sys e name item ≡ text_of item
  unfolding read_item
  read_item-text e name none = refl
  read_item-text e name (some other) = refl
  read_item-text e name (some (regular text)) = rw (readable.opens e name) refl

  read_in-text :
      (e : Bytes) (n : ℕ) (node : Option Node)
      → read_in sys e (to_decimal n) node ≡ text_at (files_in node) n
  unfolding read_in lookup_name
  read_in-text e n none = refl
  read_in-text e n (some not_directory) = refl
  read_in-text e n (some (directory d)) =
      read_item-text e (to_decimal n) (lookup_name (to_decimal n) d)

  pub read-disk_view :
      (disk : Disk) (e : Bytes) (id : ℤ) → read sys disk e id ≡ (disk, disk_view disk e id)
  unfolding read disk_view int_to_string
  read-disk_view disk e (negsuc k) = refl
  read-disk_view disk e (pos n) = elim (Bool-cases (is_valid_entity_name e)) [
    | inr invalid ↦ rw invalid refl
    | inl valid ↦
        rw valid (ap (λ (x : Option Bytes). (disk, x)) (read_in-text e n (lookup_name e disk)))
  ]

  list_in-sort :
      (e : Bytes) (node : Option Node) → list_in sys e node ≡ sort (ids_in (files_in node))
  unfolding list_in ids_in sort
  list_in-sort e none = refl
  list_in-sort e (some not_directory) = refl
  list_in-sort e (some (directory d)) = rw (readable.iterates e) refl

  pub list-sort :
      (disk : Disk) (e : Bytes)
      → is_valid_entity_name e ≡ true
      → (list sys disk e).1 ≡ sort (ids_in (files_of disk e))
  unfolding list
  list-sort disk e valid = rw valid (list_in-sort e (lookup_name e disk))

  list_invalid :
      (disk : Disk) (e : Bytes) → is_valid_entity_name e ≡ false → (list sys disk e).1 ≡ []
  unfolding list
  list_invalid disk e invalid = rw invalid refl

  view_invalid :
      (disk : Disk) (e : Bytes) (id : ℤ)
      → is_valid_entity_name e ≡ false
      → is_found (disk_view disk e id) ≡ false
  unfolding disk_view
  view_invalid disk e (negsuc k) invalid = refl
  view_invalid disk e (pos n) invalid = rw invalid refl

  pub list_ids :
      (disk : Disk) (e : Bytes) (id : ℤ)
      → IsTidy disk
      → IsInt32 id
      → Mem id (list sys disk e).1 ↔ (is_found (disk_view disk e id) ≡ true)
  list_ids disk e id t r = elim (Bool-cases (is_valid_entity_name e)) [
    | inr invalid ↦
        rw (list_invalid disk e invalid, view_invalid disk e id invalid)
          (λ m. absurd (not-mem-nil m), λ h. cc)
    | inl valid ↦
        let ids = ids_in (files_of disk e) in
        let sorted = Perm.mem_iff (sort-Perm ids) in
        let counted = has_id_iff id ids in
        let found =
          has_id-is_found (files_of disk e) id e disk valid refl (entries_of disk e t) r in
        rw (list-sort disk e valid)
          (λ m. sym found ∙ counted.1 (sorted.1 m), λ h. sorted.0 (counted.0 (found ∙ h)))
  ]

  pub list_same : (disk : Disk) (e : Bytes) → (list sys disk e).0 ≡ disk
  unfolding list
  list_same disk e = ground arith
