-- ===== src/Store/Persistent.antt =====
-- `EntityStorePersistent` (src/entity_store_persistent.cc): one directory for each entity under
-- the data root, one file for each object.
use ucla_bathroom_ratings.Base.{
  if◌then◌else◌, length, Bytes, ℕ, zero, suc, Bool, true, false, not, ◌||◌, Option, none, some,
  List, [], ◌∷◌,
}
use ucla_bathroom_ratings.Base.Int.{ℤ, same_int, is_negative, pos, negsuc}
use ucla_bathroom_ratings.Base.Sort.{sort}
use ucla_bathroom_ratings.Base.Map.{lookup_name, insert_name, erase_name}
use ucla_bathroom_ratings.Base.Decimal.{to_decimal, int_to_string}
use ucla_bathroom_ratings.Store.Interface.{EntityStore}
use ucla_bathroom_ratings.Store.Validation.{is_valid_entity_name, parse_id}

-- What stands in an entity's directory: a regular file with its bytes, or something else, such as
-- a directory. That neither opens for writing nor is read here: libstdc++ opens a directory and
-- the read throws, and the theorems ask that no identifier names one.
pub data Item : Type 0 where
  regular : Bytes → Item
  other : Item

abbrev pub Directory : Type 0
Directory = List (Bytes × Item)

-- What stands under the data root.
pub data Node : Type 0 where
  directory : Directory → Node
  not_directory : Node

abbrev pub Disk : Type 0
Disk = List (Bytes × Node)

-- What the operating system lets happen, which does not change in time. A write that fails leaves `partial` in the file.
pub record System : Type 0 where
  pub can_create_directory : Bytes → Bool
  pub can_iterate : Bytes → Bool
  pub can_open_output : Bytes → Bytes → Bool
  pub can_write : Bytes → Bytes → Bool
  pub partial : Bytes → Bytes
  pub can_open_input : Bytes → Bytes → Bool
  pub can_remove : Bytes → Bytes → Bool

-- The identifiers that the regular files of a directory are named by.
unfoldable pub ids_in : Directory → List ℤ
ids_in [] = []
ids_in ((name, other) ∷ d) = ids_in d
ids_in ((name, regular text) ∷ d) = elim (parse_id name) [
  | none ↦ ids_in d
  | some id ↦ id ∷ ids_in d
]

unfoldable pub has_id : ℤ → List ℤ → Bool
has_id id [] = false
has_id id (k ∷ ids) = same_int k id || has_id id ids

-- `while (ids.count(next_id)) next_id++;` with fuel.
unfoldable pub lowest_free : ℕ → List ℤ → ℕ → Option ℕ
lowest_free zero ids n = none
lowest_free (suc fuel) ids n = elim (has_id (pos n) ids) [
  | true ↦ lowest_free fuel ids (suc n)
  | false ↦ some n
]

module _ (sys : System) where
  -- `EnsureEntityDirectory`: `create_directories`, whose error code is clear if the directory is
  -- there already.
  unfoldable pub ensure_entity_directory : Disk → Bytes → Disk × Bool
  ensure_entity_directory disk e = elim (lookup_name e disk) [
    | some (directory d) ↦ (disk, true)
    | some not_directory ↦ (disk, false)
    | none ↦
        if sys.can_create_directory e
        then (insert_name e (directory []) disk, true)
        else (disk, false)
  ]

  -- `std::ofstream output(path, binary | trunc)`, `output << data`, `close`, and whether all went
  -- well.
  unfoldable pub write_file : Disk → Bytes → Bytes → Bytes → Disk × Bool
  write_file disk e name text = elim (lookup_name e disk) [
    | none ↦ (disk, false)
    | some not_directory ↦ (disk, false)
    | some (directory d) ↦ elim (lookup_name name d) [
      | some other ↦ (disk, false)
      | _ ↦
          if not (sys.can_open_output e name)
          then (disk, false)
          else if sys.can_write e name
          then (insert_name e (directory (insert_name name (regular text) d)) disk, true)
          else (
            insert_name e (directory (insert_name name (regular (sys.partial text)) d)) disk,
            false,
          )
    ]
  ]

  -- The part of `Create` behind the directory's creation.
  unfoldable pub create_file : Disk → Bytes → Bytes → Option ℕ → Disk × ℤ
  create_file disk e text none = (disk, negsuc 0)
  create_file disk e text (some id) =
      let (disk', good) = write_file disk e (to_decimal id) text in
      (disk', if good then pos id else negsuc 0)

  unfoldable pub create_in : Disk → Bytes → Bytes → Disk × ℤ
  create_in disk e text = elim (lookup_name e disk) [
    | none ↦ (disk, negsuc 0)
    | some not_directory ↦ (disk, negsuc 0)
    | some (directory d) ↦
        if not (sys.can_iterate e)
        then (disk, negsuc 0)
        else create_file disk e text (lowest_free (suc (length d)) (ids_in d) 0)
  ]

  unfoldable pub create : Disk → Bytes → Bytes → Disk × ℤ
  create disk e text =
      let (disk', ensured) = ensure_entity_directory disk e in
      if not (is_valid_entity_name e)
      then (disk, negsuc 0)
      else if not ensured
      then (disk', negsuc 0)
      else create_in disk' e text

  unfoldable pub read_item : Bytes → Bytes → Option Item → Option Bytes
  read_item e name (some (regular text)) = if sys.can_open_input e name then some text else none
  read_item e name _ = none

  unfoldable pub read_in : Bytes → Bytes → Option Node → Option Bytes
  read_in e name (some (directory d)) = read_item e name (lookup_name name d)
  read_in e name _ = none

  unfoldable pub read : Disk → Bytes → ℤ → Disk × Option Bytes
  read disk e id =
      if is_negative id || not (is_valid_entity_name e)
      then (disk, none)
      else (disk, read_in e (int_to_string id) (lookup_name e disk))

  unfoldable pub update : Disk → Bytes → ℤ → Bytes → Disk × Bool
  update disk e id text =
      let (disk', ensured) = ensure_entity_directory disk e in
      if is_negative id || not (is_valid_entity_name e)
      then (disk, false)
      else if not ensured
      then (disk', false)
      else write_file disk' e (int_to_string id) text

  -- `remove` also takes what is no regular file, if the system lets it.
  unfoldable pub remove_in : Disk → Bytes → Bytes → Option Node → Disk × Bool
  remove_in disk e name (some (directory d)) = elim (lookup_name name d) [
    | none ↦ (disk, false)
    | some item ↦
        if sys.can_remove e name
        then (insert_name e (directory (erase_name name d)) disk, true)
        else (disk, false)
  ]
  remove_in disk e name _ = (disk, false)

  unfoldable pub delete : Disk → Bytes → ℤ → Disk × Bool
  delete disk e id =
      if is_negative id || not (is_valid_entity_name e)
      then (disk, false)
      else remove_in disk e (int_to_string id) (lookup_name e disk)

  unfoldable pub list_in : Bytes → Option Node → List ℤ
  list_in e (some (directory d)) = if sys.can_iterate e then sort (ids_in d) else []
  list_in e _ = []

  unfoldable pub list : Disk → Bytes → Disk × List ℤ
  list disk e =
      if not (is_valid_entity_name e) then (disk, []) else (disk, list_in e (lookup_name e disk))

  unfoldable pub persistent : EntityStore Disk
  persistent = record {
    create = create;
    read = read;
    update = update;
    delete = delete;
    list = list;
  }
