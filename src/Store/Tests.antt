-- ===== src/Store/Tests.antt =====
-- The theorems on the entity stores (src/entity_store_in_memory.cc,
-- src/entity_store_validation.cc) at small states.
mod Directories
use ucla_bathroom_ratings.Base.{
  Bool-cases, length, take, All, codes, same, suc, ◌+◌, ◌%◌, ◌<◌, ◌≡◌, refl, ◌≢◌, inl, inr, true,
  false, some, List, [], ◌∷◌, arith,
}
use ucla_bathroom_ratings.Base.Int.{to_int32, same_int, pos}
use ucla_bathroom_ratings.Base.Decimal.{decimal_loop, to_decimal}
use ucla_bathroom_ratings.Store.InMemory.{InMemory, objects_of}
use ucla_bathroom_ratings.Store.Memory.{Created, create-Created}
use ucla_bathroom_ratings.Store.Validation.{is_name_char, is_valid_entity_name, parse_id}
use ucla_bathroom_ratings.Store.Identifiers.{
  parse_id-to_decimal, IsPlainByte, is_valid_entity_name-IsPlainByte,
}
use ucla_bathroom_ratings.Base.Map.{lookup_name, insert_name}
use ucla_bathroom_ratings.Store.Contract.{Contract}
use ucla_bathroom_ratings.Store.Persistent.{
  Directory, Disk, System, create, read, persistent, directory,
}
use ucla_bathroom_ratings.Store.Disk.{
  disk_view, IsOrderly, IsTidy, empty_disk-IsTidy, files_of-insert, insert-IsTidy, with_text,
  with_text-IsOrderly,
}
use ucla_bathroom_ratings.Store.Durable.{open_system, open_system-IsReadable, DiskHasRoom}
use ucla_bathroom_ratings.Store.Allocation.{IsTold, Allocated, create-Allocated}
use ucla_bathroom_ratings.Store.DiskContract.{persistent-Contract}
use ucla_bathroom_ratings.Store.Interface.{EntityStore}
use ucla_bathroom_ratings.Store.Calls.{StoreCall, StoreReply, run_calls, reads, updates, deletes}
use ucla_bathroom_ratings.Store.History.{History}
use ucla_bathroom_ratings.Store.DiskHistory.{HasRoomFor, persistent-History, persistent-keeps}
use ucla_bathroom_ratings.Store.Partial.{LeavesPart, create-LeavesPart}
use ucla_bathroom_ratings.Store.Lasting.{Spares}
use ucla_bathroom_ratings.Store.Race.{create_both, IsLost, create_both-IsLost}

abbrev two_shoes : InMemory
two_shoes = record {
  objects_by_id_by_entity = (codes "shoe", (pos 0, codes "1") ∷ (pos 1, codes "2") ∷ []) ∷ [];
  next_id = 0;
}

two_shoes_room :
    suc (two_shoes.next_id + length (objects_of (codes "shoe") two_shoes.objects_by_id_by_entity))
    < 2147483648
unfolding objects_of same
two_shoes_room = omega arith

create-Created_example :
    (c : Created two_shoes (codes "shoe") (codes "3")) × (c.after.next_id < 2147483648)
create-Created_example = create-Created two_shoes (codes "shoe") (codes "3") two_shoes_room

parse_id-to_decimal_example :
    parse_id (to_decimal 4294967301) ≡ some (to_int32 (4294967301 % 4294967296))
parse_id-to_decimal_example = parse_id-to_decimal 4294967301

name_valid : is_valid_entity_name (codes "shoe_2") ≡ true
unfolding is_valid_entity_name is_name_char
name_valid = refl

is_valid_entity_name-IsPlainByte_example : (codes "shoe_2" ≢ []) × All IsPlainByte (codes "shoe_2")
is_valid_entity_name-IsPlainByte_example =
    is_valid_entity_name-IsPlainByte (codes "shoe_2") name_valid

persistent-Contract_example : Contract (persistent open_system) IsTidy DiskHasRoom disk_view
persistent-Contract_example = persistent-Contract open_system open_system-IsReadable

abbrev one_file : Directory
one_file = with_text [] 0 (codes "1")

abbrev one_file_disk : Disk
one_file_disk = insert_name (codes "shoe") (directory one_file) []

one_file-IsOrderly : IsOrderly one_file
one_file-IsOrderly =
    with_text-IsOrderly [] 0 (codes "1") (omega arith) (record { entries = tt; distinct = tt })

one_file_disk-IsTidy : IsTidy one_file_disk
one_file_disk-IsTidy = insert-IsTidy [] (codes "shoe") one_file empty_disk-IsTidy one_file-IsOrderly

pub shoe_valid : is_valid_entity_name (codes "shoe") ≡ true
unfolding is_valid_entity_name is_name_char
shoe_valid = refl

files_there : DiskHasRoom one_file_disk (codes "shoe")
unfolding lookup_name insert_name same to_decimal decimal_loop
files_there = omega arith

create-Allocated_example :
    Allocated open_system one_file_disk
      (codes "shoe")
      (codes "2")
      (create open_system one_file_disk (codes "shoe") (codes "2"))
    × IsTold (create open_system one_file_disk (codes "shoe") (codes "2"))
create-Allocated_example =
    create-Allocated open_system one_file_disk (codes "shoe") (codes "2") files_there

directory_there : lookup_name (codes "shoe") one_file_disk ≡ some (directory one_file)
unfolding lookup_name insert_name same
directory_there = refl

create_both-IsLost_example :
    IsLost open_system one_file_disk
      (codes "shoe")
      (codes "3")
      (create_both open_system one_file_disk (codes "shoe") (codes "2") (codes "3"))
create_both-IsLost_example =
    create_both-IsLost open_system one_file_disk (codes "shoe") (codes "2") (codes "3") one_file
      (λ name. record { opens = refl; writes = refl }) refl one_file_disk-IsTidy files_there
      shoe_valid directory_there

-- Another object is written and removed, and the first one is read.
abbrev some_calls : List StoreCall
some_calls =
    updates (codes "shoe") (pos 1) (codes "x")
    ∷ deletes (codes "shoe") (pos 1)
    ∷ reads (codes "shoe") (pos 0)
    ∷ []

abbrev disk_store : EntityStore Disk
disk_store = persistent open_system

abbrev calls_log : List (StoreCall × StoreReply)
calls_log = (run_calls disk_store some_calls one_file_disk).1

length-one_file : length one_file ≡ 1
unfolding insert_name
length-one_file = refl

files_everywhere : HasRoomFor some_calls one_file_disk
unfolding lookup_name
files_everywhere e = elim (Bool-cases (same (codes "shoe") e)) [
  | inl equal ↦
      rw (files_of-insert [] (codes "shoe") e one_file, equal, length-one_file) (omega arith)
  | inr differs ↦ rw (files_of-insert [] (codes "shoe") e one_file, differs) (omega arith)
]

persistent-History_example :
    History
      (disk_view one_file_disk)
      calls_log
      (disk_view (run_calls disk_store some_calls one_file_disk).0)
    × IsTidy (run_calls disk_store some_calls one_file_disk).0
persistent-History_example =
    persistent-History open_system some_calls one_file_disk open_system-IsReadable
      one_file_disk-IsTidy (omega arith) files_everywhere

object_there : disk_view one_file_disk (codes "shoe") (pos 0) ≡ some (codes "1")
unfolding disk_view lookup_name insert_name same to_decimal decimal_loop is_valid_entity_name
    is_name_char
object_there = refl

calls_spare : All (Spares (codes "shoe") (pos 0)) some_calls
unfolding same same_int
calls_spare = (refl, (refl, (tt, tt)))

persistent-keeps_example :
    (read open_system (run_calls disk_store some_calls one_file_disk).0 (codes "shoe") (pos 0)).1
    ≡ some (codes "1")
persistent-keeps_example =
    persistent-keeps open_system (codes "shoe") (pos 0) (codes "1") some_calls one_file_disk
      open_system-IsReadable (omega arith) one_file_disk-IsTidy (omega arith) files_everywhere
      calls_spare object_there

-- Of each text the first byte is written, and then the disk is full.
abbrev full_system : System
full_system = record open_system { can_write = λ e name. false; partial = λ text. take 1 text }

create-LeavesPart_example : LeavesPart full_system one_file_disk (codes "shoe") (codes "23")
create-LeavesPart_example =
    create-LeavesPart full_system one_file_disk (codes "shoe") (codes "23") one_file
      (record { iterates = λ e. refl; opens = λ e name. refl })
      (record { opens = λ name. refl; fails = λ name. refl }) one_file_disk-IsTidy files_there
      shoe_valid directory_there
