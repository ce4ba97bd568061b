-- ===== src/Store/Tests/Directories.antt =====
-- The theorem on the order of a directory (src/entity_store_persistent.cc) at two files.
use ucla_bathroom_ratings.Base.{codes, same, same_iff, ◌≡◌, refl, inr, some, [], ◌∷◌, arith}
use ucla_bathroom_ratings.Base.Map.{lookup_name, insert_name}
use ucla_bathroom_ratings.Base.Decimal.{decimal_loop, to_decimal}
use ucla_bathroom_ratings.Store.Persistent.{Directory, Disk, regular, directory}
use ucla_bathroom_ratings.Store.Names.{IsObjectFile}
use ucla_bathroom_ratings.Store.Disk.{IsOrderly, IsTidy, empty_disk-IsTidy, insert-IsTidy}
use ucla_bathroom_ratings.Store.Durable.{open_system, open_system-IsReadable, DiskHasRoom}
use ucla_bathroom_ratings.Store.Order.{SameEntries, SameAnswers, order-SameAnswers}
use ucla_bathroom_ratings.Store.Tests.{shoe_valid}

abbrev two_files : Directory
two_files = (codes "0", regular (codes "1")) ∷ (codes "1", regular (codes "2")) ∷ []

abbrev other_order : Directory
other_order = (codes "1", regular (codes "2")) ∷ (codes "0", regular (codes "1")) ∷ []

file_zero : IsObjectFile (codes "0") (regular (codes "1"))
unfolding to_decimal decimal_loop
file_zero = record {
  id = 0;
  id_small = omega arith;
  named = refl;
  text = codes "1";
  is_file = refl;
}

file_one : IsObjectFile (codes "1") (regular (codes "2"))
unfolding to_decimal decimal_loop
file_one = record { id = 1; id_small = omega arith; named = refl; text = codes "2"; is_file = refl }

two_files-IsOrderly : IsOrderly two_files
unfolding same
two_files-IsOrderly = record {
  entries = (inr file_zero, (inr file_one, tt));
  distinct = ((refl, tt), (tt, tt));
}

other_order-IsOrderly : IsOrderly other_order
unfolding same
other_order-IsOrderly = record {
  entries = (inr file_one, (inr file_zero, tt));
  distinct = ((refl, tt), (tt, tt));
}

same_entries : SameEntries two_files other_order
unfolding lookup_name
same_entries name = ground (arith, same_iff (codes "0") name, same_iff (codes "1") name)

abbrev on_disk : Directory → Disk
on_disk d = insert_name (codes "shoe") (directory d) []

on_disk-IsTidy : (d : Directory) → IsOrderly d → IsTidy (on_disk d)
on_disk-IsTidy d o = insert-IsTidy [] (codes "shoe") d empty_disk-IsTidy o

found_on_disk : (d : Directory) → lookup_name (codes "shoe") (on_disk d) ≡ some (directory d)
unfolding lookup_name insert_name same
found_on_disk d = refl

room_on_disk : DiskHasRoom (on_disk two_files) (codes "shoe")
room_on_disk = rw (found_on_disk two_files) (omega arith)

room_in_other : DiskHasRoom (on_disk other_order) (codes "shoe")
room_in_other = rw (found_on_disk other_order) (omega arith)

order-SameAnswers_example :
    SameAnswers open_system (on_disk two_files) (on_disk other_order) (codes "shoe") (codes "3")
order-SameAnswers_example =
    order-SameAnswers open_system (on_disk two_files) (on_disk other_order) (codes "shoe")
      (codes "3") two_files other_order open_system-IsReadable
      (λ name. record { opens = refl; writes = refl })
      (on_disk-IsTidy two_files two_files-IsOrderly)
      (on_disk-IsTidy other_order other_order-IsOrderly) room_on_disk room_in_other shoe_valid
      (found_on_disk two_files) (found_on_disk other_order) same_entries
