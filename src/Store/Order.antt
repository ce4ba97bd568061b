-- ===== src/Store/Order.antt =====
-- The order in which a directory is iterated, which the C++ standard leaves open, does not matter
-- to `EntityStorePersistent` (src/entity_store_persistent.cc).
use ucla_bathroom_ratings.Base.{
  ltb, Bool-cases, length, Bytes, ℕ, ◌≤◌, ◌<◌, ◌≡◌, refl, sym, ap, ◌∙◌, ◌≢◌, inl, inr, true, false,
  Option, none, some, [], ◌∷◌, arith,
}
use ucla_bathroom_ratings.Base.Int.{ℤ, same_int, pos, negsuc}
use ucla_bathroom_ratings.Base.Map.{lookup_name, IsDistinct, absent}
use ucla_bathroom_ratings.Base.Sort.{sort}
use ucla_bathroom_ratings.Base.Decimal.{to_decimal}
use ucla_bathroom_ratings.Store.Validation.{is_valid_entity_name}
use ucla_bathroom_ratings.Store.Memory.{is_found}
use ucla_bathroom_ratings.Store.Names.{
  AllEntries, text_of, text_at, ids_in-unnamed, ids_in-object, has_id-text_at, negative_free,
}
use ucla_bathroom_ratings.Store.Persistent.{
  Item, Directory, Disk, System, ids_in, has_id, create, read, list, directory,
}
use ucla_bathroom_ratings.Store.Disk.{disk_view, IsOrderly, IsTidy, files_at, IsTidy-IsOrderly}
use ucla_bathroom_ratings.Store.Durable.{IsReadable, DiskHasRoom, read-disk_view, list-sort}
use ucla_bathroom_ratings.Store.Allocation.{IsLowest, lowest_free_total}
use ucla_bathroom_ratings.Store.Race.{
  free_name, IsWritable, write_whole, none-ne-other, create_whole,
}
use ucla_bathroom_ratings.Store.Ascending.{Distinct, has_id-sort, sort-Ascending, Ascending-unique}
use ucla_bathroom_ratings.Store.Partial.{create_there}

-- The same entries, in any order.
abbrev pub SameEntries : Directory → Directory → Type 0
SameEntries d d' = (name : Bytes) → lookup_name name d ≡ lookup_name name d'

big_free :
    (d : Directory) (n : ℕ) → 2147483648 ≤ n → AllEntries d → has_id (pos n) (ids_in d) ≡ false
unfolding has_id same_int
big_free [] n h es = unfold ids_in in refl
big_free ((name, item) ∷ d) n h (inl unread, es) =
    rw (ids_in-unnamed name item d unread) (big_free d n h es)
big_free ((name, item) ∷ d) n h (inr f, es) =
    let small = f.id_small in rw (ids_in-object name item d f) (ground (arith, big_free d n h es))

ids_in-Distinct : (d : Directory) → AllEntries d → IsDistinct d → Distinct (ids_in d)
ids_in-Distinct [] es ds = unfold ids_in in tt
ids_in-Distinct ((name, item) ∷ d) (inl unread, es) (fresh, ds) =
    rw (ids_in-unnamed name item d unread) (ids_in-Distinct d es ds)
ids_in-Distinct ((name, item) ∷ d) (inr f, es) (fresh, ds) =
    let missing : lookup_name (to_decimal f.id) d ≡ none =
      absent (to_decimal f.id) d (rw f.named at fresh) in
    rw (ids_in-object name item d f)
      (has_id-text_at d f.id f.id_small es ∙ rw missing refl, ids_in-Distinct d es ds)

-- The same entries have the same identifiers.
has_id-same :
    (d d' : Directory) (k : ℤ)
    → AllEntries d
    → AllEntries d'
    → SameEntries d d'
    → has_id k (ids_in d) ≡ has_id k (ids_in d')
has_id-same d d' (negsuc k) es es' h = negative_free d k es ∙ sym (negative_free d' k es')
has_id-same d d' (pos n) es es' h = elim (Bool-cases (ltb n 2147483648)) [
  | inl small ↦
      has_id-text_at d n (ground arith) es
      ∙ ap (λ (x : Option Item). is_found (text_of x)) (h (to_decimal n))
      ∙ sym (has_id-text_at d' n (ground arith) es')
  | inr large ↦ big_free d n (ground arith) es ∙ sym (big_free d' n (ground arith) es')
]

sorted-same :
    (d d' : Directory)
    → IsOrderly d
    → IsOrderly d'
    → SameEntries d d'
    → sort (ids_in d) ≡ sort (ids_in d')
sorted-same d d' o o' h =
    Ascending-unique (sort (ids_in d)) (sort (ids_in d'))
      (sort-Ascending (ids_in d) (ids_in-Distinct d o.entries o.distinct))
      (sort-Ascending (ids_in d') (ids_in-Distinct d' o'.entries o'.distinct))
      (λ k.
        has_id-sort k (ids_in d)
        ∙ has_id-same d d' k o.entries o'.entries h
        ∙ sym (has_id-sort k (ids_in d')))

true-ne-false : true ≢ false
true-ne-false e = cc

lowest-le :
    (d d' : Directory) (k k' : ℕ)
    → IsLowest d k
    → IsLowest d' k'
    → ((j : ℤ) → has_id j (ids_in d) ≡ has_id j (ids_in d'))
    → k' ≤ k
lowest-le d d' k k' low low' h = elim (Bool-cases (ltb k k')) [
  | inr le ↦ ground arith
  | inl less ↦
      absurd (true-ne-false (sym (low'.taken k (ground arith)) ∙ sym (h (pos k)) ∙ low.free))
]

lowest-same :
    (d d' : Directory) (k k' : ℕ)
    → IsLowest d k
    → IsLowest d' k'
    → ((j : ℤ) → has_id j (ids_in d) ≡ has_id j (ids_in d'))
    → k ≡ k'
lowest-same d d' k k' low low' h =
    let a = lowest-le d d' k k' low low' h in
    let b = lowest-le d' d k' k low' low (λ j. sym (h j)) in omega arith

module _ (sys : System) where
  create-IsLowest :
      (disk : Disk) (e text : Bytes) (d : Directory)
      → IsReadable sys
      → ((name : Bytes) → IsWritable sys e name)
      → IsTidy disk
      → DiskHasRoom disk e
      → is_valid_entity_name e ≡ true
      → lookup_name e disk ≡ some (directory d)
      → (k : ℕ) × IsLowest d k × ((create sys disk e text).1 ≡ pos k)
  create-IsLowest disk e text d readable w t room valid there =
      let (k, found, lowest) = lowest_free_total d in
      let le = lowest.within in
      let at_e = files_at disk e d there in
      let small : k < 2147483648 =
        let count = ap (λ (x : Directory). length x) at_e in omega arith in
      let name = to_decimal k in
      let written = write_whole sys disk e name text d (w name) there (λ x.
        none-ne-other sys (sym (free_name disk e d k t small there (rw at_e lowest.free)) ∙ x)) in
      (
        k,
        lowest,
        ap (λ (x : Disk × ℤ). x.1)
            (create_there sys disk e text d k (readable.iterates e) valid there found
              ∙ create_whole sys disk _ e text k written),
      )

  read-entry :
      (disk : Disk) (e : Bytes) (d : Directory) (n : ℕ)
      → IsReadable sys
      → is_valid_entity_name e ≡ true
      → lookup_name e disk ≡ some (directory d)
      → (read sys disk e (pos n)).1 ≡ text_at d n
  unfolding disk_view
  read-entry disk e d n readable valid there =
      ap (λ (x : Disk × Option Bytes). x.1) (read-disk_view sys readable disk e (pos n))
      ∙ rw (valid, there) refl

  -- What the store answers about an entity.
  pub record SameAnswers (disk disk' : Disk) (e text : Bytes) : Type 0 where
    pub list_same : (list sys disk e).1 ≡ (list sys disk' e).1
    pub read_same : (n : ℕ) → (read sys disk e (pos n)).1 ≡ (read sys disk' e (pos n)).1
    pub create_same : (create sys disk e text).1 ≡ (create sys disk' e text).1

  -- The answers do not depend on the order in which the directory is iterated: for two tidy disks
  -- whose directories of an entity hold the same entries, in any order and with room, where the
  -- directories can be listed and the files read and written, `List` gives the same list, `Read`
  -- of every number the same data, and `Create` the same identifier.
  pub order-SameAnswers :
      (disk disk' : Disk) (e text : Bytes) (d d' : Directory)
      → IsReadable sys
      → ((name : Bytes) → IsWritable sys e name)
      → IsTidy disk
      → IsTidy disk'
      → DiskHasRoom disk e
      → DiskHasRoom disk' e
      → is_valid_entity_name e ≡ true
      → lookup_name e disk ≡ some (directory d)
      → lookup_name e disk' ≡ some (directory d')
      → SameEntries d d'
      → SameAnswers disk disk' e text
  order-SameAnswers disk disk' e text d d' readable w t t' room room' valid there there' h =
      let at_e = files_at disk e d there in
      let at_e' = files_at disk' e d' there' in
      let o = IsTidy-IsOrderly disk e d t there in
      let o' = IsTidy-IsOrderly disk' e d' t' there' in
      let (k, low, made) = create-IsLowest disk e text d readable w t room valid there in
      let (k', low', made') = create-IsLowest disk' e text d' readable w t' room' valid there' in
      let same_ids = λ (j : ℤ). has_id-same d d' j o.entries o'.entries h in
      record {
        list_same =
            list-sort sys readable disk e valid
            ∙ ap (λ (x : Directory). sort (ids_in x)) at_e
            ∙ sorted-same d d' o o' h
            ∙ sym (
                list-sort sys readable disk' e valid
                ∙ ap (λ (x : Directory). sort (ids_in x)) at_e');
        read_same = λ n.
            read-entry disk e d n readable valid there
            ∙ ap text_of (h (to_decimal n))
            ∙ sym (read-entry disk' e d' n readable valid there');
        create_same = made ∙ ap pos (lowest-same d d' k k' low low' same_ids) ∙ sym made';
      }
