-- ===== src/Store/DiskContract.antt =====
-- `EntityStorePersistent` (src/entity_store_persistent.cc) keeps the contract of `EntityStore`.
use ucla_bathroom_ratings.Base.{
  Bool-cases, Bytes, ◌≡◌, refl, ◌∙◌, inl, inr, true, false, Option, none, some, arith,
}
use ucla_bathroom_ratings.Base.Int.{ℤ, is_negative, IsInt32, pos, negsuc}
use ucla_bathroom_ratings.Base.Decimal.{to_decimal, int_to_string}
use ucla_bathroom_ratings.Store.Validation.{is_valid_entity_name}
use ucla_bathroom_ratings.Store.Memory.{put}
use ucla_bathroom_ratings.Store.Persistent.{
  Disk, System, ensure_entity_directory, update, persistent,
}
use ucla_bathroom_ratings.Store.Disk.{
  disk_view, IsTidy, SameFiles, disk_view-SameFiles, IsTidy-SameFiles,
}
use ucla_bathroom_ratings.Store.Writes.{
  write_file-Wrote, Wrote-IsTidy, Wrote-view, Wrote-SameBut, ensure-SameFiles,
}
use ucla_bathroom_ratings.Store.Durable.{
  IsReadable, DiskHasRoom, read-disk_view, list_ids, list_same,
}
use ucla_bathroom_ratings.Store.Contract.{SameBut, Contract}
use ucla_bathroom_ratings.Store.Allocation.{Allocated, allocates, nothing, attempt}
use ucla_bathroom_ratings.Store.Removes.{
  false-ne-true, true-ne-false, free_view, delete_view, delete_missing, delete-IsTidy,
}

module _ (sys : System) where
  update-IsTidy :
      (disk : Disk) (e : Bytes) (id : ℤ) (text : Bytes)
      → IsTidy disk
      → IsInt32 id
      → IsTidy (update sys disk e id text).0
  unfolding update int_to_string
  update-IsTidy disk e (negsuc k) text t h = t
  update-IsTidy disk e (pos n) text t h =
      let disk' = (ensure_entity_directory sys disk e).0 in
      let t' : IsTidy disk' = IsTidy-SameFiles disk disk' (ensure-SameFiles sys disk e) t in
      elim (Bool-cases (is_valid_entity_name e)) [
        | inr invalid ↦ rw invalid t
        | inl valid ↦ rw valid (elim (Bool-cases (ensure_entity_directory sys disk e).1) [
          | inr failed ↦ rw failed t'
          | inl ensured ↦ rw ensured (
              Wrote-IsTidy sys disk' e n text h t'
                (write_file-Wrote sys disk' e (to_decimal n) text))
        ])
      ]

  put-SameFiles :
      (disk disk' : Disk) (e : Bytes) (id : ℤ) (d : Option Bytes) (e' : Bytes) (j : ℤ)
      → SameFiles disk disk'
      → put (disk_view disk') e id d e' j ≡ put (disk_view disk) e id d e' j
  put-SameFiles disk disk' e id d e' j h = rw (disk_view-SameFiles disk disk' e' j h) refl

  update_view :
      (disk : Disk) (e : Bytes) (id : ℤ) (text : Bytes) (e' : Bytes) (j : ℤ)
      → IsInt32 id
      → IsInt32 j
      → (update sys disk e id text).1 ≡ true
      → disk_view (update sys disk e id text).0 e' j ≡ put (disk_view disk) e id (some text) e' j
  unfolding update int_to_string
  update_view disk e (negsuc k) text e' j h r good = absurd (ground arith)
  update_view disk e (pos n) text e' j h r good =
      let disk' = (ensure_entity_directory sys disk e).0 in
      let same_files = ensure-SameFiles sys disk e in
      elim (Bool-cases (is_valid_entity_name e)) [
        | inr invalid ↦ absurd (false-ne-true (rw invalid at good))
        | inl valid ↦ elim (Bool-cases (ensure_entity_directory sys disk e).1) [
          | inr failed ↦ absurd (false-ne-true (rw (valid, failed) at good))
          | inl ensured ↦
              rw (valid, ensured)
                (Wrote-view sys disk' e n text e' j h r valid (rw (valid, ensured) at good)
                    (write_file-Wrote sys disk' e (to_decimal n) text)
                  ∙ put-SameFiles disk disk' e (pos n) (some text) e' j same_files)
        ]
      ]

  update_failed :
      (disk : Disk) (e : Bytes) (id : ℤ) (text : Bytes)
      → IsInt32 id
      → SameBut e id (disk_view disk) (disk_view (update sys disk e id text).0)
  unfolding update int_to_string
  update_failed disk e (negsuc k) text h e' j small away = refl
  update_failed disk e (pos n) text h e' j small away =
      let disk' = (ensure_entity_directory sys disk e).0 in
      let same_view = disk_view-SameFiles disk disk' e' j (ensure-SameFiles sys disk e) in
      elim (Bool-cases (is_valid_entity_name e)) [
        | inr invalid ↦ rw invalid refl
        | inl valid ↦ elim (Bool-cases (ensure_entity_directory sys disk e).1) [
          | inr failed ↦ rw (valid, failed) same_view
          | inl ensured ↦
              rw (valid, ensured)
                (Wrote-SameBut sys disk' e n text h valid
                    (write_file-Wrote sys disk' e (to_decimal n) text) e' j small away
                  ∙ same_view)
        ]
      ]

  -- What a `Create` that fails may leave: a part of the data under an identifier that was free.
  Allocated-failed :
      (disk : Disk) (e text : Bytes) {r : Disk × ℤ}
      → IsTidy disk
      → DiskHasRoom disk e
      → Allocated sys disk e text r
      → (k : ℤ) × (disk_view disk e k ≡ none) × SameBut e k (disk_view disk) (disk_view r.0)
  unfolding disk_view
  Allocated-failed disk e text t room (nothing disk' same_files why) =
      (negsuc 0, refl, λ e' j small away. disk_view-SameFiles disk disk' e' j same_files)
  Allocated-failed disk e text t room
        (attempt disk' k r same_files valid ensured list_ok lowest written) =
      let le = lowest.within in
      (
        pos k,
        free_view disk e k t (omega arith) lowest.free,
        λ e' j small away.
            Wrote-SameBut sys disk' e k text (omega arith) valid written e' j small away
            ∙ disk_view-SameFiles disk disk' e' j same_files,
      )

  -- What `Create` leaves on the disk.
  Allocated-IsTidy :
      (disk : Disk) (e text : Bytes) {r : Disk × ℤ}
      → IsTidy disk
      → DiskHasRoom disk e
      → Allocated sys disk e text r
      → IsTidy r.0 × IsInt32 r.1
  Allocated-IsTidy disk e text t room (nothing disk' same_files why) =
      (IsTidy-SameFiles disk disk' same_files t, omega arith)
  Allocated-IsTidy disk e text t room
        (attempt disk' k r same_files valid ensured list_ok lowest written) =
      let le = lowest.within in
      (
        Wrote-IsTidy sys disk' e k text (omega arith) (IsTidy-SameFiles disk disk' same_files t)
            written,
        elim (Bool-cases r.1) [ inl good ↦ rw good (omega arith) | inr bad ↦ rw bad (omega arith) ],
      )

  Allocated-view :
      (disk : Disk) (e text : Bytes) (e' : Bytes) (j : ℤ) {r : Disk × ℤ}
      → IsTidy disk
      → DiskHasRoom disk e
      → IsInt32 j
      → is_negative r.1 ≡ false
      → Allocated sys disk e text r
      → (disk_view disk e r.1 ≡ none)
        × (disk_view r.0 e' j ≡ put (disk_view disk) e r.1 (some text) e' j)
  Allocated-view disk e text e' j t room h good (nothing disk' same_files why) =
      absurd (ground arith)
  Allocated-view disk e text e' j t room h good
        (attempt disk' k r same_files valid ensured list_ok lowest written) =
      let le = lowest.within in
      elim (Bool-cases r.1) [
        | inr bad ↦ absurd (true-ne-false (rw bad at good))
        | inl whole_ ↦ rw whole_ (
          free_view disk e k t (omega arith) lowest.free,
          Wrote-view sys disk' e k text e' j (omega arith) h valid whole_ written
              ∙ put-SameFiles disk disk' e (pos k) (some text) e' j same_files,
        )
      ]

-- `EntityStorePersistent` keeps the contract of `EntityStore`, if every directory can be listed
-- and every file read, whatever the operating system refuses to create, write or remove: its
-- invariant is that in each directory no name stands twice and each name with an identifier is
-- the decimal form of an `int` and names a regular file, there is room while the directory holds
-- fewer than 2^31 files, and its view is the text of the files.
pub persistent-Contract :
    (sys : System) → IsReadable sys → Contract (persistent sys) IsTidy DiskHasRoom disk_view
unfolding persistent
persistent-Contract sys readable = record {
  create_keeps = λ s e d t room. Allocated-IsTidy sys s e d t room (allocates sys s e d);
  keeps = λ s e id d t h. (
    rw (read-disk_view sys readable s e id) t,
    update-IsTidy sys s e id d t h,
    delete-IsTidy sys s e id t,
    rw (list_same sys readable s e) t,
  );
  create_law =
      λ s e d e' j t room h good. Allocated-view sys s e d e' j t room h good (allocates sys s e d);
  create_failed = λ s e d t room failed. Allocated-failed sys s e d t room (allocates sys s e d);
  read_law = λ s e id e' j t h. rw (read-disk_view sys readable s e id) (refl, refl);
  update_law = λ s e id d e' j t h r good. update_view sys s e id d e' j h r good;
  update_failed = λ s e id d t h failed. update_failed sys s e id d h;
  delete_law = λ s e id e' j t h r. delete_view sys s e id e' j t h r;
  delete_missing = λ s e id t h free. delete_missing sys s e id t h free;
  list_law =
      λ s e id e' j t h. (list_ids sys readable s e id t h, rw (list_same sys readable s e) refl);
}
