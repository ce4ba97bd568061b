-- ===== src/Store/DiskHistory.antt =====
-- Sequences of calls of `EntityStorePersistent` (src/entity_store_persistent.cc): since each call
-- adds at most one file, an `int` counts the files of an entity over many calls.
use ucla_bathroom_ratings.Base.{length, All, Bytes, ◌+◌, ◌<◌, ◌≡◌, none, some, List, [], ◌∷◌, arith}
use ucla_bathroom_ratings.Base.Int.{ℤ, IsInt32}
use ucla_bathroom_ratings.Store.Persistent.{Disk, System, read, persistent}
use ucla_bathroom_ratings.Store.Disk.{disk_view, IsTidy}
use ucla_bathroom_ratings.Store.Calls.{
  StoreCall, call, run_calls, FindsRoom, RoomThroughout, NamesInt32, creates, reads, updates,
  deletes, lists,
}
use ucla_bathroom_ratings.Store.Durable.{IsReadable, DiskHasRoom}
use ucla_bathroom_ratings.Store.DiskContract.{persistent-Contract}
use ucla_bathroom_ratings.Store.History.{History, run_calls-History}
use ucla_bathroom_ratings.Store.Lasting.{Spares, LeavesOut, run_calls-keeps, run_calls-misses}
use ucla_bathroom_ratings.Store.FileCount.{file_count, call-AddsAtMostOne}

-- Fewer than 2^31 files in each entity, also after as many calls.
abbrev pub HasRoomFor : List StoreCall → Disk → Type 0
HasRoomFor cs disk = (e : Bytes) → file_count disk e + length cs < 2147483648

module _ (sys : System) where
  finds_room :
      (c : StoreCall) (cs : List StoreCall) (disk : Disk)
      → HasRoomFor (c ∷ cs) disk
      → FindsRoom (persistent sys) DiskHasRoom c disk
  finds_room (creates e d) cs disk h = let lt = h e in omega arith
  finds_room (reads e id) cs disk h = tt
  finds_room (updates e id d) cs disk h = tt
  finds_room (deletes e id) cs disk h = tt
  finds_room (lists e) cs disk h = tt

  room_throughout :
      (cs : List StoreCall) (disk : Disk)
      → HasRoomFor cs disk
      → RoomThroughout (persistent sys) DiskHasRoom cs disk
  room_throughout [] disk h = tt
  room_throughout (c ∷ cs) disk h = (
    finds_room c cs disk h,
    room_throughout cs (call (persistent sys) c disk).0
        (λ e. let le = call-AddsAtMostOne sys c disk e in let lt = h e in omega arith),
  )

  -- Any calls of the store on disk are a history of the map, where every directory can be listed
  -- and every file read, whatever the operating system refuses to create, write or remove: on a
  -- tidy disk with room in each entity for as many files as there are calls, each of an
  -- identifier that an `int` can hold, each reply is one that the map of the disk's data allows,
  -- in order, from the data before the calls to the data behind them, and the disk is tidy again.
  pub persistent-History :
      (cs : List StoreCall) (disk : Disk)
      → IsReadable sys
      → IsTidy disk
      → All NamesInt32 cs
      → HasRoomFor cs disk
      → History
          (disk_view disk)
          (run_calls (persistent sys) cs disk).1
          (disk_view (run_calls (persistent sys) cs disk).0)
        × IsTidy (run_calls (persistent sys) cs disk).0
  persistent-History cs disk readable t names room =
      run_calls-History (persistent sys) (persistent-Contract sys readable) cs disk t names
        (room_throughout cs disk room)

  -- An object outlasts the calls that are not about it: behind any calls of the store on disk, each
  -- of an identifier that an `int` can hold, none of which updates or deletes an object that was
  -- there, `Read` gives the data that it had, whatever the operating system refused to create,
  -- write or remove, where every directory can be listed and every file read, from a tidy disk
  -- with room in each entity for as many files as there are calls.
  pub persistent-keeps :
      (e : Bytes) (id : ℤ) (text : Bytes) (cs : List StoreCall) (disk : Disk)
      → IsReadable sys
      → IsInt32 id
      → IsTidy disk
      → All NamesInt32 cs
      → HasRoomFor cs disk
      → All (Spares e id) cs
      → disk_view disk e id ≡ some text
      → (read sys (run_calls (persistent sys) cs disk).0 e id).1 ≡ some text
  unfolding persistent
  persistent-keeps e id text cs disk readable small t names room spared there =
      run_calls-keeps (persistent sys) (persistent-Contract sys readable) e id text cs disk small t
        names (room_throughout cs disk room) spared there

  -- What is missing stays so: behind calls as in `persistent-keeps`, none of which creates an
  -- object of the entity or updates the one with the identifier, `Read` finds nothing where there
  -- was nothing.
  pub persistent-misses :
      (e : Bytes) (id : ℤ) (cs : List StoreCall) (disk : Disk)
      → IsReadable sys
      → IsInt32 id
      → IsTidy disk
      → All NamesInt32 cs
      → HasRoomFor cs disk
      → All (LeavesOut e id) cs
      → disk_view disk e id ≡ none
      → (read sys (run_calls (persistent sys) cs disk).0 e id).1 ≡ none
  unfolding persistent
  persistent-misses e id cs disk readable small t names room out free =
      run_calls-misses (persistent sys) (persistent-Contract sys readable) e id cs disk small t
        names (room_throughout cs disk room) out free
