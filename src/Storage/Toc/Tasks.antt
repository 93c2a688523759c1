-- ===== src/Storage/Toc/Tasks.antt =====
-- Creations of collections that run at the same time: the steps between which other tasks can run,
-- of `mkdir_collection_dir` and of `perform_collection_meta_op` of storage/toc.rs. Only the last step
-- of a creation holds the write lock of the table. A panic of an `expect` ends the creation in which it
-- happens, and the others go on.
pub mod Once
pub mod Alone
use smoldb.Prelude.{
  ℕ, zero, suc, String, List, [], ◌∷◌, Bool, true, false, ◌&&◌, Option, none, some, Result, ok, err,
  string_eq, ◌==◌, get_elem?, format, if◌then◌else◌,
}
use smoldb.Types.{CollectionName, display}
use smoldb.Storage.Error.{StorageError}
use smoldb.Storage.Segment.{fails}
use smoldb.Storage.Collection.{Collection}
use smoldb.Storage.Setup.{init_collection}
use smoldb.Storage.Toc.{Toc, collection_path, add_collection}
use smoldb.External.{Env}

-- How far a creation is: it was asked for, its path was found to be free, its directory was made, its
-- collection was made, it has a result, or it panicked.
pub data Stage (C : Type 0) : Type 0 where
  requested : Stage C
  checked : Stage C
  made : Stage C
  initialised : C → Stage C
  finished : Result StorageError Bool → Stage C
  panicked : Stage C

pub record Task (C : Type 0) : Type 0 where
  pub name : CollectionName
  pub params : String
  pub stage : Stage C

-- `tasks[i] = task`
abbrev pub set {ℓ} : {A : Type ℓ} → List A → ℕ → A → List A
set [] i v = []
set (x ∷ xs) zero v = v ∷ xs
set (x ∷ xs) (suc i) v = x ∷ set xs i v

module _ (env : Env) where
  open env use {Db, Ring, Disk, path_exists, create_dir_all}

  abbrev pub Creation : Type 0
  Creation = Task (Collection Db Ring)

  -- The node, and the creations that it serves.
  pub record System : Type 0 where
    pub toc : Toc env
    pub disk : Disk
    pub tasks : List Creation

  -- `left_over` is the disk that a creation leaves when it panics, which is any disk.
  module _ (left_over : CollectionName → Disk → Disk) where
    -- the next step of a creation
    unfoldable pub advance :
        CollectionName
        → String
        → Stage (Collection Db Ring)
        → Toc env
        → Disk
        → Stage (Collection Db Ring) × Toc env × Disk
    advance name params requested toc disk =
        let path = collection_path name in
        if path_exists disk path
        then (
          finished (
              err (
                StorageError.bad_input
                  (format ("Collection path already exists: " ∷ display path ∷ [])))),
          toc,
          disk,
        )
        else (checked, toc, disk)
    advance name params checked toc disk =
        let (done, disk') = create_dir_all disk (collection_path name) in
        elim done [
          | err e ↦ (finished (err (fails "Can't create directory for collection" e)), toc, disk')
          | ok _ ↦ (made, toc, disk')
        ]
    advance name params made toc disk =
        elim (init_collection env name (record { params = params }) (collection_path name) disk) [
          | none ↦ (panicked, toc, left_over name disk)
          | some (done, disk') ↦ elim done [
            | err e ↦ (finished (err e), toc, disk')
            | ok c ↦ (initialised c, toc, disk')
          ]
        ]
    advance name params (initialised c) toc disk =
        let (added, toc') = add_collection env name c toc in (finished added, toc', disk)
    advance name params (finished result) toc disk = (finished result, toc, disk)
    advance name params panicked toc disk = (panicked, toc, disk)

    -- One of the tasks makes a step.
    unfoldable pub step : ℕ → System → System
    step i s = elim (get_elem? s.tasks i) [
      | none ↦ s
      | some task ↦
          let (stage, toc, disk) = advance task.name task.params task.stage s.toc s.disk in
          record { toc = toc; disk = disk; tasks = set s.tasks i (record task { stage = stage }) }
    ]

    -- The tasks make steps in this order.
    unfoldable pub run : List ℕ → System → System
    run [] s = s
    run (i ∷ schedule) s = run schedule (step i s)
