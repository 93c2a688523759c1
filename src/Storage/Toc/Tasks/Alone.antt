-- ===== src/Storage/Toc/Tasks/Alone.antt =====
-- A creation that runs alone.
use smoldb.Prelude.{
  ◌≡◌, inl, inr, String, [], ◌∷◌, Bool, some, Result, ok, err, arith, string_eq, Bool-cases,
  Option-cases, Result-cases,
}
use smoldb.Types.{CollectionName}
use smoldb.Storage.Error.{StorageError}
use smoldb.Storage.Setup.{init_collection}
use smoldb.Storage.Toc.{Toc, create, mkdir_collection_dir, collection_path}
use smoldb.Storage.Toc.Tasks.{requested, finished, advance, step, run}
use smoldb.External.{Env}

module _ (env : Env) where
  open env use {Disk, path_exists, create_dir_all}

  -- A creation that runs alone does what `create` does.
  run-alone :
      (left_over : CollectionName → Disk → Disk) (name : CollectionName) (params : String)
      (toc toc' : Toc env) (disk disk' : Disk) (result : Result StorageError Bool)
      → create env name params toc disk ≡ some (result, toc', disk')
      → run env left_over (0 ∷ 0 ∷ 0 ∷ 0 ∷ []) (record {
        toc = toc;
        disk = disk;
        tasks = record { name = name; params = params; stage = requested } ∷ [];
      })
        ≡ record {
          toc = toc';
          disk = disk';
          tasks = record { name = name; params = params; stage = finished result } ∷ [];
        }
  unfolding create run step advance mkdir_collection_dir
  run-alone left_over name params toc toc' disk disk' result e =
      let path = collection_path name in
      elim (Bool-cases (path_exists disk path)) [
        | inl taken ↦ ground arith
        | inr free ↦ elim (Result-cases (create_dir_all disk path).0) [
          | inr (f, q) ↦ ground arith
          | inl (u, q) ↦
              elim (Option-cases (
                init_collection env name (record { params = params }) path
                  (create_dir_all disk path).1)) [
                    | inl panics ↦ absurd (ground arith)
                    | inr ((err f, d), r) ↦ ground arith
                    | inr ((ok c, d), r) ↦ ground arith
                  ]
        ]
      ]
