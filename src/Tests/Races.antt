-- ===== src/Tests/Races.antt =====
-- An example of two creations of one name that run at the same time: both find the path free.
use smoldb.Prelude.{
  ℕ, ◌+◌, ◌≡◌, refl, List, [], ◌∷◌, some, lookup, insert, contains_key, string_eq, count_if,
}
use smoldb.Types.{join, display}
use smoldb.Storage.Collection.{Collection}
use smoldb.Storage.Setup.{create_segment, init_shard, save_config, init_collection}
use smoldb.Storage.Toc.{collection_path, add_collection}
use smoldb.Storage.Toc.Tasks.{requested, Creation, System, advance, step, run}
use smoldb.Storage.Toc.Tasks.Once.{present, created, create_once}
use smoldb.Tests.Demo.{demo, exists}
use smoldb.Tests.Handlers.{toc}

abbrev asked : Creation demo
asked = record { name = "films"; params = "v1"; stage = requested }

abbrev before : System demo
before = record { toc = toc; disk = []; tasks = asked ∷ asked ∷ [] }

abbrev order : List ℕ
order = 0 ∷ 1 ∷ 1 ∷ 0 ∷ 0 ∷ 1 ∷ 1 ∷ 0 ∷ []

after : System demo
after = run demo (λ name disk. disk) order before

one_created : created demo "films" after.tasks ≡ 1
unfolding after run step advance add_collection contains_key lookup insert init_collection
    init_shard create_segment save_config collection_path join display exists count_if
one_created = refl

create_once_example :
    (present demo "films" toc + created demo "films" after.tasks ≡ present demo "films" after.toc)
    × ((c : Collection demo.Db demo.Ring)
        → lookup "films" toc.collections ≡ some c
        → lookup "films" after.toc.collections ≡ some c)
unfolding after
create_once_example = create_once demo (λ name disk. disk) "films" order before (refl, (refl, tt))
