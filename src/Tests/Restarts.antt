-- ===== src/Tests/Restarts.antt =====
-- An example of a collection that is created and loaded again.
use smoldb.Prelude.{[], ◌∷◌, nat_eq}
use smoldb.Storage.Collection.{Collection, CollectionConfig}
use smoldb.Storage.Recovery.Tree.{root}
use smoldb.Tests.Trees.{Tree, tree_env}

-- The directory of the collection, and nothing else.
abbrev fresh : Tree
fresh = record { dirs = root tree_env "books" ∷ []; files = []; texts = [] }

abbrev config : CollectionConfig
config = record { params = "v1" }
