-- ===== src/Storage/Recovery/Load.antt =====
-- The collections and the table that are loaded.
use mathlib.Core.Path.{subst}
use mathlib.Core.List.{Memᴰ}
use smoldb.Prelude.{
  ◌≡◌, refl, ap, sym, ◌≢◌, [], ◌∷◌, true, none, some, ok, arith, lookup, nat_eq, string_eq,
}
use smoldb.Types.{ShardId, CollectionName, FilePath, join}
use smoldb.Storage.Replicas.{ReplicaHolder, new_holder}
use smoldb.Storage.Replicas.Peers.{DistinctPeers}
use smoldb.Storage.Replicas.RingRoutes.{IsRouted, new_holder-IsRouted}
use smoldb.Storage.Collection.{Collection, Shards}
use smoldb.Storage.Collection.Success.{HasSegments}
use smoldb.Storage.Collection.Sound.{IsSound}
use smoldb.Storage.Setup.{collection_config_file}
use smoldb.Storage.Recovery.{shard_dir_id, load_config, load_collection}
use smoldb.Storage.Recovery.Restored.{Entries, IsFrom, load_shards-IsFrom, load_shards-all}
use smoldb.Storage.Recovery.Keeps.{load_collection-holder}
use smoldb.External.{Env, DirLaws, RingLaws}

module _ (env : Env) where
  open env use {Db, Ring, Disk, path_exists, is_dir, read_dir, create_dir_all}

  none-IsFrom : (entries : Entries env) → IsFrom env entries []
  unfolding lookup
  none-IsFrom entries s set e = absurd (ground arith)

  shards-held :
      (c : Collection Db Ring) (shards : Shards env)
      → c.replica_holder ≡ new_holder env shards
      → shards ≡ c.replica_holder.shards
  unfolding new_holder
  shards-held c shards held = ap (λ (h : ReplicaHolder Db Ring). h.shards) (sym held)

  routes_some :
      RingLaws env
      → (s : ShardId) (shards : Shards env) → lookup s shards ≢ none
      → IsRouted env (new_holder env shards)
  unfolding lookup
  routes_some laws s [] there = absurd (there refl)
  routes_some laws s ((t, set) ∷ shards) there = new_holder-IsRouted env laws t set shards

  -- A collection that is loaded has the name and the path it was loaded with, the configuration of
  -- its file, and as shards the directories in its own: each of its shards has no remote replica
  -- and stands in a directory of its number, and each directory has the number of a shard that is
  -- there. Assumed: a directory stays one while others are made and databases are opened.
  pub load_collection_lem :
      (dirs : DirLaws env) (id : CollectionName) (path : FilePath) (disk disk' : Disk)
      (c : Collection Db Ring)
      → load_collection env id path disk ≡ some (ok c, disk')
      → (c.id ≡ id)
        × (c.path ≡ path)
        × (load_config env (join path collection_config_file) disk ≡ ok c.config)
        × (entries : Entries env) × (read_dir disk path ≡ ok entries)
        × IsFrom env entries c.replica_holder.shards
        × ((p : FilePath)
            → Memᴰ (ok p) entries
            → is_dir disk p ≡ true
            → (s : ShardId) × (shard_dir_id p ≡ ok s) × (lookup s c.replica_holder.shards ≢ none))
  load_collection_lem dirs id path disk disk' c e =
      let (entries, shards, listed, loaded, config, named, at, held) =
        load_collection-holder env id path disk disk' c e in
      let same : shards ≡ c.replica_holder.shards = shards-held c shards held in
      let from =
        load_shards-IsFrom env entries entries id [] shards disk disk' (λ p m. m)
          (none-IsFrom entries) loaded in
      (
        named,
        at,
        config,
        entries,
        listed,
        subst (IsFrom env entries) same from,
        λ p m dir.
            let (s, number, there) =
              load_shards-all env dirs entries id [] shards disk disk' p loaded m dir in
            (s, number, subst (λ (x : Shards env). lookup s x ≢ none) same there),
      )

  -- A collection that is loaded with at least one shard, and with a segment 0 in each shard, is
  -- sound: it routes every point to one of its shards and has no peer twice. Assumed: the laws of
  -- the ring.
  pub load_collection-IsSound :
      (laws : RingLaws env) (id : CollectionName) (path : FilePath) (disk disk' : Disk)
      (c : Collection Db Ring) (s : ShardId)
      → load_collection env id path disk ≡ some (ok c, disk')
      → lookup s c.replica_holder.shards ≢ none
      → HasSegments env c.replica_holder.shards
      → IsSound env c
  load_collection-IsSound laws id path disk disk' c s e there ready =
      let (entries, shards, listed, loaded, config, named, at, held) =
        load_collection-holder env id path disk disk' c e in
      let same : shards ≡ c.replica_holder.shards = shards-held c shards held in
      let from =
        load_shards-IsFrom env entries entries id [] shards disk disk' (λ p m. m)
          (none-IsFrom entries) loaded in
      record {
        routes = subst (IsRouted env) (sym held) (
            routes_some laws s shards
              (subst (λ (x : Shards env). lookup s x ≢ none) (sym same) there));
        segments = ready;
        peers = λ r set here.
            subst DistinctPeers (sym (subst (IsFrom env entries) same from r set here).0) tt;
      }
