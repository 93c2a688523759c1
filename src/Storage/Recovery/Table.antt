-- ===== src/Storage/Recovery/Table.antt =====
-- The table of collections that a node starts with.
use mathlib.Core.Path.{subst}
use mathlib.Core.List.Memᴰ
use mathlib.Core.List.{Memᴰ}
use smoldb.Prelude.{
  ◌≡◌, refl, ◌∙◌, ap, sym, ◌≢◌, inl, inr, [], ◌∷◌, Bool, true, false, none, some, ok, err, arith,
  HashMap, lookup, insert, lookup-insert, string_eq, beq_refl, ◌==◌, Option-cases, Result-cases,
  Bool-cases,
}
use smoldb.Types.{CollectionName, FilePath, join}
use smoldb.Storage.Collection.{Collection}
use smoldb.Storage.Setup.{collection_config_file}
use smoldb.Storage.Toc.{Toc}
use smoldb.Channels.{ChannelService}
use smoldb.Storage.Recovery.{file_name, load_collection, load_collections, collections_root, load}
use smoldb.Storage.Recovery.Restored.{Entries}
use smoldb.Storage.Recovery.Keeps.{load_collection-holder, load_collection-keeps}
use smoldb.External.{Env, DiskLaws}

Bool-apart : {b : Bool} → b ≡ true → ¬ (b ≡ false)
Bool-apart h k = ground arith

module _ (env : Env) where
  open env use {Db, Ring, Disk, Uri, Channel, path_exists, read_dir, create_dir_all}

  abbrev pub Named : Type 0
  Named = HashMap CollectionName (Collection Db Ring)

  -- The start goes through the entries of the directory: it comes to what is left of them with these
  -- collections and with this disk.
  pub data Comes (entries : Entries env) (first : Disk) : Entries env → Named → Disk → Type 0 where
    begins : Comes entries first entries [] first
    passes :
        {path : FilePath} {rest : Entries env} {collections : Named} {d : Disk}
        → Comes entries first (ok path ∷ rest) collections d
        → path_exists d (join path collection_config_file) ≡ false
        → Comes entries first rest collections d
    loads :
        {path : FilePath} {rest : Entries env} {collections : Named} {d d' : Disk}
        {name : CollectionName} {c : Collection Db Ring}
        → Comes entries first (ok path ∷ rest) collections d
        → path_exists d (join path collection_config_file) ≡ true
        → file_name path ≡ some name
        → load_collection env name path d ≡ some (ok c, d')
        → Comes entries first rest (insert c.id c collections) d'

  -- The collection of a name is the one that was loaded when the start came to an entry of that name
  -- and found its configuration.
  abbrev pub IsLoadedFrom : Entries env → Disk → Named → Type 0
  IsLoadedFrom entries first collections =
      (name : CollectionName) (c : Collection Db Ring)
      → lookup name collections ≡ some c
      → (path : FilePath) × Memᴰ (ok path) entries
        × (file_name path ≡ some name)
        × (rest : Entries env) × (before : Named) × (d : Disk) × (d' : Disk) × Comes entries first
            (ok path ∷ rest) before d
        × (path_exists d (join path collection_config_file) ≡ true)
        × (load_collection env name path d ≡ some (ok c, d'))

  none-IsLoadedFrom : (entries : Entries env) (first : Disk) → IsLoadedFrom entries first []
  unfolding lookup
  none-IsLoadedFrom entries first name c e = absurd (ground arith)

  insert-IsLoadedFrom :
      (all rest : Entries env) (first : Disk) (path : FilePath) (name : CollectionName)
      (c : Collection Db Ring) (collections : Named) (d d' : Disk)
      → IsLoadedFrom all first collections
      → Memᴰ (ok path) all
      → Comes all first (ok path ∷ rest) collections d
      → path_exists d (join path collection_config_file) ≡ true
      → file_name path ≡ some name
      → load_collection env name path d ≡ some (ok c, d')
      → IsLoadedFrom all first (insert c.id c collections)
  insert-IsLoadedFrom all rest first path name c collections d d' old listed comes there called
        loaded other c' e =
      elim (Bool-cases (c.id == other)) [
        | inr apart ↦ old other c' (ground (arith, lookup-insert c.id other c collections))
        | inl same ↦
            let (entries, shards, q, q', config, named, at, held) =
              load_collection-holder env name path d d' c loaded in
            let it : c ≡ c' = ground (arith, lookup-insert c.id other c collections) in
            let name' : name ≡ other = sym named ∙ (string_eq.beq_iff c.id other).0 same in
            (
              path,
              listed,
              called ∙ ap some name',
              rest,
              collections,
              d,
              d',
              comes,
              there,
              subst (λ x. load_collection env x path d ≡ some (ok c', d')) name'
                  (loaded ∙ ap (λ x. some (ok x, d')) it),
            )
      ]

  load_collections-IsLoadedFrom :
      (all entries : Entries env) (first : Disk) (old collections : Named) (disk disk' : Disk)
      → ((p : FilePath) → Memᴰ (ok p) entries → Memᴰ (ok p) all)
      → Comes all first entries old disk
      → IsLoadedFrom all first old
      → load_collections env entries old disk ≡ some (collections, disk')
      → IsLoadedFrom all first collections
  unfolding load_collections
  load_collections-IsLoadedFrom all [] first old collections disk disk' listed comes h e =
      subst (IsLoadedFrom all first) (ground arith) h
  load_collections-IsLoadedFrom all (err f ∷ entries) first old collections disk disk' listed comes
        h e =
      absurd (ground arith)
  load_collections-IsLoadedFrom all (ok path ∷ entries) first old collections disk disk' listed
        comes h e =
      elim (Bool-cases (path_exists disk (join path collection_config_file))) [
        | inr missing ↦
            load_collections-IsLoadedFrom all entries first old collections disk disk'
              (λ p m. listed p (Memᴰ.tail m)) (passes comes missing) h (ground arith)
        | inl there ↦ elim (Option-cases (file_name path)) [
          | inl nameless ↦ absurd (ground arith)
          | inr (name, called) ↦ elim (Option-cases (load_collection env name path disk)) [
            | inl panics ↦ absurd (ground arith)
            | inr ((err f, d), q) ↦ absurd (ground arith)
            | inr ((ok c, d), q) ↦
                load_collections-IsLoadedFrom all entries first (insert c.id c old) collections d
                  disk' (λ p m. listed p (Memᴰ.tail m)) (loads comes there called q)
                  (insert-IsLoadedFrom all entries first path name c old disk d h
                    (listed path (Memᴰ.head refl)) comes there called q)
                  (ground arith)
          ]
        ]
      ]

  load_collections-kept :
      (entries : Entries env) (old collections : Named) (disk disk' : Disk) (name : CollectionName)
      → load_collections env entries old disk ≡ some (collections, disk')
      → lookup name old ≢ none
      → lookup name collections ≢ none
  unfolding load_collections
  load_collections-kept [] old collections disk disk' name e there = λ gone. there (ground arith)
  load_collections-kept (err f ∷ entries) old collections disk disk' name e there =
      absurd (ground arith)
  load_collections-kept (ok path ∷ entries) old collections disk disk' name e there =
      elim (Bool-cases (path_exists disk (join path collection_config_file))) [
        | inr skipped ↦
            load_collections-kept entries old collections disk disk' name (ground arith) there
        | inl here ↦ elim (Option-cases (file_name path)) [
          | inl nameless ↦ absurd (ground arith)
          | inr (own, called) ↦ elim (Option-cases (load_collection env own path disk)) [
            | inl panics ↦ absurd (ground arith)
            | inr ((err f, d), q) ↦ absurd (ground arith)
            | inr ((ok c, d), q) ↦
                load_collections-kept entries (insert c.id c old) collections d disk' name
                  (ground arith) λ gone. there (ground (arith, lookup-insert c.id name c old))
          ]
        ]
      ]

  module _ (files : DiskLaws env) where
    -- Every entry that has a configuration gives a collection of its name.
    load_collections-all :
        (entries : Entries env) (old collections : Named) (disk disk' : Disk) (p : FilePath)
        → load_collections env entries old disk ≡ some (collections, disk')
        → Memᴰ (ok p) entries
        → path_exists disk (join p collection_config_file) ≡ true
        → (name : CollectionName) × (file_name p ≡ some name) × (lookup name collections ≢ none)
    unfolding load_collections
    load_collections-all [] old collections disk disk' p e m h = absurd (Memᴰ.not-nil m)
    load_collections-all (err f ∷ entries) old collections disk disk' p e m h =
        absurd (ground arith)
    load_collections-all (ok path ∷ entries) old collections disk disk' p e m h =
        elim (Bool-cases (path_exists disk (join path collection_config_file))) [
          | inr skipped ↦ elim (Memᴰ.cases_cons m) [
            | inl here ↦
                let same : p ≡ path = ground arith in
                absurd (
                  Bool-apart h
                    (ap (λ x. path_exists disk (join x collection_config_file)) same ∙ skipped))
            | inr later ↦
                load_collections-all entries old collections disk disk' p (ground arith) later h
          ]
          | inl there ↦ elim (Option-cases (file_name path)) [
            | inl nameless ↦ absurd (ground arith)
            | inr (name, called) ↦ elim (Option-cases (load_collection env name path disk)) [
              | inl panics ↦ absurd (ground arith)
              | inr ((err f, d), q) ↦ absurd (ground arith)
              | inr ((ok c, d), q) ↦
                  let rest : load_collections env entries (insert c.id c old) d
                      ≡ some (collections, disk') =
                    ground arith in
                  elim (Memᴰ.cases_cons m) [
                    | inl here ↦
                        let same : p ≡ path = ground arith in
                        let (es, shards, q1, q2, config, named, at, held) =
                          load_collection-holder env name path disk d c q in
                        (
                          c.id,
                          ap file_name same ∙ called ∙ ap some (sym named),
                          load_collections-kept entries (insert c.id c old) collections d disk' c.id
                              rest
                              λ gone. ground (arith, lookup-insert c.id c.id c old, beq_refl c.id),
                        )
                    | inr later ↦
                        let kept =
                          load_collection-keeps env
                            (λ x. path_exists x (join p collection_config_file))
                            (λ x at. files.create_dir_keeps x at (join p collection_config_file))
                            (λ x at. files.open_keeps x at (join p collection_config_file)) name
                            path disk d c q h in
                        load_collections-all entries (insert c.id c old) collections d disk' p rest
                          later kept
                  ]
            ]
          ]
        ]

    -- In the table of a node that starts without a panic, each collection was loaded from an entry of
    -- its name in the directory of collections, from the disk as the start had left it when it came to
    -- this entry and found a configuration in it; and each entry with a configuration on the disk
    -- before the first of them gives a collection of its name. The channels are those that the start
    -- was given. Assumed: the laws of the file system.
    pub load_lem :
        (channels : ChannelService Uri Channel) (disk disk' : Disk) (t : Toc env)
        → load env channels disk ≡ some (t, disk')
        → (t.channel_service ≡ channels)
          × (entries : Entries env) × (read_dir
                (create_dir_all disk collections_root).1
                collections_root
              ≡ ok entries)
          × IsLoadedFrom entries (create_dir_all disk collections_root).1 t.collections
          × ((p : FilePath)
              → Memᴰ (ok p) entries
              → path_exists (create_dir_all disk collections_root).1 (join p collection_config_file)
                ≡ true
              → (name : CollectionName) × (file_name p ≡ some name)
                × (lookup name t.collections ≢ none))
    unfolding load
    load_lem channels disk disk' t e =
        let disk1 = (create_dir_all disk collections_root).1 in
        elim (Result-cases (create_dir_all disk collections_root).0) [
          | inr (f, q) ↦ absurd (ground arith)
          | inl (u, q) ↦ elim (Result-cases (read_dir disk1 collections_root)) [
            | inr (f, q1) ↦ absurd (ground arith)
            | inl (entries, q1) ↦ elim (Option-cases (load_collections env entries [] disk1)) [
              | inl panics ↦ absurd (ground arith)
              | inr ((collections, d), q2) ↦
                  let it : collections ≡ t.collections = ground arith in
                  (
                    ground arith,
                    entries,
                    q1,
                    subst (IsLoadedFrom entries disk1) it (
                        load_collections-IsLoadedFrom entries entries disk1 [] collections disk1 d
                          (λ p m. m) begins (none-IsLoadedFrom entries disk1) q2),
                    λ p m here.
                        let (name, called, there) =
                          load_collections-all entries [] collections disk1 d p q2 m here in
                        (name, called, subst (λ (x : Named). lookup name x ≢ none) it there),
                  )
            ]
          ]
        ]
