-- ===== src/Storage/Recovery/Restart.antt =====
-- A collection that was created is found again when the node starts.
use mathlib.Core.List.Memᴰ
use mathlib.Core.List.{Memᴰ}
use smoldb.Prelude.{String, List, Result, ok, nat_eq, string_eq}
use smoldb.Types.{FilePath}
use smoldb.Storage.Collection.{Collection}

abbrev readable : FilePath → Result String FilePath
readable p = ok p
