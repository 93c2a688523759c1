-- ===== src/Tests/Interleavings.antt =====
-- An example of two insertions that run at the same time: both write the point of number 1.
use smoldb.Prelude.{ℕ, sym, List, [], ◌∷◌, true, false, Bool, arith, All, ◌⊎◌}
use smoldb.Storage.Point.{PointId, Point}
use smoldb.Storage.Segment.Concurrent.{inserting, Interleave, run, Failed}
use smoldb.Storage.Segment.Concurrent.Orders.{Leaves, run-Interleave}
use smoldb.Storage.Segment.Writes.{RoundTrips}
use smoldb.Tests.Demo.{demo, demo_sled}
use smoldb.Tests.Shards.{three, three-RoundTrips}

abbrev two : List (Point ℕ)
two = record { id = PointId.id 1; payload = 40 } ∷ record { id = PointId.id 3; payload = 50 } ∷ []

two-RoundTrips : All (RoundTrips demo) two
two-RoundTrips = (λ t e. sym e, (λ t e. sym e, tt))

abbrev schedule : List Bool
schedule = true ∷ false ∷ true ∷ true ∷ false ∷ true ∷ false ∷ []

run-Interleave_example :
    let (v, w, db') = run demo schedule (inserting three) (inserting two) [] in
    Failed v ⊎ Failed w ⊎ (zs : List (Point ℕ)) × Interleave three two zs × Leaves demo zs [] db'
run-Interleave_example =
    run-Interleave demo demo_sled schedule three two [] three-RoundTrips two-RoundTrips
      (omega arith) (omega arith)
