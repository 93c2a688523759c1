-- ===== src/Bench/Driver.antt =====
-- `main` of tools/smolbench/src/main.rs, the arguments of args.rs and `log_latencies` of utils.rs.
-- `none` is a panic. What is printed is left out, but for the latencies.
pub mod Runs
pub mod Requests
pub mod Serves
use smoldb.Prelude.{
  ℕ, zero, suc, ◌+◌, ◌-◌, ◌%◌, ◌^◌, String, List, [], ◌∷◌, map, length, Bool, true, false, Option,
  none, some, ◌>>=◌, Result, ok, err, is_ok, min, nat_beq, get_elem?, if◌then◌else◌,
}
use smoldb.Bench.Batches.{range}
use smoldb.Bench.Types.{ApiSuccessResponse, SmolBenchError, show_error, Client}
use smoldb.Bench.Apis.{
  Outcome, create_collection, get_collection, delete_collection, upsert_points, retrieve_point,
}

-- `uri` is the display of the parsed `Uri`.
pub record Args : Type 0 where
  pub uri : String
  pub collection_name : String
  pub num_points : ℕ
  pub batch_size : ℕ
  pub skip_create : Bool
  pub skip_if_exists : Bool
  pub skip_upsert : Bool
  pub skip_query : Bool
  pub p9 : ℕ
  pub delay : Option ℕ

-- the defaults of clap, with the display of `http://localhost:9001`
unfoldable pub default_args : String → Args
default_args uri = record {
  uri = uri;
  collection_name = "benchmark";
  num_points = 100000;
  batch_size = 1000;
  skip_create = false;
  skip_if_exists = false;
  skip_upsert = false;
  skip_query = false;
  p9 = 2;
  delay = none;
}

-- what `log_latencies` prints
pub record Latencies (F : Type 0) : Type 0 where
  pub avg : F
  pub min : F
  pub p50 : F
  pub p95 : F
  pub nines : List F
  pub max : F

unfoldable pub last : {A : Type 0} → List A → Option A
last [] = none
last (x ∷ []) = some x
last (x ∷ y ∷ xs) = last (y ∷ xs)

module _ (client : Client) where
  open client use {
    World, Json, Seconds, Float, time_f32, lit_f32, mul_f32, f32_from, f32_to_usize, widen, lit,
    mul, sub, div, powf, sum, f64_from, to_usize, partial_cmp, sort_by, random,
  }

  -- `(res.time * 1000.0) as f64`
  unfoldable pub to_ms : Seconds → Float
  to_ms time = widen (mul_f32 (time_f32 time) (lit_f32 "1000.0"))

  -- `latencies.sort_unstable_by(|a, b| a.partial_cmp(b).unwrap())`
  unfoldable pub sort : List Float → Option (List Float)
  sort latencies = sort_by partial_cmp latencies

  unfoldable pub mean : List Float → Float
  mean latencies = div (sum latencies) (f64_from (length latencies))

  -- `(latencies.len() as f32 * factor) as usize`
  unfoldable pub index_at : String → ℕ → ℕ
  index_at factor count = f32_to_usize (mul_f32 (f32_from count) (lit_f32 factor))

  -- `(latencies.len() as f64 * (1.0 - 1.0 * 0.1f64.powf(digits as f64))) as usize`
  unfoldable pub index_nines : ℕ → ℕ → ℕ
  index_nines count digits = to_usize (
      mul (f64_from count) (sub (lit "1.0") (mul (lit "1.0") (powf (lit "0.1") (f64_from digits)))))

  -- the loop over the numbers of nines
  unfoldable pub nines_of : List Float → List ℕ → Option (List Float)
  nines_of latencies [] = some []
  nines_of latencies (digits ∷ more) = do
    let count = length latencies
    time ← get_elem? latencies (min (index_nines count digits) (count - 1))
    times ← nines_of latencies more
    some (time ∷ times)

  unfoldable pub log_latencies :
      {A : Type 0} → List (ApiSuccessResponse Seconds A) → ℕ → Option (Latencies Float)
  log_latencies responses p9 = do
    latencies ← sort (map (λ res. to_ms res.time) responses)
    least ← get_elem? latencies 0
    greatest ← last latencies
    middle ← get_elem? latencies (index_at "0.50" (length latencies))
    high ← get_elem? latencies (index_at "0.95" (length latencies))
    nines ← nines_of latencies (range 2 (p9 + 1))
    some (record {
      avg = mean latencies;
      min = least;
      p50 = middle;
      p95 = high;
      nines = nines;
      max = greatest;
    })

  -- a creation of which an error is given out once more
  unfoldable pub create_anew : Args → World → Outcome client (Unit {0})
  create_anew args world =
      let (created, world') = create_collection client args.uri args.collection_name world in
      elim created [
        | ok _ ↦ (ok tt, world')
        | err e ↦ (err (SmolBenchError.create_collection_error (show_error e)), world')
      ]

  -- the part under `if !args.skip_create`
  unfoldable pub prepare : Args → World → Outcome client (Unit {0})
  prepare args world =
      let (found, world') = get_collection client args.uri args.collection_name world in
      if is_ok found
      then (if args.skip_if_exists
          then (ok tt, world')
          else (let (deleted, world'') =
                delete_collection client args.uri args.collection_name world' in
              elim deleted [ err e ↦ (err e, world'') | ok _ ↦ create_anew args world'' ]))
      else create_anew args world'

  -- the part under `if !args.skip_upsert`
  unfoldable pub upsert : Args → World → Option (Outcome client (Unit {0}))
  upsert args world = do
    (sent, world') ←
        upsert_points client args.uri args.collection_name args.num_points args.batch_size
          args.delay world
    elim sent [
      | err e ↦ some (err e, world')
      | ok responses ↦ (do latencies ← log_latencies responses args.p9; some (ok tt, world'))
    ]

  -- the ids that are drawn; a remainder by zero panics
  unfoldable pub draw : ℕ → ℕ → World → Option (List ℕ × World)
  draw num_points zero world = some ([], world)
  draw num_points (suc left) world =
      let (drawn, world') = random world in
      do
        (ids, world'') ← draw num_points left world'
        if nat_beq num_points 0 then none else some (drawn % num_points ∷ ids, world'')

  -- the part under `if !args.skip_query`
  unfoldable pub query : Args → World → Option (Outcome client (Unit {0}))
  query args world = do
    (ids, world') ← draw args.num_points (min args.num_points 1000) world
    let (sent, world'') = retrieve_point client args.uri args.collection_name ids world'
    elim sent [
      | err e ↦ some (err e, world'')
      | ok responses ↦ (do latencies ← log_latencies responses args.p9; some (ok tt, world''))
    ]

  -- a part unless it is skipped
  unfoldable pub unless :
      Bool
      → (World → Option (Outcome client (Unit {0})))
      → World
      → Option (Outcome client (Unit {0}))
  unless true part world = some (ok tt, world)
  unless false part world = part world

  -- one part and then, if it succeeded, another
  unfoldable pub then_do :
      Option (Outcome client (Unit {0}))
      → (World → Option (Outcome client (Unit {0})))
      → Option (Outcome client (Unit {0}))
  then_do done part = do
    (result, world) ← done
    elim result [ err e ↦ some (err e, world) | ok _ ↦ part world ]

  unfoldable pub main : Args → World → Option (Outcome client (Unit {0}))
  main args world =
      then_do
        (then_do (unless args.skip_create (λ w. some (prepare args w)) world)
          (unless args.skip_upsert (upsert args)))
        (unless args.skip_query (query args))
