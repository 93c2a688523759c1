-- ===== src/Tests/Benchmark.antt =====
-- Examples on the benchmark, against a server that counts the requests.
use Prim.Native.Nat.{compare}
use smoldb.Prelude.{
  ℕ, ◌+◌, ◌-◌, ◌*◌, ◌/◌, ◌^◌, ◌≢◌, refl, inl, [], true, false, none, some, ok, arith,
}
use smoldb.Bench.Types.{ApiResponse, Client}
use smoldb.Bench.Driver.{Args, main}
use smoldb.Bench.Driver.Runs.{FloatLaws, main-no_points}
use smoldb.Bench.Driver.Requests.{IsServing}

abbrev yes_in : {A : Type 0} → A → ℕ → ApiResponse ℕ A
yes_in a res = ApiResponse.success (record { result = a; time = res })

abbrev client : Client
client = record {
  World = ℕ;
  Json = ℕ;
  Text = ℕ;
  Seconds = ℕ;
  Response = ℕ;
  send = λ w request. (ok w, w + 1);
  is_success = λ res. true;
  json_bool = λ res. ok (yes_in true res);
  json_value = λ res. ok (yes_in 0 res);
  json_points = λ res. ok (yes_in (record { points = [] }) res);
  text = λ res. ok res;
  value_from_str = λ t. ok (yes_in 0 t);
  object = λ a b. 0;
  now = λ w. "now";
  sleep = λ w ms. w;
  random = λ w. (w, w + 1);
  Float = ℕ;
  F32 = ℕ;
  time_f32 = λ s. s;
  lit_f32 = λ t. 1;
  mul_f32 = λ a b. a * b;
  f32_from = λ n. n;
  f32_to_usize = λ n. n / 2;
  widen = λ n. n;
  lit = λ t. 1;
  mul = λ a b. a * b;
  sub = λ a b. a - b;
  div = λ a b. a / b;
  powf = λ a b. a ^ b;
  sum = λ xs. 0;
  f64_from = λ n. n;
  to_usize = λ n. n;
  partial_cmp = λ a b. some (compare a b);
  sort_by = λ cmp xs. some xs;
}

floats : FloatLaws client
floats = record {
  sorted = λ xs ys e. ground arith;
  comparable = λ xs h e. ground arith;
  numbers = λ s t e. ground arith;
  half = λ n h. omega arith;
  high = λ n h. omega arith;
}

serving : IsServing client
serving = record {
  reached = λ w r. (w, refl);
  deleted = λ res. refl;
  bools = λ res. (record { result = true; time = res }, refl);
  values = λ res. (record { result = 0; time = res }, refl);
  texts = λ res. (res, refl);
  read = λ t. (record { result = 0; time = t }, refl);
}

abbrev args : Args
args = record {
  uri = "http://localhost:9001";
  collection_name = "benchmark";
  num_points = 5;
  batch_size = 2;
  skip_create = false;
  skip_if_exists = false;
  skip_upsert = false;
  skip_query = false;
  p9 = 2;
  delay = none;
}

main-no_points_example : main client (record args { num_points = 0 }) 0 ≢ some (ok tt, 3)
main-no_points_example =
    main-no_points client floats (record args { num_points = 0 }) 0 3 refl (inl refl)
