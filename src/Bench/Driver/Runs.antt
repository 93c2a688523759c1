-- ===== src/Bench/Driver/Runs.antt =====
-- The latencies that the benchmark shows, and what a run without points ends with.
use smoldb.Prelude.{
  ℕ, zero, suc, ◌+◌, ◌-◌, ◌<◌, ◌≡◌, refl, ◌∙◌, sym, ◌≢◌, ◌⊎◌, inl, inr, List, [], ◌∷◌, map, length,
  length-map, Bool, true, false, Option, none, some, ok, err, min, nat_beq, arith, get_elem?,
  Option-cases, Bool-cases, All,
}
use smoldb.Bench.Batches.{range, div_ceil}
use smoldb.Bench.Types.{ApiSuccessResponse, Client}
use smoldb.Bench.Apis.{Outcome, upsert_from, upsert_points, retrieve_point}
use smoldb.Bench.Driver.{
  Args, last, to_ms, sort, index_at, index_nines, nines_of, log_latencies, prepare, upsert, draw,
  query, unless, then_do, main,
}

module _ {A : Type 0} where
  get-below : (xs : List A) (i : ℕ) → i < length xs → (x : A) × (get_elem? xs i ≡ some x)
  get-below [] i h = absurd (omega arith)
  get-below (x ∷ xs) zero h = (x, refl)
  get-below (x ∷ xs) (suc i) h = get-below xs i (omega arith)

  last-some : (xs : List A) → 0 < length xs → (x : A) × (last xs ≡ some x)
  unfolding last
  last-some [] h = absurd (omega arith)
  last-some (x ∷ []) h = (x, refl)
  last-some (x ∷ y ∷ xs) h = last-some (y ∷ xs) (omega arith)

module _ (client : Client) where
  open client use {
    World, Json, Text, Seconds, Response, send, is_success, json_bool, json_value, text,
    value_from_str, Float, lit_f32, mul_f32, f32_from, f32_to_usize, partial_cmp, sort_by,
  }

  -- Sorting gives as many numbers as it takes, and does not panic where each two of them can be
  -- compared. A number that serde_json read can be compared, also in milliseconds. The product of a
  -- number above zero with 0.50 or 0.95 is rounded down to a smaller number.
  pub record FloatLaws : Type 0 where
    pub sorted : (xs ys : List Float) → sort_by partial_cmp xs ≡ some ys → length ys ≡ length xs
    pub comparable :
        (xs : List Float)
        → All (λ x. All (λ y. partial_cmp x y ≢ none) xs) xs
        → sort_by partial_cmp xs ≢ none
    pub numbers : (s t : Seconds) → partial_cmp (to_ms client s) (to_ms client t) ≢ none
    pub half : (n : ℕ) → 0 < n → f32_to_usize (mul_f32 (f32_from n) (lit_f32 "0.50")) < n
    pub high : (n : ℕ) → 0 < n → f32_to_usize (mul_f32 (f32_from n) (lit_f32 "0.95")) < n

  abbrev Part : Type 0
  Part = Option (Outcome client (Unit {0}))

  none-some : {o : Outcome client (Unit {0})} → ¬ (none ≡ some o)
  none-some e = ground arith

  then_do-first :
      (done : Part) (part : World → Part)
      → ((w : World) → done ≢ some (ok tt, w))
      → (w : World) → then_do client done part ≢ some (ok tt, w)
  unfolding then_do
  then_do-first none part h w e = ground arith
  then_do-first (some (err f, v)) part h w e = ground arith
  then_do-first (some (ok tt, v)) part h w e = h v refl

  then_do-second :
      (done : Part) (part : World → Part) (w : World)
      → ((v : World) → part v ≢ some (ok tt, w))
      → then_do client done part ≢ some (ok tt, w)
  unfolding then_do
  then_do-second none part w h e = ground arith
  then_do-second (some (err f, v)) part w h e = ground arith
  then_do-second (some (ok tt, v)) part w h e = h v e

  All-to_ms :
      (P : Float → Type 0)
      → ((s : Seconds) → P (to_ms client s))
      → (responses : List (ApiSuccessResponse Seconds Json))
      → All P (map (λ res. to_ms client res.time) responses)
  All-to_ms P h [] = tt
  All-to_ms P h (res ∷ responses) = (h res.time, All-to_ms P h responses)

  module _ (floats : FloatLaws) where
    nines-some :
        (latencies : List Float) (digits : List ℕ)
        → 0 < length latencies
        → (times : List Float) × (nines_of client latencies digits ≡ some times)
    unfolding nines_of
    nines-some latencies [] h = ([], refl)
    nines-some latencies (d ∷ digits) h =
        let (time, q) =
          get-below latencies (min (index_nines client (length latencies) d) (length latencies - 1))
            (omega arith) in
        let (times, q') = nines-some latencies digits h in (time ∷ times, ground arith)

    pub log_latencies-some :
        (responses : List (ApiSuccessResponse Seconds Json)) (p9 : ℕ)
        → 0 < length responses
        → log_latencies client responses p9 ≢ none
    unfolding log_latencies sort index_at
    log_latencies-some responses p9 h gone =
        elim (Option-cases (sort client (map (λ res. to_ms client res.time) responses))) [
          | inl panics ↦
              floats.comparable (map (λ res. to_ms client res.time) responses)
                (All-to_ms _ (λ s. All-to_ms _ (λ t. floats.numbers s t) responses) responses)
                panics
          | inr (xs, q) ↦
              let count : length xs ≡ length responses =
                floats.sorted (map (λ res. to_ms client res.time) responses) xs q
                ∙ length-map (λ res. to_ms client res.time) responses in
              let some_left : 0 < length xs = ground arith in
              let (least, q0) = get-below xs 0 some_left in
              let (greatest, q1) = last-some xs some_left in
              let (middle, q2) =
                get-below xs (index_at client "0.50" (length xs))
                  (floats.half (length xs) some_left) in
              let (high, q3) =
                get-below xs (index_at client "0.95" (length xs))
                  (floats.high (length xs) some_left) in
              let (nines, q4) = nines-some xs (range 2 (p9 + 1)) some_left in ground arith
        ]

    log_latencies-none : (p9 : ℕ) → log_latencies client {A = Json} [] p9 ≡ none
    unfolding log_latencies sort index_at
    log_latencies-none p9 = elim (Option-cases (sort client [])) [
      | inl panics ↦ rw panics refl
      | inr ([], q) ↦ rw q refl
      | inr (x ∷ xs, q) ↦ absurd (let count = floats.sorted [] (x ∷ xs) q in omega arith)
    ]

    none_to_send : (batch_size : ℕ) → ¬ (batch_size ≡ 0) → div_ceil 0 batch_size ≡ 0
    unfolding div_ceil
    none_to_send batch_size h = ground arith

    upsert-none : (args : Args) (w : World) → args.num_points ≡ 0 → upsert client args w ≡ none
    unfolding upsert upsert_points upsert_from
    upsert-none args w e = elim (Bool-cases (nat_beq args.batch_size 0)) [
      | inl zero_size ↦ rw zero_size refl
      | inr some_size ↦
          rw (some_size, e, none_to_send args.batch_size (ground arith), log_latencies-none args.p9)
            refl
    ]

    query-none : (args : Args) (w : World) → args.num_points ≡ 0 → query client args w ≡ none
    unfolding query draw retrieve_point
    query-none args w e = rw (e, log_latencies-none args.p9) refl

    part_none :
        (skip : Bool) (part : World → Option (Outcome client (Unit {0}))) (w : World)
        → skip ≡ false
        → part w ≡ none
        → unless client skip part w ≡ none
    unfolding unless
    part_none true part w h e = absurd (ground arith)
    part_none false part w h e = e

    -- With no points, a run that upserts or queries never ends well: it panics or fails, as there
    -- is no latency to show. Assumed: sorting keeps the number of latencies.
    pub main-no_points :
        (args : Args) (w w' : World)
        → args.num_points ≡ 0
        → (args.skip_upsert ≡ false) ⊎ (args.skip_query ≡ false)
        → main client args w ≢ some (ok tt, w')
    unfolding main unless
    main-no_points args w w' e (inl asked) done =
        then_do-first
          (then_do client (unless client args.skip_create (λ x. some (prepare client args x)) w)
            (unless client args.skip_upsert (upsert client args)))
          (unless client args.skip_query (query client args))
          (λ v.
            then_do-second (unless client args.skip_create (λ x. some (prepare client args x)) w)
              (unless client args.skip_upsert (upsert client args)) v
              λ u at. none-some (
                sym (part_none args.skip_upsert (upsert client args) u asked (upsert-none args u e))
                ∙ at))
          w' done
    main-no_points args w w' e (inr asked) done =
        then_do-second
          (then_do client (unless client args.skip_create (λ x. some (prepare client args x)) w)
            (unless client args.skip_upsert (upsert client args)))
          (unless client args.skip_query (query client args)) w'
          (λ u at. none-some (
            sym (part_none args.skip_query (query client args) u asked (query-none args u e)) ∙ at))
          done
