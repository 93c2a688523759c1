-- ===== src/Bench/Batches/Cover.antt =====
-- The batches and the ids.
use mathlib.Core.List.{flatten}
use mathlib.Core.Path.{ap₂}
use native.Mathlib.Decide.{dec_le}
use native.Mathlib.Nat.{div-add-mod', mod-lt, mod-le, mod-eq_of_lt}
use smoldb.Prelude.{
  ℕ, zero, suc, ◌+◌, ◌-◌, ◌*◌, ◌%◌, ◌≤◌, ◌<◌, ◌≡◌, refl, sym, ◌∙◌, ap, ◌∷◌, ◌++◌, min, arith,
  length, All, nat_beq, Bool-cases, inl, inr,
}
use smoldb.Bench.Batches.{
  usize_limit, range_from, range, div_ceil, batch_ids, batches_from, batches,
}

range_from-append :
    (start m n : ℕ) → range_from start (m + n) ≡ range_from start m ++ range_from (start + m) n
unfolding range_from
range_from-append start zero n = ap₂ range_from (omega arith) (omega arith)
range_from-append start (suc m) n =
    let here : suc m + n ≡ suc (m + n) = omega arith in
    let there : start + suc m ≡ start + 1 + m = omega arith in
    rw (here, there) (ap (◌∷◌ start) (range_from-append (start + 1) m n))

length-range_from : (start n : ℕ) → length (range_from start n) ≡ n
unfolding range_from
length-range_from start zero = refl
length-range_from start (suc n) = ap suc (length-range_from (start + 1) n)

range-append : (a b c : ℕ) → a ≤ b → b ≤ c → range a b ++ range b c ≡ range a c
unfolding range
range-append a b c h k =
    let split : c - a ≡ b - a + (c - b) = omega arith in
    let here : b ≡ a + (b - a) = omega arith in
    sym (
      rw split (range_from-append a (b - a) (c - b))
      ∙ ap (λ x. range_from a (b - a) ++ range_from x (c - b)) (sym here))

-- There are enough batches, and no batch is empty.
pub div_ceil_bounds :
    (n size : ℕ) → 0 < size → (n ≤ div_ceil n size * size) × (div_ceil n size * size < n + size)
unfolding div_ceil
div_ceil_bounds n size h =
    let whole = div-add-mod' n size in
    let part = mod-lt n h in
    elim (Bool-cases (nat_beq (n % size) 0)) [
      | inl even ↦ rw (even) (ground arith, ground arith)
      | inr odd ↦ rw (odd) (grind arith, grind arith)
    ]

-- One batch, cut off at the end. Where its end fits into 64 bits, it does not wrap around.
batch_ids-min :
    (n size batch : ℕ)
    → batch * size + size < usize_limit
    → batch_ids n size batch ≡ range (min (batch * size) n) (min ((batch + 1) * size) n)
unfolding batch_ids range
batch_ids-min n size batch fits =
    let from : batch * size % usize_limit ≡ batch * size = mod-eq_of_lt (omega arith) in
    let to : (batch * size + size) % usize_limit ≡ batch * size + size = mod-eq_of_lt fits in
    let next : (batch + 1) * size ≡ batch * size + size = grind arith in
    rw (batch_ids, from, to, next)
      (elim (dec_le (batch * size) n) [
        | yes inside ↦ let here : min (batch * size) n ≡ batch * size = omega arith in rw here
        | no outside ↦
            let none_left : min (batch * size + size) n - batch * size ≡ 0 = omega arith in
            let none_right : min (batch * size + size) n - min (batch * size) n ≡ 0 = omega arith in
            rw (none_left, none_right) (unfold range_from in refl)
      ])

flatten-batches_from :
    (n size batch left : ℕ)
    → (batch + left) * size < usize_limit
    → flatten (batches_from n size batch left)
      ≡ range (min (batch * size) n) (min ((batch + left) * size) n)
unfolding batches_from flatten
flatten-batches_from n size batch zero fits =
    let same : batch + 0 ≡ batch = omega arith in
    let empty : min (batch * size) n - min (batch * size) n ≡ 0 = omega arith in
    rw same (unfold range range_from in rw empty)
flatten-batches_from n size batch (suc left) fits =
    let shift : batch + suc left ≡ batch + 1 + left = omega arith in
    let up : (batch + 1) * size ≤ (batch + 1 + left) * size = grind arith in
    let step : batch * size ≤ (batch + 1) * size = grind arith in
    let whole : (batch + 1 + left) * size < usize_limit = rw (← shift) fits in
    let next : batch * size + size ≡ (batch + 1) * size = grind arith in
    let one : batch * size + size < usize_limit = omega arith in
    rw (shift, batch_ids-min n size batch one, flatten-batches_from n size (batch + 1) left whole)
      (range-append (min (batch * size) n) (min ((batch + 1) * size) n)
        (min ((batch + 1 + left) * size) n) (omega arith) (omega arith))

batches_from_bounds :
    (n size batch left : ℕ) → All (λ ids. length ids ≤ size) (batches_from n size batch left)
unfolding batches_from batch_ids range
batches_from_bounds n size batch zero = tt
batches_from_bounds n size batch (suc left) =
    let start = batch * size % usize_limit in
    let end = mod-le (start + size) usize_limit in
    (rw length-range_from (omega arith), batches_from_bounds n size (batch + 1) left)

length-batches_from : (n size batch left : ℕ) → length (batches_from n size batch left) ≡ left
unfolding batches_from
length-batches_from n size batch zero = refl
length-batches_from n size batch (suc left) = ap suc (length-batches_from n size (batch + 1) left)

-- With a batch size above zero, and where the number of points and the batch size have a sum that fits
-- into 64 bits, the batches one after another are the ids below `num_points`, each
-- once and in order; no batch has more ids than the batch size, and there are `div_ceil` batches, so
-- many that one batch less would not do.
pub batches_cover :
    (num_points batch_size : ℕ)
    → 0 < batch_size
    → num_points + batch_size ≤ usize_limit
    → (flatten (batches num_points batch_size) ≡ range 0 num_points)
      × All (λ ids. length ids ≤ batch_size) (batches num_points batch_size)
      × (length (batches num_points batch_size) * batch_size < num_points + batch_size)
unfolding batches
batches_cover num_points batch_size h fits =
    let (enough, tight) = div_ceil_bounds num_points batch_size h in
    let count = div_ceil num_points batch_size in
    let sum : 0 + count ≡ count = omega arith in
    let inside : (0 + count) * batch_size < usize_limit = rw sum (omega arith) in
    let start : min (0 * batch_size) num_points ≡ 0 = grind arith in
    let end : min (count * batch_size) num_points ≡ num_points = omega arith in
    (
      rw (flatten-batches_from num_points batch_size 0 count inside, start, sum, end),
      batches_from_bounds num_points batch_size 0 count,
      rw length-batches_from tight,
    )
