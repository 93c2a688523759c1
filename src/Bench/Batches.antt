-- ===== src/Bench/Batches.antt =====
-- The batches of `upsert_points` in tools/smolbench/src/apis.rs, on `usize` of 64 bits.
pub mod Cover
use smoldb.Prelude.{
  ℕ, zero, suc, ◌+◌, ◌-◌, ◌*◌, ◌/◌, ◌%◌, ◌^◌, List, [], ◌∷◌, min, nat_beq, if◌then◌else◌,
}

-- `(start..end)` with `count` elements
unfoldable pub range_from : ℕ → ℕ → List ℕ
range_from start zero = []
range_from start (suc count) = start ∷ range_from (start + 1) count

unfoldable pub range : ℕ → ℕ → List ℕ
range start end = range_from start (end - start)

-- `num_points.div_ceil(batch_size)`
unfoldable pub div_ceil : ℕ → ℕ → ℕ
div_ceil n size = if nat_beq (n % size) 0 then n / size else n / size + 1

abbrev pub usize_limit : ℕ
usize_limit = 2 ^ 64

-- the ids of one batch; an overflow wraps around, as it does in a release build
unfoldable pub batch_ids : ℕ → ℕ → ℕ → List ℕ
batch_ids num_points batch_size batch =
    let start = batch * batch_size % usize_limit in
    range start (min ((start + batch_size) % usize_limit) num_points)

-- `for batch in 0..num_batches`, with `left` batches from `batch` on
unfoldable pub batches_from : ℕ → ℕ → ℕ → ℕ → List (List ℕ)
batches_from num_points batch_size batch zero = []
batches_from num_points batch_size batch (suc left) =
    batch_ids num_points batch_size batch ∷ batches_from num_points batch_size (batch + 1) left

unfoldable pub batches : ℕ → ℕ → List (List ℕ)
batches num_points batch_size =
    batches_from num_points batch_size 0 (div_ceil num_points batch_size)
