-- ===== src/Bench/Numbers.antt =====
-- `parse_number` of tools/smolbench/src/args.rs
pub mod Bounds
use Prim.Native.Char.{Char, code}
use Prim.Native.String.{[], ◌∷◌}
use smoldb.Prelude.{
  ℕ, zero, suc, ◌+◌, ◌^◌, String, ◌≡◌, refl, Option, none, some, ◌>>=◌, Result, ok, err, ok_or,
  nat_beq, if◌then◌else◌,
}
use Prim.Native.String
use smoldb.Decimal.{u64_limit, checked_mul, checked_add, to_digit}

-- `"kMBT".find(c)? as u32 + 1`
unfoldable pub power : Char → Option ℕ
power c =
    if nat_beq (code c) b'k'
    then some 1
    else if nat_beq (code c) b'M'
    then some 2
    else if nat_beq (code c) b'B'
    then some 3
    else if nat_beq (code c) b'T'
    then some 4
    else none

-- The multiplier of a unit, from what follows it. Nothing is read behind an `i`.
unfoldable pub multiplier : ℕ → String → Option ℕ
multiplier p [] = some (1000 ^ p)
multiplier p (c ∷ s) = if nat_beq (code c) b'i' then some (1024 ^ p) else none

unfoldable pub apply_unit : ℕ → Char → String → Option ℕ
unfolding power multiplier
apply_unit result c s = do p ← power c; m ← multiplier p s; checked_mul u64_limit result m

-- the loop over the characters
unfoldable pub parse_from : ℕ → String → Option ℕ
unfolding apply_unit checked_mul checked_add to_digit
parse_from result [] = some result
parse_from result (c ∷ s) = elim (to_digit c) [
  | some v ↦ (do
    tens ← checked_mul u64_limit result 10
    result' ← checked_add u64_limit tens v
    parse_from result' s)
  | none ↦ if nat_beq (code c) b'_' then parse_from result s else apply_unit result c s
]

-- `parse_number_impl`
unfoldable pub parse_number_impl : String → Option ℕ
unfolding parse_from
parse_number_impl [] = none
parse_number_impl (c ∷ s) = do result ← to_digit c; parse_from result s

-- `parse_number`; a `usize` has the range of a `u64`
unfoldable pub parse_number : String → Result String ℕ
unfolding parse_number_impl
parse_number n = ok_or (String.◌++◌ "Invalid number: " n) (parse_number_impl n)

-- the test of args.rs
parse_number_test :
    (parse_number "100" ≡ ok 100)
    × (parse_number "1k" ≡ ok 1000)
    × (parse_number "1M" ≡ ok 1_000_000)
    × (parse_number "1B" ≡ ok 1_000_000_000)
    × (parse_number_impl "1K" ≡ none)
    × (parse_number_impl "1b" ≡ none)
unfolding parse_number
parse_number_test = (refl, refl, refl, refl, refl, refl)
