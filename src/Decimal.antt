-- ===== src/Decimal.antt =====
-- `u64::to_string` and `str::parse` for the unsigned types of Rust's standard library, which
-- storage/segment.rs (`PointId::into_string`), api/points.rs (`get_point`) and
-- storage/replicas/local_shard.rs (`LocalShard::load`) use.
pub mod RoundTrip
use Prim.Native.Char.{Char, code}
use Prim.Native.String.{[], ◌∷◌}
use smoldb.Prelude.{
  ℕ, zero, suc, ◌+◌, ◌-◌, ◌*◌, ◌/◌, ◌%◌, ◌^◌, String, ◌≡◌, refl, Option, none, some, ◌>>=◌, ◌&&◌,
  true, false, leb, ltb, nat_beq, if◌then◌else◌,
}

abbrev pub u64_limit : ℕ
u64_limit = 2 ^ 64

abbrev pub u32_limit : ℕ
u32_limit = 2 ^ 32

-- `a.checked_mul(b)` and `a.checked_add(b)` at a type with the values below `limit`
unfoldable pub checked_mul : ℕ → ℕ → ℕ → Option ℕ
checked_mul limit a b = if ltb (a * b) limit then some (a * b) else none

unfoldable pub checked_add : ℕ → ℕ → ℕ → Option ℕ
checked_add limit a b = if ltb (a + b) limit then some (a + b) else none

-- the digit of a number below ten
unfoldable pub digit : ℕ → Char
digit zero = "0"
digit (suc zero) = "1"
digit (suc (suc zero)) = "2"
digit (suc (suc (suc zero))) = "3"
digit (suc (suc (suc (suc zero)))) = "4"
digit (suc (suc (suc (suc (suc zero))))) = "5"
digit (suc (suc (suc (suc (suc (suc zero)))))) = "6"
digit (suc (suc (suc (suc (suc (suc (suc zero))))))) = "7"
digit (suc (suc (suc (suc (suc (suc (suc (suc zero)))))))) = "8"
digit _ = "9"

-- `c.to_digit(10)`
unfoldable pub to_digit : Char → Option ℕ
to_digit c = if leb 48 (code c) && leb (code c) 57 then some (code c - 48) else none

-- one digit after another from the right; a number below `fuel` has no more than `fuel` digits
unfoldable pub show_onto : ℕ → ℕ → String → String
show_onto zero n out = out
show_onto (suc fuel) n out =
    let out' = digit (n % 10) ∷ out in
    elim (leb 10 n) [ true ↦ show_onto fuel (n / 10) out' | false ↦ out' ]

-- `n.to_string()`
unfoldable pub show : ℕ → String
unfolding show_onto digit
show n = show_onto (suc n) n []

unfoldable pub parse_digits : ℕ → ℕ → String → Option ℕ
parse_digits limit n [] = some n
parse_digits limit n (c ∷ s) = do
  d ← to_digit c
  tens ← checked_mul limit n 10
  n' ← checked_add limit tens d
  parse_digits limit n' s

-- `s.parse()`: an optional sign, then at least one digit
unfoldable pub parse_uint : ℕ → String → Option ℕ
unfolding parse_digits checked_mul checked_add to_digit
parse_uint limit [] = none
parse_uint limit (c ∷ []) = parse_digits limit 0 (c ∷ [])
parse_uint limit (c ∷ c' ∷ s) =
    if nat_beq (code c) 43 then parse_digits limit 0 (c' ∷ s) else parse_digits limit 0 (c ∷ c' ∷ s)

show_largest : show (2 ^ 64 - 1) ≡ "18446744073709551615"
unfolding show
show_largest = refl

parse_signed : parse_uint u64_limit "+007" ≡ some 7
unfolding parse_uint
parse_signed = refl

parse_overflow : parse_uint u64_limit "18446744073709551616" ≡ none
unfolding parse_uint
parse_overflow = refl
