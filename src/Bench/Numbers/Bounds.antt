-- ===== src/Bench/Numbers/Bounds.antt =====
-- The values that `parse_number` accepts.
use Prim.Native.Char.{Char, code}
use Prim.Native.String.{[], ◌∷◌, ◌++◌}
use text.Mathlib.TextLemmas.{append-nil, cons-append}
use smoldb.Prelude.{
  ℕ, ◌+◌, ◌*◌, ◌^◌, ◌<◌, String, ◌≡◌, refl, ◌∙◌, sym, ap, none, some, ok, arith, Option-cases,
  Bool-cases, inl, inr, nat_beq, ltb, false,
}
use smoldb.Decimal.{show, digit, to_digit, u64_limit, checked_mul, checked_add}
use smoldb.Decimal.RoundTrip.{to_digit-digit, read-show, show_head}
use smoldb.Bench.Numbers.{
  power, multiplier, apply_unit, parse_from, parse_number_impl, parse_number,
}

apply_unit-lt :
    (result : ℕ) (c : Char) (s : String) (v : ℕ) → apply_unit result c s ≡ some v → v < u64_limit
unfolding apply_unit checked_mul
apply_unit-lt result c s v h = ground arith

parse_from-lt :
    (result : ℕ) (s : String) (v : ℕ)
    → result < u64_limit
    → parse_from result s ≡ some v
    → v < u64_limit
unfolding parse_from checked_mul checked_add
parse_from-lt result [] v h e = ground arith
parse_from-lt result (c ∷ s) v h e = elim (Option-cases (to_digit c)) [
  | inl other ↦ elim (Bool-cases (nat_beq (code c) b'_')) [
    | inl skip ↦ parse_from-lt result s v h (ground arith)
    | inr unit ↦ apply_unit-lt result c s v (ground arith)
  ]
  | inr (d, q) ↦ elim (Bool-cases (ltb (result * 10 + d) u64_limit)) [
    | inl fits ↦ parse_from-lt (result * 10 + d) s v (ground arith) (ground arith)
    | inr over ↦ absurd (ground arith)
  ]
]

to_digit-lt : (c : Char) (d : ℕ) → to_digit c ≡ some d → d < 10
unfolding to_digit
to_digit-lt c d h = ground arith

parse_from-step :
    (n d : ℕ) (s : String)
    → d < 10
    → n * 10 + d < u64_limit
    → parse_from n (digit d ∷ s) ≡ parse_from (n * 10 + d) s
unfolding parse_from checked_mul checked_add
parse_from-step n d s small h = rw (to_digit-digit d small, parse_from) (ground arith)

-- A number that is accepted fits into 64 bits: no step of the parse wraps around.
parse_number-lt : (text : String) (v : ℕ) → parse_number text ≡ ok v → v < u64_limit
unfolding parse_number parse_number_impl
parse_number-lt [] v e = absurd (ground arith)
parse_number-lt (c ∷ s) v e = elim (Option-cases (to_digit c)) [
  | inl q ↦ absurd (ground arith)
  | inr (d, q) ↦ elim (Option-cases (parse_from d s)) [
    | inl r ↦ absurd (ground arith)
    | inr (w, r) ↦
        let small = to_digit-lt c d q in
        let within = parse_from-lt d s w (omega arith) r in ground arith
  ]
]

-- A printed number is read as itself, and then what follows it.
pub parse-show_before :
    (n : ℕ) (out : String) → n < u64_limit → parse_number_impl (show n ++ out) ≡ parse_from n out
unfolding parse_number_impl
parse-show_before n out h =
    let (d, s, small, value, e) = show_head n in
    let whole = read-show u64_limit parse_from parse_from-step n out h in
    let first : parse_from 0 (digit d ∷ (s ++ out)) ≡ parse_from d (s ++ out) =
      parse_from-step 0 d (s ++ out) small (omega arith)
      ∙ ap (λ m. parse_from m (s ++ out)) (omega arith) in
    rw (e, cons-append (digit d) s out, value)
      (sym first ∙ (rw (e, cons-append (digit d) s out) at whole))

parse_from-unit :
    (n p : ℕ) (unit : Char) (out : String)
    → power unit ≡ some p
    → parse_from n (unit ∷ out) ≡ apply_unit n unit out
unfolding power to_digit
parse_from-unit n p unit out e =
    let other : to_digit unit ≡ none = ground arith in
    let more : nat_beq (code unit) b'_' ≡ false = ground arith in
    unfold parse_from in rw (other, parse_from) (rw more)

-- A decimal number below 2 ^ 64 is accepted with its value. Behind it a unit multiplies by a power
-- of 1000, or of 1024 if an `i` follows, and the product is accepted exactly if it fits into 64 bits;
-- whatever follows the `i` is not read.
pub parse_number-show :
    (n p : ℕ) (unit : Char) (rest : String)
    → n < u64_limit
    → power unit ≡ some p
    → (parse_number_impl (show n) ≡ some n)
      × (parse_number_impl (show n ++ (unit ∷ [])) ≡ checked_mul u64_limit n (1000 ^ p))
      × (parse_number_impl (show n ++ (unit ∷ "i" ∷ rest)) ≡ checked_mul u64_limit n (1024 ^ p))
parse_number-show n p unit rest h e =
    let none_left = parse-show_before n [] h in
    (
      (rw (append-nil (show n)) at none_left) ∙ unfold parse_from in refl,
      parse-show_before n (unit ∷ []) h
          ∙ parse_from-unit n p unit [] e
          ∙ unfold apply_unit multiplier in rw e,
      parse-show_before n (unit ∷ "i" ∷ rest) h
          ∙ parse_from-unit n p unit ("i" ∷ rest) e
          ∙ unfold apply_unit multiplier in rw e,
    )
