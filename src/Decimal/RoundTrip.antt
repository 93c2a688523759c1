-- ===== src/Decimal/RoundTrip.antt =====
-- Printed numbers, and what they parse to.
use Prim.Native.Char.{code}
use Prim.Native.String.{[], ◌∷◌, ◌++◌}
use text.Mathlib.TextLemmas.{nil-append, cons-append, append-nil}
use smoldb.Prelude.{
  ℕ, zero, suc, ◌+◌, ◌*◌, ◌/◌, ◌%◌, ◌<◌, String, ◌≡◌, refl, ap, ◌∙◌, Option, some, arith, leb,
  nat_beq, false, inl, inr, Bool-cases,
}
use smoldb.Decimal.{
  digit, to_digit, show_onto, show, parse_digits, parse_uint, checked_mul, checked_add,
}

pub to_digit-digit : (d : ℕ) → d < 10 → to_digit (digit d) ≡ some d
unfolding to_digit digit
to_digit-digit zero h = refl
to_digit-digit (suc zero) h = refl
to_digit-digit (suc (suc zero)) h = refl
to_digit-digit (suc (suc (suc zero))) h = refl
to_digit-digit (suc (suc (suc (suc zero)))) h = refl
to_digit-digit (suc (suc (suc (suc (suc zero))))) h = refl
to_digit-digit (suc (suc (suc (suc (suc (suc zero)))))) h = refl
to_digit-digit (suc (suc (suc (suc (suc (suc (suc zero))))))) h = refl
to_digit-digit (suc (suc (suc (suc (suc (suc (suc (suc zero)))))))) h = refl
to_digit-digit (suc (suc (suc (suc (suc (suc (suc (suc (suc zero))))))))) h = refl
to_digit-digit (suc (suc (suc (suc (suc (suc (suc (suc (suc (suc n)))))))))) h =
    absurd (omega arith)

digit_unsigned : (d : ℕ) → nat_beq (code (digit d)) 43 ≡ false
unfolding digit
digit_unsigned zero = refl
digit_unsigned (suc zero) = refl
digit_unsigned (suc (suc zero)) = refl
digit_unsigned (suc (suc (suc zero))) = refl
digit_unsigned (suc (suc (suc (suc zero)))) = refl
digit_unsigned (suc (suc (suc (suc (suc zero))))) = refl
digit_unsigned (suc (suc (suc (suc (suc (suc zero)))))) = refl
digit_unsigned (suc (suc (suc (suc (suc (suc (suc zero))))))) = refl
digit_unsigned (suc (suc (suc (suc (suc (suc (suc (suc zero)))))))) = refl
digit_unsigned _ = refl

parse-step :
    (limit n d : ℕ) (s : String)
    → d < 10
    → n * 10 + d < limit
    → parse_digits limit n (digit d ∷ s) ≡ parse_digits limit (n * 10 + d) s
unfolding parse_digits checked_mul checked_add
parse-step limit n d s hd h = rw (to_digit-digit d hd) (ground arith)

append-show_onto : (fuel n : ℕ) (s t : String) → show_onto fuel n s ++ t ≡ show_onto fuel n (s ++ t)
unfolding show_onto
append-show_onto zero n s t = refl
append-show_onto (suc fuel) n s t = elim (Bool-cases (leb 10 n)) [
  | inl more ↦
      rw (more, show_onto)
        (append-show_onto fuel (n / 10) (digit (n % 10) ∷ s) t
          ∙ rw (cons-append (digit (n % 10)) s t))
  | inr last ↦ rw (last, show_onto) (cons-append (digit (n % 10)) s t)
]

-- What reads a digit by a step reads a printed number whole.
module _ (limit : ℕ) (read : ℕ → String → Option ℕ)
    (step : (n d : ℕ) (s : String)
      → d < 10
      → n * 10 + d < limit
      → read n (digit d ∷ s) ≡ read (n * 10 + d) s) where
  read-show_onto :
      (fuel n : ℕ) (out : String)
      → n < fuel
      → n < limit
      → read 0 (show_onto fuel n out) ≡ read n out
  unfolding show_onto
  read-show_onto zero n out h k = absurd (omega arith)
  read-show_onto (suc fuel) n out h k = elim (Bool-cases (leb 10 n)) [
    | inl more ↦
        rw (more, show_onto)
          (read-show_onto fuel (n / 10) (digit (n % 10) ∷ out) (ground arith) (omega arith)
            ∙ step (n / 10) (n % 10) out (omega arith) (omega arith)
            ∙ ap (λ m. read m out) (omega arith))
    | inr last ↦
        rw (last, show_onto)
          (step 0 (n % 10) out (omega arith) (ground arith) ∙ ap (λ m. read m out) (ground arith))
  ]

  pub read-show : (n : ℕ) (out : String) → n < limit → read 0 (show n ++ out) ≡ read n out
  unfolding show
  read-show n out h =
      rw (append-show_onto (suc n) n [] out, nil-append out)
        (read-show_onto (suc n) n out (omega arith) h)

show_shape :
    (fuel n : ℕ) (out : String)
    → (d : ℕ) × (s : String) × (d < 10) × (show_onto (suc fuel) n out ≡ digit d ∷ s)
unfolding show_onto
show_shape zero n out = (n % 10, out, omega arith, ground arith)
show_shape (suc fuel) n out = elim (Bool-cases (leb 10 n)) [
  | inl more ↦
      let (d, s, small, e) = show_shape fuel (n / 10) (digit (n % 10) ∷ out) in
      (d, s, small, rw (more, show_onto) e)
  | inr last ↦ (n % 10, out, omega arith, rw (last, show_onto))
]

-- A printed number begins with a digit.
pub show_head :
    (n : ℕ)
    → (d : ℕ) × (s : String) × (d < 10) × (to_digit (digit d) ≡ some d) × (show n ≡ digit d ∷ s)
unfolding show
show_head n = let (d, s, small, e) = show_shape n n [] in (d, s, small, to_digit-digit d small, e)

unsigned :
    (limit d : ℕ) (s : String) → parse_uint limit (digit d ∷ s) ≡ parse_digits limit 0 (digit d ∷ s)
unsigned limit d [] = unfold parse_uint in refl
unsigned limit d (c ∷ s) = unfold parse_uint in rw (digit_unsigned d)

-- A number of the range of an unsigned type, printed and parsed again, is the number.
pub parse-show : (limit n : ℕ) → n < limit → parse_uint limit (show n) ≡ some n
parse-show limit n h =
    let (d, s, small, value, e) = show_head n in
    let whole = read-show limit (parse_digits limit) (parse-step limit) n [] h in
    let all_read : parse_digits limit n [] ≡ some n = unfold parse_digits in refl in
    rw e (unsigned limit d s ∙ (rw (append-nil (show n), e) at whole) ∙ all_read)

-- Two numbers of the range with one text are one number.
pub show-injective : (limit a b : ℕ) → a < limit → b < limit → show a ≡ show b → a ≡ b
show-injective limit a b h k e =
    let left = parse-show limit a h in
    let right = parse-show limit b k in cc (ap (parse_uint limit) e)
