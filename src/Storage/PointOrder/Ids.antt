-- ===== src/Storage/PointOrder/Ids.antt =====
-- The `Ord` of `PointId`, and its equality.
use Prim.Native.Nat.{compare, Ordering}
use Prim.Native.Char.{code}
use Prim.Native.String
use Prim.Native.String.compare.{cons-cons, cons-nil, nil-cons}
use text.Mathlib.TextEquality.{path_by_compare}
use smoldb.Prelude.{ℕ, String, ◌≡◌, refl, ◌∙◌, sym, ap, ◌⊎◌, inl, inr, false, arith, ◌==◌}
use smoldb.Storage.Point.{PointId, id, uuid, point_id_eq}
use smoldb.Storage.PointOrder.{point_id_compare}

not-gt : ¬ (Ordering.gt ≡ Ordering.lt)
not-gt e = ground arith

then_lt_trans :
    (x y z : ℕ) (r s t : Ordering)
    → (r ≡ Ordering.lt → s ≡ Ordering.lt → t ≡ Ordering.lt)
    → String.then (compare x y) r ≡ Ordering.lt
    → String.then (compare y z) s ≡ Ordering.lt
    → String.then (compare x z) t ≡ Ordering.lt
then_lt_trans x y z r s t f h k = ground arith

then_gt-flip :
    (x y : ℕ) (r s : Ordering)
    → (r ≡ Ordering.gt → s ≡ Ordering.lt)
    → String.then (compare x y) r ≡ Ordering.gt
    → String.then (compare y x) s ≡ Ordering.lt
then_gt-flip x y r s f h = ground arith

text_lt_trans :
    (a b c : String)
    → String.compare a b ≡ Ordering.lt
    → String.compare b c ≡ Ordering.lt
    → String.compare a c ≡ Ordering.lt
text_lt_trans String.[] String.[] c h k = k
text_lt_trans String.[] (String.◌∷◌ y b) String.[] h k = absurd (not-gt (sym (cons-nil y b) ∙ k))
text_lt_trans String.[] (String.◌∷◌ y b) (String.◌∷◌ z c) h k = nil-cons z c
text_lt_trans (String.◌∷◌ x a) String.[] c h k = absurd (not-gt (sym (cons-nil x a) ∙ h))
text_lt_trans (String.◌∷◌ x a) (String.◌∷◌ y b) String.[] h k =
    absurd (not-gt (sym (cons-nil y b) ∙ k))
text_lt_trans (String.◌∷◌ x a) (String.◌∷◌ y b) (String.◌∷◌ z c) h k =
    cons-cons x z a c
    ∙ then_lt_trans (code x) (code y) (code z) (String.compare a b) (String.compare b c)
        (String.compare a c) (text_lt_trans a b c) (sym (cons-cons x y a b) ∙ h)
        (sym (cons-cons y z b c) ∙ k)

text_gt-flip : (a b : String) → String.compare a b ≡ Ordering.gt → String.compare b a ≡ Ordering.lt
text_gt-flip String.[] String.[] h = ground arith
text_gt-flip String.[] (String.◌∷◌ y b) h = absurd (not-gt (sym h ∙ nil-cons y b))
text_gt-flip (String.◌∷◌ x a) String.[] h = nil-cons x a
text_gt-flip (String.◌∷◌ x a) (String.◌∷◌ y b) h =
    cons-cons y x b a
    ∙ then_gt-flip (code x) (code y) (String.compare a b) (String.compare b a) (text_gt-flip a b)
        (sym (cons-cons x y a b) ∙ h)

pub order_cases : (o : Ordering) → (o ≡ Ordering.lt) ⊎ (o ≡ Ordering.eq) ⊎ (o ≡ Ordering.gt)
order_cases Ordering.lt = inl refl
order_cases Ordering.eq = inr (inl refl)
order_cases Ordering.gt = inr (inr refl)

abbrev pub IsBefore : PointId → PointId → Type 0
IsBefore a b = point_id_compare a b ≡ Ordering.lt

pub IsBefore-trans : (a b c : PointId) → IsBefore a b → IsBefore b c → IsBefore a c
unfolding point_id_compare
IsBefore-trans (id a) (id b) (id c) h k = ground arith
IsBefore-trans (id a) (id b) (uuid c) h k = refl
IsBefore-trans (id a) (uuid b) (id c) h k = ground arith
IsBefore-trans (id a) (uuid b) (uuid c) h k = refl
IsBefore-trans (uuid a) (id b) c h k = ground arith
IsBefore-trans (uuid a) (uuid b) (id c) h k = ground arith
IsBefore-trans (uuid a) (uuid b) (uuid c) h k = text_lt_trans a b c h k

pub gt-IsBefore : (a b : PointId) → point_id_compare a b ≡ Ordering.gt → IsBefore b a
unfolding point_id_compare
gt-IsBefore (id a) (id b) h = ground arith
gt-IsBefore (id a) (uuid b) h = ground arith
gt-IsBefore (uuid a) (id b) h = refl
gt-IsBefore (uuid a) (uuid b) h = text_gt-flip a b h

pub eq-path : (a b : PointId) → point_id_compare a b ≡ Ordering.eq → a ≡ b
unfolding point_id_compare
eq-path (id a) (id b) h = ground arith
eq-path (id a) (uuid b) h = ground arith
eq-path (uuid a) (id b) h = ground arith
eq-path (uuid a) (uuid b) h = ap uuid (path_by_compare a b h)

pub IsBefore-ne : (a b : PointId) → IsBefore a b → (a == b) ≡ false
unfolding point_id_compare
IsBefore-ne (id a) (id b) h = ground arith
IsBefore-ne (id a) (uuid b) h = refl
IsBefore-ne (uuid a) (id b) h = refl
IsBefore-ne (uuid a) (uuid b) h = ground arith
