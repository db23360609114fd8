-- ===== src/Prelude/Ascending.antt =====
-- Strictly ascending lists of numbers: they stand for the finite sets of numbers, and each set has
-- one such list.
use grounded_ops_agent.Prelude.{
  ℕ, zero, suc, ◌+◌, ◌≤◌, ◌<◌, ◌≡◌, refl, sym, ap, ◌∙◌, subst, inl, inr, Bool, true, false, ◌&&◌,
  List, [], ◌∷◌, arith, ltb, leb, nat_beq, nat_beq_iff, Bool-cases, keep_if, nat_eq, text_eq,
  contains,
}

abbrev pub Ascending : List ℕ → Type 0
Ascending [] = Unit
Ascending (i ∷ []) = Unit
Ascending (i ∷ j ∷ js) = (i < j) × Ascending (j ∷ js)

pub Ascending-tail : (i : ℕ) (js : List ℕ) → Ascending (i ∷ js) → Ascending js
Ascending-tail i [] h = tt
Ascending-tail i (j ∷ js) h = h.1

pub Ascending-lt : (i : ℕ) (js : List ℕ) (k : ℕ) → Ascending (i ∷ js) → contains js k ≡ true → i < k
Ascending-lt i [] k h m = ground arith
Ascending-lt i (j ∷ js) k h m = elim (Bool-cases (nat_beq j k)) [
  | inl same ↦ ground arith
  | inr other ↦ let lt = Ascending-lt j js k h.1 (ground arith) in omega arith
]

Ascending-head : (i : ℕ) (js : List ℕ) → Ascending (i ∷ js) → contains js i ≡ false
Ascending-head i js h = elim (Bool-cases (contains js i)) [
  | inl m ↦ absurd (omega (arith, Ascending-lt i js i h m))
  | inr absent ↦ absent
]

Ascending-cons :
    (i : ℕ) (js : List ℕ)
    → ((k : ℕ) → contains js k ≡ true → i < k)
    → Ascending js
    → Ascending (i ∷ js)
Ascending-cons i [] h a = tt
Ascending-cons i (j ∷ js) h a = (h j (ground (arith, nat_beq_iff j j)), a)

head_le : (x y : ℕ) (ys : List ℕ) → Ascending (y ∷ ys) → contains (y ∷ ys) x ≡ true → y ≤ x
head_le x y ys h m = elim (Bool-cases (nat_beq y x)) [
  | inl same ↦ ground arith
  | inr other ↦ let lt = Ascending-lt y ys x h (ground arith) in omega arith
]

-- Two strictly ascending lists with the same members are equal.
pub Ascending-ext :
    (xs ys : List ℕ)
    → Ascending xs
    → Ascending ys
    → ((i : ℕ) → contains xs i ≡ contains ys i)
    → xs ≡ ys
Ascending-ext [] [] a b h = refl
Ascending-ext [] (y ∷ ys) a b h = ground (arith, h y)
Ascending-ext (x ∷ xs) [] a b h = ground (arith, h x)
Ascending-ext (x ∷ xs) (y ∷ ys) a b h =
    let same : x ≡ y =
      omega
        (arith, head_le x y ys b (ground (arith, h x)), head_le y x xs a (ground (arith, h y))) in
    let tails : (i : ℕ) → contains xs i ≡ contains ys i = λ i. elim (Bool-cases (nat_beq x i)) [
      | inl here ↦
          let at : x ≡ i = ground arith in
          subst (λ k. contains xs k ≡ contains ys k) at
            (Ascending-head x xs a ∙ sym (rw same (Ascending-head y ys b)))
      | inr there ↦ ground (arith, h i)
    ] in
    cc (same, Ascending-ext xs ys (Ascending-tail x xs a) (Ascending-tail y ys b) tails)

-- The numbers from `n` on, `len` of them.
abbrev pub range_from : ℕ → ℕ → List ℕ
range_from n zero = []
range_from n (suc len) = n ∷ range_from (suc n) len

pub Ascending-range_from : (n len : ℕ) → Ascending (range_from n len)
Ascending-range_from n zero = tt
Ascending-range_from n (suc zero) = tt
Ascending-range_from n (suc (suc len)) = (omega arith, Ascending-range_from (suc n) (suc len))

pub contains-range_from :
    (n len i : ℕ) → contains (range_from n len) i ≡ (leb n i && ltb i (n + len))
contains-range_from n zero i = ground arith
contains-range_from n (suc len) i = ground (arith, contains-range_from (suc n) len i)

pub contains-keep_if :
    (p : ℕ → Bool) (xs : List ℕ) (i : ℕ) → contains (keep_if p xs) i ≡ (p i && contains xs i)
contains-keep_if p [] i = ground arith
contains-keep_if p (x ∷ xs) i = elim (Bool-cases (nat_beq x i)) [
  | inl same ↦ let at : x ≡ i = ground arith in ground (arith, ap p at, contains-keep_if p xs i)
  | inr other ↦ ground (arith, contains-keep_if p xs i)
]

pub Ascending-keep_if : (p : ℕ → Bool) (xs : List ℕ) → Ascending xs → Ascending (keep_if p xs)
Ascending-keep_if p [] h = tt
Ascending-keep_if p (x ∷ xs) h =
    let rest = Ascending-keep_if p xs (Ascending-tail x xs h) in
    elim (Bool-cases (p x)) [
      | inr dropped ↦ rw (dropped, keep_if) rest
      | inl kept ↦
          rw (kept, keep_if)
            (Ascending-cons x (keep_if p xs)
              (λ k m. Ascending-lt x xs k h (ground (arith, contains-keep_if p xs k))) rest)
    ]
