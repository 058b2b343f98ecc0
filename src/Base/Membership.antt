-- ===== src/Base/Membership.antt =====
-- Membership with its place, universal statements over a list, and the Boolean list tests.
use Prim.Native.Nat.{ℕ}
use mathlib.Core.Path.{◌≡◌, refl}
use mathlib.Core.Logic.{◌↔◌, ◌⊎◌, inl, inr}
use mathlib.Core.Bool.{Bool, true, false}
use mathlib.Core.Option.{some}
use mathlib.Core.List.{List, [], ◌∷◌, map}
use native.Mathlib.Omega.{arith}
use klassenzeit.Base.Tests.{◌==◌, Bool-cases}
use klassenzeit.Base.Lists.{any, all, All, filter, find}

pub data In {ℓ} {A : Type ℓ} (a : A) : List A → Type ℓ where
  here : {xs : List A} → In a (a ∷ xs)
  there : {x : A} {xs : List A} → In a xs → In a (x ∷ xs)

module _ {ℓ} {A : Type ℓ} where
  pub In-cons : {a x : A} {xs : List A} → In a (x ∷ xs) → (a ≡ x) ⊎ In a xs
  In-cons here = inl refl
  In-cons (there i) = inr i

  pub All-In {κ} : (P : A → Type κ) (xs : List A) {a : A} → All P xs → In a xs → P a
  All-In P [] h i = elim i [ ]
  All-In P (x ∷ xs) h here = h.0
  All-In P (x ∷ xs) h (there i) = All-In P xs h.1 i

  pub All-of {κ} : (P : A → Type κ) (xs : List A) → ((a : A) → In a xs → P a) → All P xs
  All-of P [] h = tt
  All-of P (x ∷ xs) h = (h x here, All-of P xs (λ a i. h a (there i)))

  pub any-true_of_In : (p : A → Bool) (xs : List A) {a : A} → In a xs → p a ≡ true → any p xs ≡ true
  any-true_of_In p [] i e = elim i [ ]
  any-true_of_In p (x ∷ xs) here e = rw e refl
  any-true_of_In p (x ∷ xs) (there i) e = ground (arith, any-true_of_In p xs i e)

  pub any_witness :
      (p : A → Bool) (xs : List A) → any p xs ≡ true → (a : A) × In a xs × (p a ≡ true)
  any_witness p [] e = absurd (cc)
  any_witness p (x ∷ xs) e = elim (Bool-cases (p x)) [
    | inl hit ↦ (x, here, hit)
    | inr miss ↦ let (a, i, f) = any_witness p xs (ground (arith, e, miss)) in (a, there i, f)
  ]

  pub all_iff_All : (p : A → Bool) (xs : List A) → (all p xs ≡ true) ↔ All (λ x. p x ≡ true) xs
  all_iff_All p [] = ((λ e. tt), (λ h. refl))
  all_iff_All p (x ∷ xs) =
      let ih = all_iff_All p xs in
      ((λ e. (ground arith, ih.0 (ground arith))), (λ h. rw h.0 (ih.1 h.1)))

  pub find-In : (p : A → Bool) (xs : List A) {a : A} → find p xs ≡ some a → In a xs × (p a ≡ true)
  find-In p [] e = absurd (cc)
  find-In p (x ∷ xs) {a} e = elim (Bool-cases (p x)) [
    | inl hit ↦ let same : x ≡ a = ground arith in rw (← same) (here, hit)
    | inr miss ↦ let (i, f) = find-In p xs (ground (arith, e, miss)) in (there i, f)
  ]

  pub In-filter : (p : A → Bool) (xs : List A) {a : A} → In a (filter p xs) → In a xs × (p a ≡ true)
  In-filter p [] i = elim i [ ]
  In-filter p (x ∷ xs) {a} i = elim (Bool-cases (p x)) [
    | inl hit ↦ elim (In-cons (rw hit at i)) [
      | inl same ↦ rw same (here, hit)
      | inr later ↦ let (j, f) = In-filter p xs later in (there j, f)
    ]
    | inr miss ↦ let (j, f) = In-filter p xs (rw miss at i) in (there j, f)
  ]

pub In-filter_back {ℓ} :
    {A : Type ℓ} (p : A → Bool) (xs : List A) {a : A} → In a xs → p a ≡ true → In a (filter p xs)
In-filter_back p [] i e = elim i [ ]
In-filter_back p (x ∷ xs) here e = rw e here
In-filter_back p (x ∷ xs) (there i) e = elim (Bool-cases (p x)) [
  | inl hit ↦ rw hit (there (In-filter_back p xs i e))
  | inr miss ↦ rw miss (In-filter_back p xs i e)
]

pub All-map {ℓ κ λ'} :
    {A : Type ℓ} {P : A → Type κ} {Q : A → Type λ'} (f : (a : A) → P a → Q a) (xs : List A)
    → All P xs
    → All Q xs
All-map f [] h = tt
All-map f (x ∷ xs) h = (f x h.0, All-map f xs h.1)

-- The number is not in the list.
abbrev pub IsNew : ℕ → List ℕ → Type 0
IsNew c cs = All (λ d. (d == c) ≡ false) cs

abbrev pub IsDistinct : List ℕ → Type 0
IsDistinct [] = Unit
IsDistinct (c ∷ cs) = IsNew c cs × IsDistinct cs

module _ {ℓ κ} {A B : Type ℓ} (P : B → Type κ) (f : A → B) where
  pub All-mapped : (xs : List A) → All (λ x. P (f x)) xs → All P (map f xs)
  All-mapped [] h = tt
  All-mapped (x ∷ xs) h = (h.0, All-mapped xs h.1)

  pub All-unmap : (xs : List A) → All P (map f xs) → All (λ x. P (f x)) xs
  All-unmap [] h = tt
  All-unmap (x ∷ xs) h = (h.0, All-unmap xs h.1)
