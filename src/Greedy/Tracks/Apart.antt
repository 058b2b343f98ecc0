-- ===== src/Greedy/Tracks/Apart.antt =====
-- Seats that do not clash: one is taken out or put in.
use klassenzeit.Base.{
  ℕ, ◌≡◌, refl, Bool, true, false, ◌&&◌, ◌||◌, List, [], ◌∷◌, ◌++◌, ◌==◌, any, any_witness,
  any-true_of_In, ==_iff, All, All-map, arith, Bool-cases, inl, inr,
}
use klassenzeit.Greedy.Tracks.{Seat, by_teacher, in_room, of_class, clash, IsApart}

pub any-mid :
    (p : Seat → Bool) (xs : List Seat) (y : Seat) (zs : List Seat)
    → any p (xs ++ (y ∷ zs)) ≡ (p y || (any p xs || any p zs))
any-mid p [] y zs = refl
any-mid p (x ∷ xs) y zs = ground (arith, any-mid p xs y zs)

common-flip :
    (q r : Seat)
    → any (λ c. of_class (c, r.block) q) r.classes ≡ true
    → any (λ d. of_class (d, q.block) r) q.classes ≡ true
common-flip q r h =
    let (c, in_r, taken) = any_witness (λ c. of_class (c, r.block) q) r.classes h in
    let (d, in_q, same) = any_witness (λ d. (d == c) && (q.block == r.block)) q.classes taken in
    any-true_of_In (λ d. of_class (d, q.block) r) q.classes in_q
      (any-true_of_In (λ c. (c == d) && (r.block == q.block)) r.classes in_r (ground (arith, same)))

-- A clash is one from either side.
clash-flip : (q r : Seat) → clash r q ≡ false → clash q r ≡ false
clash-flip q r h = elim (Bool-cases (any (λ c. of_class (c, r.block) q) r.classes)) [
  | inr e ↦ ground (arith, e, h)
  | inl e ↦ absurd (ground (arith, h, common-flip q r e))
]

-- The seats apart from one another are each clear of the others.
pub IsApart-others :
    (xs : List Seat) (r : Seat) (zs : List Seat)
    → IsApart (xs ++ (r ∷ zs))
    → All (λ q. clash q r ≡ false) xs × All (λ q. clash q r ≡ false) zs × IsApart (xs ++ zs)
IsApart-others [] r zs h = (tt, All-map (λ q. clash-flip q r) zs h.0, h.1)
IsApart-others (x ∷ xs) r zs h =
    let (before, after, rest) = IsApart-others xs r zs h.1 in
    let (clear, keep) = All-mid (λ q. clash x q ≡ false) xs r zs h.0 in
    ((clear, before), after, (keep, rest))
  where
    All-mid :
        (P : Seat → Type 0) (xs : List Seat) (r : Seat) (zs : List Seat)
        → All P (xs ++ (r ∷ zs))
        → P r × All P (xs ++ zs)
    All-mid P [] r zs h = h
    All-mid P (x ∷ xs) r zs h = let (at, rest) = All-mid P xs r zs h.1 in (at, (h.0, rest))

-- A seat that is clear of the others can be put between them.
pub IsApart-insert :
    (xs : List Seat) (r : Seat) (zs : List Seat)
    → All (λ q. clash q r ≡ false) xs
    → All (λ q. clash q r ≡ false) zs
    → IsApart (xs ++ zs)
    → IsApart (xs ++ (r ∷ zs))
IsApart-insert [] r zs before after h = (All-map (λ q. clash-flip r q) zs after, h)
IsApart-insert (x ∷ xs) r zs before after h = (
  put_in (λ q. clash x q ≡ false) xs r zs before.0 h.0,
  IsApart-insert xs r zs before.1 after h.1,
)
  where
    put_in :
        (P : Seat → Type 0) (xs : List Seat) (r : Seat) (zs : List Seat)
        → P r
        → All P (xs ++ zs)
        → All P (xs ++ (r ∷ zs))
    put_in P [] r zs at rest = (at, rest)
    put_in P (x ∷ xs) r zs at rest = (rest.0, put_in P xs r zs at rest.1)

-- No seat that is clear of `r` has its teacher, its room or one of its classes in its block.
module _ (r : Seat) where
  pub no_teacher :
      (qs : List Seat)
      → All (λ q. clash q r ≡ false) qs
      → any (by_teacher (r.teacher, r.block)) qs ≡ false
  no_teacher [] h = refl
  no_teacher (q ∷ qs) h = ground (arith, h.0, no_teacher qs h.1)

  pub no_room :
      (qs : List Seat)
      → All (λ q. clash q r ≡ false) qs
      → any (in_room (r.room, r.block)) qs ≡ false
  no_room [] h = refl
  no_room (q ∷ qs) h = ground (arith, h.0, no_room qs h.1)

  pub no_class :
      (c : ℕ) (qs : List Seat)
      → any (λ d. d == c) r.classes ≡ true
      → All (λ q. clash q r ≡ false) qs
      → any (of_class (c, r.block)) qs ≡ false
  no_class c [] member h = refl
  no_class c (q ∷ qs) member h = elim (Bool-cases (of_class (c, r.block) q)) [
    | inr e ↦ rw e (no_class c qs member h.1)
    | inl e ↦
        let (d, in_r, same) = any_witness (λ d. d == c) r.classes member in
        absurd (
          ground (
            arith,
            h.0,
            any-true_of_In (λ c. of_class (c, r.block) q) r.classes in_r
                (rw ((==_iff d c).0 same) e),
          ))
  ]
