-- ===== src/Greedy/Place/Safe.antt =====
-- What `try_place_block` guarantees.
use klassenzeit.Base.{
  ℕ, zero, suc, ◌≡◌, refl, false, ◌&&◌, some, List, [], ◌∷◌, ◌++◌, ◌==◌, map, length, any, All,
  All-append, IsNew, IsDistinct, nat_eq, pair_eq, triple_eq, arith, Option-cases, inl, inr,
  some-inj, ap, sym, ◌∙◌, subst,
}
use klassenzeit.Types.{Lesson, TimeBlock}
use klassenzeit.Greedy.Tracks.{Seat, of_class, clash, IsApart}
use klassenzeit.Greedy.Place.{BlockCandidate, window}
use klassenzeit.Greedy.Place.Commit.{drop}
use klassenzeit.Greedy.Place.Apart.{new_row}

abbrev pub ids : List TimeBlock → List ℕ
ids tbs = map (λ tb. tb.id) tbs

window-IsNew :
    (id n : ℕ) (tbs blocks : List TimeBlock)
    → window n tbs ≡ some blocks
    → IsNew id (ids tbs)
    → IsNew id (ids blocks)
unfolding window
window-IsNew id zero tbs blocks h new = subst (λ bs. IsNew id (ids bs)) (some-inj h) tt
window-IsNew id (suc n) [] blocks h new = cc
window-IsNew id (suc n) (tb ∷ tbs) blocks h new = elim (Option-cases (window n tbs)) [
  | inl past ↦ absurd (ground (arith, h, past))
  | inr (rest, found) ↦
      subst (λ bs. IsNew id (ids bs)) (some-inj (rw (found, window) at h))
        (new.0, window-IsNew id n tbs rest found new.1)
]

pub window-IsDistinct :
    (n : ℕ) (tbs blocks : List TimeBlock)
    → window n tbs ≡ some blocks
    → IsDistinct (ids tbs)
    → IsDistinct (ids blocks)
unfolding window
window-IsDistinct zero tbs blocks h d = subst (λ bs. IsDistinct (ids bs)) (some-inj h) tt
window-IsDistinct (suc n) [] blocks h d = cc
window-IsDistinct (suc n) (tb ∷ tbs) blocks h d = elim (Option-cases (window n tbs)) [
  | inl past ↦ absurd (ground (arith, h, past))
  | inr (rest, found) ↦
      subst (λ bs. IsDistinct (ids bs)) (some-inj (rw (found, window) at h))
        (window-IsNew tb.id n tbs rest found d.0, window-IsDistinct n tbs rest found d.1)
]

pub length-window :
    (n : ℕ) (tbs blocks : List TimeBlock) → window n tbs ≡ some blocks → length blocks ≡ n
unfolding window
length-window zero tbs blocks h = ap length (sym (some-inj h))
length-window (suc n) [] blocks h = cc
length-window (suc n) (tb ∷ tbs) blocks h = elim (Option-cases (window n tbs)) [
  | inl past ↦ absurd (ground (arith, h, past))
  | inr (rest, found) ↦
      ap length (sym (some-inj (rw (found, window) at h))) ∙ ap suc (length-window n tbs rest found)
]

pub drop-IsDistinct :
    (i : ℕ) (tbs : List TimeBlock) → IsDistinct (ids tbs) → IsDistinct (ids (drop i tbs))
drop-IsDistinct zero tbs d = d
drop-IsDistinct (suc i) [] d = tt
drop-IsDistinct (suc i) (tb ∷ tbs) d = drop-IsDistinct i tbs d.1

elsewhere :
    (q b c : ℕ) (cs : List ℕ) → (q == b) ≡ false → any (λ d. (d == c) && (q == b)) cs ≡ false
elsewhere q b c [] h = refl
elsewhere q b c (d ∷ ds) h = ground (arith, elsewhere q b c ds h)

nowhere :
    (q : Seat) (b : ℕ) (cs : List ℕ)
    → (q.block == b) ≡ false
    → any (λ c. of_class (c, b) q) cs ≡ false
nowhere q b [] h = refl
nowhere q b (c ∷ cs) h = ground (arith, elsewhere q.block b c q.classes h, nowhere q b cs h)

no_clash_elsewhere : (q r : Seat) → (q.block == r.block) ≡ false → clash q r ≡ false
no_clash_elsewhere q r h = ground (arith, h, nowhere q r.block r.classes h)

pub new_rows-IsApart :
    (lesson' : Lesson) (c : BlockCandidate) (blocks : List TimeBlock)
    → IsDistinct (ids blocks)
    → IsApart (map (new_row lesson' c) blocks)
new_rows-IsApart lesson' c [] d = tt
new_rows-IsApart lesson' c (tb ∷ tbs) d = (later tbs d.0, new_rows-IsApart lesson' c tbs d.1)
  where
    later :
        (tbs : List TimeBlock)
        → IsNew tb.id (ids tbs)
        → All (λ q. clash (new_row lesson' c tb) q ≡ false) (map (new_row lesson' c) tbs)
    later [] new = tt
    later (t ∷ ts) new = (
      no_clash_elsewhere (new_row lesson' c tb) (new_row lesson' c t) (ground (arith, new.0)),
      later ts new.1,
    )

heads :
    (q : Seat) (qs new : List Seat)
    → All (λ r. All (λ q. clash q r ≡ false) (q ∷ qs)) new
    → All (λ r. clash q r ≡ false) new × All (λ r. All (λ q. clash q r ≡ false) qs) new
heads q qs [] h = (tt, tt)
heads q qs (r ∷ rs) h = let (first, rest) = heads q qs rs h.1 in ((h.0.0, first), (h.0.1, rest))

pub IsApart-append :
    (rows new : List Seat)
    → IsApart rows
    → IsApart new
    → All (λ r. All (λ q. clash q r ≡ false) rows) new
    → IsApart (rows ++ new)
IsApart-append [] new old apart clear = apart
IsApart-append (q ∷ qs) new old apart clear =
    let (first, rest) = heads q qs new clear in
    (All-append (λ r. clash q r ≡ false) qs new old.0 first, IsApart-append qs new old.1 apart rest)
