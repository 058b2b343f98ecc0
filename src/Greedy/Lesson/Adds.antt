-- ===== src/Greedy/Lesson/Adds.antt =====
-- What a part of a lesson's loop adds to the placements and the violations.
use klassenzeit.Base.{
  ℕ, suc, ◌+◌, ◌*◌, ◌≡◌, refl, List, [], ◌∷◌, ◌++◌, map, length, length-append, All-append, All,
  nat_eq, arith, ap, ◌∙◌,
}
use klassenzeit.Types.{Lesson, Placement, Violation, TimeBlock}
use klassenzeit.Greedy.State.{}
use klassenzeit.Greedy.Tracks.{}
use klassenzeit.Greedy.Seed.{}
use klassenzeit.Greedy.Place.{BlockCandidate}
use klassenzeit.Greedy.Place.Commit.{placed}
use klassenzeit.Greedy.Place.Apart.{}
use klassenzeit.Greedy.Place.Safe.{}
use klassenzeit.Greedy.Place.Outcome.{}
use klassenzeit.Greedy.Lesson.{Progress}

both_parts :
    (a b c d n k : ℕ) → a + n * b ≡ n → c + n * d ≡ k * n → (a + c) + n * (b + d) ≡ suc k * n
both_parts a b c d n k h g = grind arith

-- What a part of the loop adds: placements and violations of the lesson, which account for the hours.
abbrev pub Adds : Lesson → ℕ → Progress → Progress → Type 0
Adds lesson' hours now next =
    (ps : List Placement) × (vs : List Violation) × (next.placements ≡ now.placements ++ ps)
    × (next.violations ≡ now.violations ++ vs)
    × All (λ p. p.lesson_id ≡ lesson'.id) ps
    × All (λ v. v.lesson_id ≡ lesson'.id) vs
    × (length ps + lesson'.preferred_block_size * length vs ≡ hours)

append_assoc : {A : Type 0} (xs ys zs : List A) → (xs ++ ys) ++ zs ≡ xs ++ (ys ++ zs)
append_assoc [] ys zs = refl
append_assoc (x ∷ xs) ys zs = ap (λ l. x ∷ l) (append_assoc xs ys zs)

pub Adds-step :
    (lesson' : Lesson) (k : ℕ) (now next end : Progress)
    → Adds lesson' lesson'.preferred_block_size now next
    → Adds lesson' (k * lesson'.preferred_block_size) next end
    → Adds lesson' (suc k * lesson'.preferred_block_size) now end
Adds-step lesson' k now next end (ps, vs, placed', reported, ours, ours', sum)
      (qs, us, placed'', reported', theirs, theirs', sum') =
    (
      ps ++ qs,
      vs ++ us,
      placed'' ∙ ap (λ l. l ++ qs) placed' ∙ append_assoc now.placements ps qs,
      reported' ∙ ap (λ l. l ++ us) reported ∙ append_assoc now.violations vs us,
      All-append (λ p. p.lesson_id ≡ lesson'.id) ps qs ours theirs,
      All-append (λ v. v.lesson_id ≡ lesson'.id) vs us ours' theirs',
      rw (length-append ps qs, length-append vs us)
          (both_parts (length ps) (length vs) (length qs) (length us) lesson'.preferred_block_size k
            sum sum'),
    )

pub placed_ours :
    (lesson' : Lesson) (c : BlockCandidate) (tbs : List TimeBlock)
    → All (λ p. p.lesson_id ≡ lesson'.id) (map (placed lesson' c) tbs)
placed_ours lesson' c [] = tt
placed_ours lesson' c (tb ∷ tbs) = (refl, placed_ours lesson' c tbs)

pub none_reported : (a n : ℕ) → a ≡ n → a + n * 0 ≡ n
none_reported a n h = grind arith

pub one_reported : (n : ℕ) → 0 + n * 1 ≡ n
one_reported n = grind arith

pub nothing_added : (n : ℕ) → 0 + n * 0 ≡ 0 * n
nothing_added n = grind arith
