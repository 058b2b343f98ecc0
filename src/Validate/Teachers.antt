-- ===== src/Validate/Teachers.antt =====
-- `validate_placement_teacher_in_candidates` and `validate_class_subject_teacher_uniformity`.
use klassenzeit.Base.{
  ℕ, ◌≡◌, ◌↔◌, refl, Bool, false, Option, none, some, List, [], ◌∷◌, arith, ◌==◌, ==_iff, HashMap,
  nat_eq, pair_eq, get, collect, map, All, All-map, All-mapped, All-unmap, any, not, In,
  any-true_of_In, any_witness, subst,
}
use klassenzeit.Types.{Problem, Placement, Lesson}
use klassenzeit.Validate.Outcome.{
  unknown_lesson, not_the_pin, not_a_candidate, teacher_split, Result, ok, ◌>>=◌, ◌>>◌, ok_or,
  refuse_if, ok-inj, >>=-eq-ok, ok_or-eq-ok, refuse_if-eq-ok,
}
use klassenzeit.Validate.Entries.{enter_each, Agrees, enter_each_iff}

-- `problem.lessons.iter().map(|l| (l.id, l)).collect()`
unfoldable pub lesson_by_id : Problem → HashMap ℕ Lesson
unfolding collect
lesson_by_id problem = collect (λ l. l.id) (λ l. l) problem.lessons []

unfoldable pub differs_from_pin : Option ℕ → ℕ → Bool
differs_from_pin none teacher = false
differs_from_pin (some pin) teacher = not (teacher == pin)

unfoldable pub check_teacher : Problem → Placement → Result (Unit {0})
unfolding lesson_by_id get differs_from_pin
check_teacher problem p = do
  lesson' ← ok_or (get (lesson_by_id problem) p.lesson_id) (unknown_lesson p.lesson_id)
  refuse_if (differs_from_pin lesson'.teacher_pin p.teacher_id)
      (not_the_pin p.lesson_id p.teacher_id)
  refuse_if (not (any (λ c. c == p.teacher_id) lesson'.teacher_candidates))
      (not_a_candidate p.lesson_id p.teacher_id)

unfoldable pub validate_placement_teacher_in_candidates :
    Problem → List Placement → Result (Unit {0})
unfolding check_teacher
validate_placement_teacher_in_candidates problem [] = ok tt
validate_placement_teacher_in_candidates problem (p ∷ ps) =
    check_teacher problem p >> validate_placement_teacher_in_candidates problem ps

-- The placement's lesson exists, its teacher is a candidate, and the pin when there is one.
abbrev pub IsAllowed : Problem → Placement → Type 0
IsAllowed problem p =
    (l : Lesson) × (get (lesson_by_id problem) p.lesson_id ≡ some l)
    × ((pin : ℕ) → l.teacher_pin ≡ some pin → p.teacher_id ≡ pin)
    × In p.teacher_id l.teacher_candidates

differs_from_pin-false :
    (pin : Option ℕ) (t : ℕ) → (differs_from_pin pin t ≡ false) ↔ ((q : ℕ) → pin ≡ some q → t ≡ q)
unfolding differs_from_pin
differs_from_pin-false none t = ((λ h q e. cc), (λ h. refl))
differs_from_pin-false (some pin) t =
    ((λ h q e. ground (arith, ==_iff t pin)), (λ h. ground (arith, ==_iff t pin, h pin refl)))

candidate_iff : (t : ℕ) (ts : List ℕ) → (not (any (λ c. c == t) ts) ≡ false) ↔ In t ts
candidate_iff t ts = (
  (λ q.
      let (a, i, e) = any_witness (λ c. c == t) ts (ground arith) in
      subst (λ x. In x ts) ((==_iff a t).0 e) i),
  (λ i. rw (any-true_of_In (λ c. c == t) ts i ((==_iff t t).1 refl)) refl),
)

check_teacher_iff :
    (problem : Problem) (p : Placement) → (check_teacher problem p ≡ ok tt) ↔ IsAllowed problem p
unfolding check_teacher
check_teacher_iff problem p = (
  (λ q.
      let (l, found, q') = >>=-eq-ok (ok_or (get (lesson_by_id problem) p.lesson_id) _) _ q in
      let (u, pin, q'') =
        >>=-eq-ok (refuse_if (differs_from_pin l.teacher_pin p.teacher_id) _) _ q' in
      (
        l,
        ok_or-eq-ok _ _ found,
        (differs_from_pin-false l.teacher_pin p.teacher_id).0 (refuse_if-eq-ok _ _ pin),
        (candidate_iff p.teacher_id l.teacher_candidates).0 (refuse_if-eq-ok _ _ q''),
      )),
  (λ (l, found, pin, candidate). rw (found) (
      rw ((differs_from_pin-false l.teacher_pin p.teacher_id).1 pin)
        (rw ((candidate_iff p.teacher_id l.teacher_candidates).1 candidate) refl))),
)

-- The validator accepts exactly when the teacher of every placement is a candidate of the
-- placement's lesson, and the lesson's pin where it has one.
pub validate_placement_teacher_in_candidates_iff :
    (problem : Problem) (placements : List Placement)
    → (validate_placement_teacher_in_candidates problem placements ≡ ok tt)
      ↔ All (IsAllowed problem) placements
unfolding validate_placement_teacher_in_candidates
validate_placement_teacher_in_candidates_iff problem [] = ((λ _. tt), (λ _. refl))
validate_placement_teacher_in_candidates_iff problem (p ∷ ps) = (
  (λ q.
      let (u, first, rest) = >>=-eq-ok (check_teacher problem p) _ q in
      (
        (check_teacher_iff problem p).0 first,
        (validate_placement_teacher_in_candidates_iff problem ps).0 rest,
      )),
  (λ h.
      rw ((check_teacher_iff problem p).1 h.0)
        ((validate_placement_teacher_in_candidates_iff problem ps).1 h.1)),
)

abbrev pub Pair : Type 0
Pair = ℕ × ℕ

unfoldable pub pair_keys : Problem → Placement → Result (List Pair)
unfolding lesson_by_id get
pair_keys problem p = do
  lesson' ← ok_or (get (lesson_by_id problem) p.lesson_id) (unknown_lesson p.lesson_id)
  ok (map (λ c. (c, lesson'.subject_id)) lesson'.school_class_ids)

unfoldable pub validate_class_subject_teacher_uniformity :
    Problem → List Placement → Result (Unit {0})
unfolding enter_each
validate_class_subject_teacher_uniformity problem placements =
    enter_each teacher_split (pair_keys problem) (λ p. p.teacher_id) placements [] >>= λ _. ok tt

-- The placement's lesson exists, and the placement has the teacher named for each of its classes in the
-- lesson's subject.
abbrev pub KeepsTeacher : Problem → (ℕ → ℕ → ℕ) → Placement → Type 0
KeepsTeacher problem teacher p =
    (l : Lesson) × (get (lesson_by_id problem) p.lesson_id ≡ some l)
    × All (λ c. teacher c l.subject_id ≡ p.teacher_id) l.school_class_ids

abbrev Kept : Problem → (Pair → ℕ) → Placement → Type 0
Kept problem teacher = Agrees teacher_split (pair_keys problem) (λ p. p.teacher_id) teacher

Kept-KeepsTeacher :
    (problem : Problem) (teacher : Pair → ℕ) (p : Placement)
    → Kept problem teacher p
    → KeepsTeacher problem (λ c subject. teacher (c, subject)) p
unfolding pair_keys
Kept-KeepsTeacher problem teacher p (keys, found, same) =
    let (l, of_lesson, rest) =
      >>=-eq-ok (ok_or (get (lesson_by_id problem) p.lesson_id) _) _ found in
    (
      l,
      ok_or-eq-ok _ _ of_lesson,
      All-unmap (λ key. teacher key ≡ p.teacher_id) (λ c. (c, l.subject_id)) l.school_class_ids
          (rw (← ok-inj rest) at same),
    )

KeepsTeacher-Kept :
    (problem : Problem) (teacher : ℕ → ℕ → ℕ) (p : Placement)
    → KeepsTeacher problem teacher p
    → Kept problem (λ key. teacher key.0 key.1) p
unfolding pair_keys
KeepsTeacher-Kept problem teacher p (l, of_lesson, same) = (
  map (λ c. (c, l.subject_id)) l.school_class_ids,
  rw of_lesson refl,
  All-mapped (λ key. teacher key.0 key.1 ≡ p.teacher_id) (λ c. (c, l.subject_id)) l.school_class_ids
      same,
)

-- The validator accepts exactly when the lesson of every placement exists, and one can name a
-- teacher for every class and subject such that each placement has the teacher named for each class
-- of its lesson and the lesson's subject.
pub validate_class_subject_teacher_uniformity_iff :
    (problem : Problem) (placements : List Placement)
    → (validate_class_subject_teacher_uniformity problem placements ≡ ok tt)
      ↔ ((teacher : ℕ → ℕ → ℕ) × All (KeepsTeacher problem teacher) placements)
unfolding validate_class_subject_teacher_uniformity
validate_class_subject_teacher_uniformity_iff problem placements =
    let both = enter_each_iff teacher_split (pair_keys problem) (λ p. p.teacher_id) placements in
    let loop = enter_each teacher_split (pair_keys problem) (λ p. p.teacher_id) placements [] in
    (
      (λ q.
          let (h, done, _) = >>=-eq-ok loop (λ _. ok tt) q in
          let (teacher, kept) = both.0 (h, done) in
          (
            λ c subject. teacher (c, subject),
            All-map (Kept-KeepsTeacher problem teacher) placements kept,
          )),
      (λ (teacher, keeps).
          let (h, done) = both.1 (
            λ key. teacher key.0 key.1,
            All-map (KeepsTeacher-Kept problem teacher) placements keeps,
          ) in
          rw done refl),
    )
