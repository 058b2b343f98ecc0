-- ===== src/Validate/Structural/Accepted.antt =====
-- What an accepted problem satisfies.
use klassenzeit.Base.{
  ℕ, ◌%◌, ◌≡◌, ◌≢◌, refl, Bool, true, false, ◌&&◌, ◌||◌, not, some, List, [], ◌∷◌, arith, ◌==◌,
  ==_iff, HashSet, contains, add, contains-add, nat_eq, map, In, All, All-map, IsDistinct, any,
  any_witness, subst, ◌∙◌,
}
use klassenzeit.Types.{Problem, Lesson, assigned_teacher_id}
use klassenzeit.Validate.Outcome.{
  Error, Result, ok, ◌>>◌, ok_or, refuse_if, >>=-eq-ok, ok_or-eq-ok, refuse_if-eq-ok,
  unknown_school_class, duplicate_school_class,
}
use klassenzeit.Validate.Structural.{
  is_empty, is_none, each, collect_unique, check_classes, check_lesson, validate_structural,
}

each-eq-ok :
    {A : Type 0} (check : A → Result (Unit {0})) (xs : List A)
    → each check xs ≡ ok tt
    → All (λ x. check x ≡ ok tt) xs
each-eq-ok check [] q = tt
each-eq-ok check (x ∷ xs) q =
    let (u, first, rest) = >>=-eq-ok (check x) (λ _. each check xs) q in
    (first, each-eq-ok check xs rest)

-- A set that `collect_unique` returns comes from ids that are distinct, and holds what was in the set before
-- and the ids.
-- What a set does not hold after `add`, it did not hold, and it is another.
split :
    (c k : ℕ) (set : HashSet ℕ)
    → contains (add c set) k ≡ false
    → ((k == c) ≡ false) × (contains set k ≡ false)
split c k set h = apart c k (contains set k) (rw (contains-add c k set) at h)
  where
    apart : (c k : ℕ) (b : Bool) → ((c == k) || b) ≡ false → ((k == c) ≡ false) × (b ≡ false)
    apart c k b h = (ground arith, ground arith)

not-false : (b : Bool) → not b ≡ false → b ≡ true
not-false true h = refl
not-false false h = cc

collect_unique_lem :
    (ids : List ℕ) (set s : HashSet ℕ)
    → collect_unique ids set ≡ ok s
    → IsDistinct ids
      × All (λ id. contains set id ≡ false) ids
      × ((k : ℕ) → contains s k ≡ (any (λ id. id == k) ids || contains set k))
unfolding collect_unique
collect_unique_lem [] set s q = (tt, tt, (λ k. ground arith))
collect_unique_lem (id ∷ ids) set s q =
    let (u, first, rest) =
      >>=-eq-ok (refuse_if (contains set id) _) (λ _. collect_unique ids (add id set)) q in
    let new : contains set id ≡ false = refuse_if-eq-ok _ _ first in
    let (distinct, fresh, contents) = collect_unique_lem ids (add id set) s rest in
    (
      (All-map (λ k h. (split id k set h).0) ids fresh, distinct),
      (new, All-map (λ k h. (split id k set h).1) ids fresh),
      (λ k. contents k ∙ rw (contains-add id k set) (ground arith)),
    )

member-In : (k : ℕ) (ids : List ℕ) → any (λ id. id == k) ids ≡ true → In k ids
member-In k ids e =
    let (a, i, same) = any_witness (λ id. id == k) ids e in
    subst (λ x. In x ids) ((==_iff a k).0 same) i

only :
    (k : ℕ) (ids : List ℕ) {b : Bool}
    → b ≡ (any (λ id. id == k) ids || contains [] k)
    → b ≡ true
    → any (λ id. id == k) ids ≡ true
unfolding contains
only k ids e e' = ground arith

-- A set that `collect_unique` returns holds ids of the list only.
pub collect_unique-In :
    (ids : List ℕ) (s : HashSet ℕ) (k : ℕ)
    → collect_unique ids [] ≡ ok s
    → contains s k ≡ true
    → In k ids
collect_unique-In ids s k q e =
    let (distinct, fresh, contents) = collect_unique_lem ids [] s q in
    member-In k ids (only k ids (contents k) e)

check_classes_lem :
    (l : ℕ) (class_ids : HashSet ℕ) (cs : List ℕ) (seen : HashSet ℕ)
    → check_classes l class_ids cs seen ≡ ok tt
    → IsDistinct cs
      × All (λ c. contains seen c ≡ false) cs
      × All (λ c. contains class_ids c ≡ true) cs
unfolding check_classes
check_classes_lem l class_ids [] seen q = (tt, tt, tt)
check_classes_lem l class_ids (c ∷ cs) seen q =
    let known = refuse_if (not (contains class_ids c)) (unknown_school_class l c) in
    let (u, both, rest) =
      >>=-eq-ok (refuse_if (contains seen c) (duplicate_school_class l c) >> known)
        (λ _. check_classes l class_ids cs (add c seen)) q in
    let (u', first, second) =
      >>=-eq-ok (refuse_if (contains seen c) (duplicate_school_class l c)) (λ _. known) both in
    let (distinct, fresh, known') = check_classes_lem l class_ids cs (add c seen) rest in
    (
      (All-map (λ k h. (split c k seen h).0) cs fresh, distinct),
      (refuse_if-eq-ok _ _ first, All-map (λ k h. (split c k seen h).1) cs fresh),
      (not-false (contains class_ids c) (refuse_if-eq-ok _ _ second), known'),
    )

-- A lesson that the search can place: some hours in whole blocks, a known teacher and subject, and known
-- classes, one at least and none twice.
abbrev pub IsSound : List ℕ → List ℕ → List ℕ → Lesson → Type 0
IsSound teachers subjects classes l =
    (l.hours_per_week ≢ 0)
    × (l.preferred_block_size ≢ 0)
    × (l.hours_per_week % l.preferred_block_size ≡ 0)
    × ((t : ℕ) × (assigned_teacher_id l ≡ some t) × In t teachers)
    × In l.subject_id subjects
    × (l.school_class_ids ≢ [])
    × IsDistinct l.school_class_ids
    × All (λ c. In c classes) l.school_class_ids

refused :
    {B : Type 0} (b : Bool) (e : Error) (k : Result B) {x : B}
    → (refuse_if b e >> k) ≡ ok x
    → (b ≡ false) × (k ≡ ok x)
refused true e k q = cc
refused false e k q = (refl, q)

-- What a set answers, its list holds.
abbrev Lists : HashSet ℕ → List ℕ → Type 0
Lists s ids = (k : ℕ) → contains s k ≡ true → In k ids

check_lesson_lem :
    (teachers subjects classes : List ℕ) (ts ss cs : HashSet ℕ) (l : Lesson)
    → Lists ts teachers
    → Lists ss subjects
    → Lists cs classes
    → check_lesson ts ss cs l ≡ ok tt
    → IsSound teachers subjects classes l
unfolding check_lesson
check_lesson_lem teachers subjects classes ts ss cs l ht hs hc q =
    let (hours, q1) = refused (l.hours_per_week == 0) _ _ q in
    let (size, q2) = refused (l.preferred_block_size == 0) _ _ q1 in
    let (whole, q3) = refused (not (l.hours_per_week % l.preferred_block_size == 0)) _ _ q2 in
    let (some_teacher, q4) =
      refused (is_none l.teacher_pin && is_empty l.teacher_candidates) _ _ q3 in
    let (t, assigned, q5) = >>=-eq-ok (ok_or (assigned_teacher_id l) _) _ q4 in
    let (known_t, q6) = refused (not (contains ts t)) _ _ q5 in
    let (known_s, q7) = refused (not (contains ss l.subject_id)) _ _ q6 in
    let (some_class, q8) = refused (is_empty l.school_class_ids) _ _ q7 in
    let (distinct, fresh, known) = check_classes_lem l.id cs l.school_class_ids [] q8 in
    (
      nonzero l.hours_per_week hours,
      nonzero l.preferred_block_size size,
      (==_iff (l.hours_per_week % l.preferred_block_size) 0).0 (not-false _ whole),
      (t, ok_or-eq-ok _ _ assigned, ht t (not-false _ known_t)),
      hs l.subject_id (not-false _ known_s),
      not_empty l.school_class_ids some_class,
      distinct,
      All-map (λ c e. hc c e) l.school_class_ids known,
    )
  where
    nonzero : (n : ℕ) → (n == 0) ≡ false → n ≢ 0
    nonzero n e = ground arith

    not_empty : (xs : List ℕ) → is_empty xs ≡ false → xs ≢ []
    not_empty [] e = cc
    not_empty (x ∷ xs) e = λ q. cc

-- A problem that the solver accepts has time blocks and rooms, ids that no two time blocks, teachers,
-- rooms, subjects, classes or lessons share, and lessons that all are sound.
abbrev pub IsStructured : Problem → Type 0
IsStructured problem =
    (problem.time_blocks ≢ [])
    × (problem.rooms ≢ [])
    × IsDistinct (map (λ x. x.id) problem.time_blocks)
    × IsDistinct (map (λ x. x.id) problem.teachers)
    × IsDistinct (map (λ x. x.id) problem.rooms)
    × IsDistinct (map (λ x. x.id) problem.subjects)
    × IsDistinct (map (λ x. x.id) problem.school_classes)
    × IsDistinct (map (λ x. x.id) problem.lessons)
    × All
        (IsSound (map (λ x. x.id) problem.teachers) (map (λ x. x.id) problem.subjects)
          (map (λ x. x.id) problem.school_classes))
        problem.lessons

is_empty-false : {A : Type 0} (xs : List A) → is_empty xs ≡ false → xs ≢ []
is_empty-false [] e = cc
is_empty-false (x ∷ xs) e = λ q. cc

IsDistinct-ids : (ids : List ℕ) (s : HashSet ℕ) → collect_unique ids [] ≡ ok s → IsDistinct ids
IsDistinct-ids ids s q = let (distinct, fresh, contents) = collect_unique_lem ids [] s q in distinct

-- A problem that `validate_structural` accepts has time blocks and rooms; no two of its time blocks,
-- teachers, rooms, subjects, classes or lessons share an id; and each lesson has a number of hours that
-- is positive and divided by its positive block size, a teacher and a subject of the problem, and at
-- least one class, each of the problem and none twice.
pub validate_structural-IsStructured :
    (problem : Problem) → validate_structural problem ≡ ok tt → IsStructured problem
unfolding validate_structural
validate_structural-IsStructured problem q =
    let (blocks, q1) = refused (is_empty problem.time_blocks) _ _ q in
    let (rooms, q2) = refused (is_empty problem.rooms) _ _ q1 in
    let (tbs, c1, q3) = >>=-eq-ok (collect_unique (map (λ x. x.id) problem.time_blocks) []) _ q2 in
    let (ts, c2, q4) = >>=-eq-ok (collect_unique (map (λ x. x.id) problem.teachers) []) _ q3 in
    let (rs, c3, q5) = >>=-eq-ok (collect_unique (map (λ x. x.id) problem.rooms) []) _ q4 in
    let (ss, c4, q6) = >>=-eq-ok (collect_unique (map (λ x. x.id) problem.subjects) []) _ q5 in
    let (cs, c5, q7) =
      >>=-eq-ok (collect_unique (map (λ x. x.id) problem.school_classes) []) _ q6 in
    let (ls, c6, q8) = >>=-eq-ok (collect_unique (map (λ x. x.id) problem.lessons) []) _ q7 in
    let (u, lessons, q9) = >>=-eq-ok (each (check_lesson ts ss cs) problem.lessons) _ q8 in
    (
      is_empty-false problem.time_blocks blocks,
      is_empty-false problem.rooms rooms,
      IsDistinct-ids _ tbs c1,
      IsDistinct-ids _ ts c2,
      IsDistinct-ids _ rs c3,
      IsDistinct-ids _ ss c4,
      IsDistinct-ids _ cs c5,
      IsDistinct-ids _ ls c6,
      All-map
          (λ l e.
            check_lesson_lem (map (λ x. x.id) problem.teachers) (map (λ x. x.id) problem.subjects)
              (map (λ x. x.id) problem.school_classes) ts ss cs l (λ k. collect_unique-In _ ts k c2)
              (λ k. collect_unique-In _ ss k c4) (λ k. collect_unique-In _ cs k c5) e)
          problem.lessons (each-eq-ok (check_lesson ts ss cs) problem.lessons lessons),
    )
