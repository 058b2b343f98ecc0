-- ===== src/Lahc/Split.antt =====
-- The guard of the home-room repair move (lahc.rs: `would_split_class_day_subject_room`).
use klassenzeit.Base.{
  ℕ, zero, suc, ◌+◌, ◌≡◌, refl, Bool, true, false, not, Option, none, some, List, [], ◌∷◌, arith,
  ◌==◌, ==_iff, if◌then◌else◌, HashMap, get, nat_eq, any, any-true_of_In, get_elem?, In, Bool-cases,
  inl, inr, ap,
}
use klassenzeit.Types.{Placement, Lesson, TimeBlock}

-- One other placement: a lesson of the subject on the day, with a common class, in another room.
unfoldable pub splits_with :
    List ℕ → ℕ → ℕ → ℕ → HashMap ℕ Lesson → HashMap ℕ TimeBlock → Placement → Bool
unfolding get
splits_with members target_day subject target_room lessons blocks q =
    elim (get lessons q.lesson_id) [
      | none ↦ false
      | some l ↦
          if not (l.subject_id == subject) then false else elim (get blocks q.time_block_id) [
            | none ↦ false
            | some tb ↦
                if not (tb.day_of_week == target_day)
                then false
                else (if not (any (λ c. any (λ d. d == c) members) l.school_class_ids)
                    then false
                    else not (q.room_id == target_room))
          ]
    ]

-- `for (q_idx, q) in placements.iter().enumerate()`, from an index on.
unfoldable pub splits_from : ℕ → ℕ → (Placement → Bool) → List Placement → Bool
splits_from i moving_idx splits [] = false
splits_from i moving_idx splits (q ∷ qs) =
    let rest = splits_from (suc i) moving_idx splits qs in
    if i == moving_idx then rest else (if splits q then true else rest)

unfoldable pub would_split_class_day_subject_room :
    List Placement → ℕ → List ℕ → ℕ → ℕ → ℕ → HashMap ℕ Lesson → HashMap ℕ TimeBlock → Bool
unfolding splits_with splits_from
would_split_class_day_subject_room placements moving_idx members target_day subject target_room
      lessons blocks =
    splits_from 0 moving_idx (splits_with members target_day subject target_room lessons blocks)
      placements

rest_false :
    (moving hit rest : Bool)
    → (if moving then rest else (if hit then true else rest)) ≡ false
    → rest ≡ false
rest_false true hit rest h = h
rest_false false true rest h = cc
rest_false false false rest h = h

splits_from-false :
    (i moving_idx : ℕ) (splits : Placement → Bool) (placements : List Placement) (j : ℕ)
    (q : Placement)
    → splits_from i moving_idx splits placements ≡ false
    → get_elem? placements j ≡ some q
    → ((i + j) == moving_idx) ≡ false
    → splits q ≡ false
unfolding splits_from
splits_from-false i moving_idx splits [] j q h at ne = cc
splits_from-false i moving_idx splits (p ∷ ps) zero q h at ne =
    let other : (i == moving_idx) ≡ false = ground (arith, ne) in
    let same : p ≡ q = some-inj at in
    elim (Bool-cases (splits p)) [
      | inl e ↦ let clash : true ≡ false = rw (other, e) at h in cc
      | inr e ↦ rw (← same) e
    ]
  where
    some-inj : some p ≡ some q → p ≡ q
    some-inj e =
        ap (λ (o : Option Placement). elim o as (λ _. Placement) [ none ↦ p | some x ↦ x ]) e
splits_from-false i moving_idx splits (p ∷ ps) (suc j) q h at ne =
    splits_from-false (suc i) moving_idx splits ps j q
      (rest_false (i == moving_idx) (splits p) (splits_from (suc i) moving_idx splits ps) h) at
      (ground (arith, ne))

splits_with-false :
    (members : List ℕ) (target_day subject target_room : ℕ) (lessons : HashMap ℕ Lesson)
    (blocks : HashMap ℕ TimeBlock) (q : Placement) (l : Lesson) (tb : TimeBlock) (c : ℕ)
    → splits_with members target_day subject target_room lessons blocks q ≡ false
    → get lessons q.lesson_id ≡ some l
    → get blocks q.time_block_id ≡ some tb
    → l.subject_id ≡ subject
    → tb.day_of_week ≡ target_day
    → In c l.school_class_ids
    → In c members
    → q.room_id ≡ target_room
unfolding splits_with
splits_with-false members target_day subject target_room lessons blocks q l tb c h of_lesson
      of_block same_subject same_day in_l in_m =
    let shared : any (λ c. any (λ d. d == c) members) l.school_class_ids ≡ true =
      any-true_of_In (λ c. any (λ d. d == c) members) l.school_class_ids in_l
        (any-true_of_In (λ d. d == c) members in_m ((==_iff c c).1 refl)) in
    let h' : not (q.room_id == target_room) ≡ false =
      rw
        (
          (==_iff l.subject_id subject).1 same_subject,
          (==_iff tb.day_of_week target_day).1 same_day,
          shared,
        )
        at (rw (of_lesson, splits_with, of_block) at h) in
    ground (arith, h')

-- When the guard lets a room change of one placement pass, every other placement whose lesson and
-- time block the lookups find, whose lesson has the subject and a class in common, on the day, is
-- in the target room.
pub would_split_class_day_subject_room-false :
    (placements : List Placement) (moving_idx : ℕ) (members : List ℕ)
    (target_day subject target_room : ℕ) (lessons : HashMap ℕ Lesson) (blocks : HashMap ℕ TimeBlock)
    (j : ℕ) (q : Placement) (l : Lesson) (tb : TimeBlock) (c : ℕ)
    → would_split_class_day_subject_room placements moving_idx members target_day subject
        target_room lessons blocks
      ≡ false
    → get_elem? placements j ≡ some q
    → (j == moving_idx) ≡ false
    → get lessons q.lesson_id ≡ some l
    → get blocks q.time_block_id ≡ some tb
    → l.subject_id ≡ subject
    → tb.day_of_week ≡ target_day
    → In c l.school_class_ids
    → In c members
    → q.room_id ≡ target_room
unfolding would_split_class_day_subject_room
would_split_class_day_subject_room-false placements moving_idx members target_day subject
      target_room lessons blocks j q l tb c passes at other of_lesson of_block same_subject same_day
      in_l in_m =
    splits_with-false members target_day subject target_room lessons blocks q l tb c
      (splits_from-false 0 moving_idx
        (splits_with members target_day subject target_room lessons blocks) placements j q passes at
        (ground (arith, other)))
      of_lesson of_block same_subject same_day in_l in_m
