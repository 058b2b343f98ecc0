-- ===== src/Validate/DoubleBooking/Exclusive.antt =====
-- What placements without a double booking satisfy.
use klassenzeit.Base.{
  ℕ, ◌+◌, ◌≤◌, ◌≡◌, refl, false, Option, none, some, List, [], ◌∷◌, ◌++◌, arith, ◌==◌, ==_iff, ltb,
  if◌then◌else◌, HashMap, get, get_or_default, update, get_or_default-update, nat_eq, pair_eq,
  length, length-append, All, All-map, Bool-cases, ap, sym, subst, inl, inr, ◌∙◌,
}
use klassenzeit.Types.{Problem, Lesson, TimeBlock, Placement}
use klassenzeit.Validate.Outcome.{
  ok, ok_or, refuse_if, >>=-eq-ok, ok-inj, ok_or-eq-ok, refuse_if-eq-ok, double_teacher,
  double_room,
}
use klassenzeit.Validate.Entries.{Extends, enter, enter-Extends, enter-get}
use klassenzeit.Validate.Teachers.{lesson_by_id}
use klassenzeit.Validate.BreakSlots.{tb_by_id}
use klassenzeit.Validate.DoubleBooking.{
  Row, Used, nothing_used, claim_classes, book, book_all, check_rows, validate_no_double_booking,
}

-- The teacher's and the room's entry of a placement, and its row, are in `used'`.
abbrev Booked : Used → Placement → Type 0
Booked used p =
    (get used.teacher_used (p.teacher_id, p.time_block_id) ≡ some p.lesson_id)
    × (get used.room_used (p.room_id, p.time_block_id) ≡ some p.lesson_id)

abbrev count_rows : Used → ℕ → ℕ
count_rows used l = length (get_or_default [] used.rows_by_lesson l)

abbrev Grows : Used → Used → Type 0
Grows used used' =
    Extends (λ key. double_teacher key.0 key.1) used.teacher_used used'.teacher_used
    × Extends (λ key. double_room key.0 key.1) used.room_used used'.room_used

-- The record after a placement.
abbrev after :
    Placement → Used → HashMap (ℕ × ℕ) ℕ → HashMap (ℕ × ℕ) ℕ → HashMap (ℕ × ℕ) ℕ → Row → Used
unfolding update
after p used classes teachers rooms row = record {
  class_used = classes;
  teacher_used = teachers;
  room_used = rooms;
  rows_by_lesson = update p.lesson_id [] (λ rows. rows ++ (row ∷ [])) used.rows_by_lesson;
}

abbrev Booking : Placement → Used → Used → Type 0
Booking p used used' =
    Grows used used'
    × Booked used' p
    × ((l : ℕ) → count_rows used' l ≡ count_rows used l + (if p.lesson_id == l then 1 else 0))

booked :
    (p : Placement) (used used' : Used) (classes teachers rooms : HashMap (ℕ × ℕ) ℕ) (row : Row)
    → enter
        (λ key. double_teacher key.0 key.1)
        (p.teacher_id, p.time_block_id)
        p.lesson_id
        used.teacher_used
      ≡ ok teachers
    → enter (λ key. double_room key.0 key.1) (p.room_id, p.time_block_id) p.lesson_id used.room_used
      ≡ ok rooms
    → after p used classes teachers rooms row ≡ used'
    → Booking p used used'
unfolding after
booked p used used' classes teachers rooms row t r e = rw (← e) (
  (enter-Extends _ _ _ _ teachers t, enter-Extends _ _ _ _ rooms r),
  (enter-get _ _ _ _ teachers t, enter-get _ _ _ _ rooms r),
  (λ l. rows_lem l),
)
  where
    rows_lem :
        (l : ℕ)
        → length (
            get_or_default []
              (update p.lesson_id [] (λ rows. rows ++ (row ∷ [])) used.rows_by_lesson)
              l)
          ≡ length (get_or_default [] used.rows_by_lesson l) + (if p.lesson_id == l then 1 else 0)
    rows_lem l =
        rw (get_or_default-update p.lesson_id l [] (λ rows. rows ++ (row ∷ [])) used.rows_by_lesson)
          (elim (Bool-cases (p.lesson_id == l)) [
            | inl e ↦
                rw
                  (
                    e,
                    length-append (get_or_default [] used.rows_by_lesson p.lesson_id) (row ∷ []),
                    (==_iff _ _).0 e,
                  )
                  refl
            | inr e ↦ rw e (omega arith)
          ])

book_lem :
    (lessons : HashMap ℕ Lesson) (time_blocks : HashMap ℕ TimeBlock) (p : Placement)
    (used used' : Used)
    → book lessons time_blocks p used ≡ ok used'
    → Booking p used used'
unfolding book
book_lem lessons time_blocks p used used' q =
    let (l, found, q1) = >>=-eq-ok (ok_or (get lessons p.lesson_id) _) _ q in
    let (tb, found', q2) = >>=-eq-ok (ok_or (get time_blocks p.time_block_id) _) _ q1 in
    let (classes, c, q3) =
      >>=-eq-ok
        (claim_classes lessons l p.lesson_id p.time_block_id l.school_class_ids used.class_used) _
        q2 in
    let (teachers, t, q4) =
      >>=-eq-ok
        (enter (λ key. double_teacher key.0 key.1) (p.teacher_id, p.time_block_id) p.lesson_id
          used.teacher_used)
        _ q3 in
    let (rooms, r, q5) =
      >>=-eq-ok
        (enter (λ key. double_room key.0 key.1) (p.room_id, p.time_block_id) p.lesson_id
          used.room_used)
        _ q4 in
    booked p used used' classes teachers rooms (tb.day_of_week, tb.position, p.room_id) t r
      (ok-inj q5)

-- The number of placements of a lesson.
abbrev pub placements_of : ℕ → List Placement → ℕ
placements_of l [] = 0
placements_of l (p ∷ ps) = (if p.lesson_id == l then 1 else 0) + placements_of l ps

abbrev BookingAll : List Placement → Used → Used → Type 0
BookingAll ps used used' =
    Grows used used'
    × All (Booked used') ps
    × ((l : ℕ) → count_rows used' l ≡ count_rows used l + placements_of l ps)

Booking-cons :
    (p : Placement) (ps : List Placement) (used u used' : Used)
    → Booking p used u
    → BookingAll ps u used'
    → BookingAll (p ∷ ps) used used'
Booking-cons p ps used u used' ((gt, gr), (bt, br), c) ((gt', gr'), bs, c') = (
  ((λ k v e. gt' k v (gt k v e)), (λ k v e. gr' k v (gr k v e))),
  (
    (
      gt' (p.teacher_id, p.time_block_id) p.lesson_id bt,
      gr' (p.room_id, p.time_block_id) p.lesson_id br,
    ),
    bs,
  ),
  (λ l. omega (arith, c l, c' l)),
)

book_all_lem :
    (lessons : HashMap ℕ Lesson) (time_blocks : HashMap ℕ TimeBlock) (ps : List Placement)
    (used used' : Used)
    → book_all lessons time_blocks ps used ≡ ok used'
    → BookingAll ps used used'
unfolding book_all
book_all_lem lessons time_blocks [] used used' q = nothing used used' (ok-inj q)
  where
    nothing : (used used' : Used) → used ≡ used' → BookingAll [] used used'
    nothing used used' e = rw (← e) (((λ k v i. i), (λ k v i. i)), tt, (λ l. omega arith))
book_all_lem lessons time_blocks (p ∷ ps) used used' q =
    let (u, first, rest) = >>=-eq-ok (book lessons time_blocks p used) _ q in
    Booking-cons p ps used u used' (book_lem lessons time_blocks p used u first)
      (book_all_lem lessons time_blocks ps u used' rest)

few_rows :
    (lessons : HashMap ℕ Lesson) (k id : ℕ) (l l' : Lesson) (rows : List Row)
    → k ≡ id
    → get lessons k ≡ some l'
    → get lessons id ≡ some l
    → ltb l'.hours_per_week (length rows) ≡ false
    → length rows ≤ l.hours_per_week
few_rows lessons k id l l' rows same found' found few =
    let same_lesson : l' ≡ l = some-inj (sym found' ∙ ap (get lessons) same ∙ found) in
    let bound : length rows ≤ l'.hours_per_week = ground arith in
    subst (λ x. length rows ≤ x.hours_per_week) same_lesson bound
  where
    some-inj : some l' ≡ some l → l' ≡ l
    some-inj e = ap (λ (o : Option Lesson). elim o as (λ _. Lesson) [ none ↦ l | some x ↦ x ]) e

head_rows :
    (k id : ℕ) (rows : List Row) (more : HashMap ℕ (List Row))
    → get_or_default [] ((k, rows) ∷ more) id
      ≡ (if k == id then rows else get_or_default [] more id)
unfolding get_or_default get
head_rows k id rows more = ground arith

check_rows_lem :
    (lessons : HashMap ℕ Lesson) (m : HashMap ℕ (List Row)) (id : ℕ) (l : Lesson)
    → check_rows lessons m ≡ ok tt
    → get lessons id ≡ some l
    → length (get_or_default [] m id) ≤ l.hours_per_week
unfolding check_rows
check_rows_lem lessons [] id l q found = unfold get_or_default get in omega arith
check_rows_lem lessons ((k, rows) ∷ more) id l q found =
    let (l', found', q1) = >>=-eq-ok (ok_or (get lessons k) _) _ q in
    let (u, few, q2) = >>=-eq-ok (refuse_if (ltb l'.hours_per_week (length rows)) _) _ q1 in
    let (u', days, q3) = >>=-eq-ok _ (λ _. check_rows lessons more) q2 in
    let rest = check_rows_lem lessons more id l q3 found in
    elim (Bool-cases (k == id)) [
      | inl e ↦
          rw (head_rows k id rows more, e)
            (few_rows lessons k id l l' rows ((==_iff k id).0 e) (ok_or-eq-ok _ _ found') found
              (refuse_if-eq-ok _ _ few))
      | inr e ↦ rw (head_rows k id rows more, e) rest
    ]

held : (m : HashMap (ℕ × ℕ) ℕ) (k : ℕ × ℕ) (v : ℕ) → get m k ≡ some v → get_or_default 0 m k ≡ v
unfolding get_or_default
held m k v e = ground (arith, e)

bounded :
    (id : ℕ) (l : Lesson) {n m : ℕ}
    → n ≡ count_rows nothing_used id + m
    → n ≤ l.hours_per_week
    → m ≤ l.hours_per_week
unfolding get_or_default get
bounded id l e h = omega arith

-- When the validator accepts, each teacher and each room has at each time at most one lesson (one can name
-- the lesson of a teacher or a room at a time, and every placement there is of that lesson), and no lesson
-- has more placements than hours.
pub validate_no_double_booking-exclusive :
    (problem : Problem) (placements : List Placement)
    → validate_no_double_booking problem placements ≡ ok tt
    → ((of_teacher : ℕ × ℕ → ℕ) × All
          (λ p. of_teacher (p.teacher_id, p.time_block_id) ≡ p.lesson_id)
          placements)
      × ((of_room : ℕ × ℕ → ℕ) × All
            (λ p. of_room (p.room_id, p.time_block_id) ≡ p.lesson_id)
            placements)
      × ((id : ℕ) (l : Lesson)
          → get (lesson_by_id problem) id ≡ some l
          → placements_of id placements ≤ l.hours_per_week)
unfolding validate_no_double_booking
validate_no_double_booking-exclusive problem placements q =
    let (used, booked, checked) =
      >>=-eq-ok (book_all (lesson_by_id problem) (tb_by_id problem) placements nothing_used) _ q in
    let (grows, at, counts) =
      book_all_lem (lesson_by_id problem) (tb_by_id problem) placements nothing_used used booked in
    (
      (
        get_or_default 0 used.teacher_used,
        All-map (λ p b. held used.teacher_used _ _ b.0) placements at,
      ),
      (get_or_default 0 used.room_used, All-map (λ p b. held used.room_used _ _ b.1) placements at),
      (λ id l found.
          bounded id l (counts id)
            (check_rows_lem (lesson_by_id problem) used.rows_by_lesson id l checked found)),
    )
