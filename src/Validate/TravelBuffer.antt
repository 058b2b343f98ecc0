-- ===== src/Validate/TravelBuffer.antt =====
-- `validate_travel_buffer`: the slots beside a lesson with travel buffers are breaks, or free for its
-- classes and its teacher. A message names the lesson, the class or teacher, the day, the position and
-- the lesson in the way.
use klassenzeit.Base.{
  ℕ, zero, suc, Bool, true, false, ◌&&◌, not, Option, none, some, List, [], ◌∷◌, ◌==◌, ltb,
  if◌then◌else◌, min, HashMap, get, insert, update, pair_eq, triple_eq, nat_eq, sat_add_u8,
}
use klassenzeit.Types.{Problem, Lesson, TimeBlock, Placement}
use klassenzeit.Validate.Outcome.{
  Error, Result, ok, ◌>>=◌, ◌>>◌, ok_or, refuse_if, unknown_lesson, unknown_time_block, first_slot,
  last_slot, pre_class, post_class, pre_teacher, post_teacher,
}
use klassenzeit.Validate.Teachers.{lesson_by_id}
use klassenzeit.Validate.BreakSlots.{tb_by_id, is_not_lesson}

-- `tb_by_day_pos`: a later block of a day and position replaces an earlier one.
unfoldable pub slots_of : List TimeBlock → HashMap (ℕ × ℕ) TimeBlock → HashMap (ℕ × ℕ) TimeBlock
unfolding insert
slots_of [] slots = slots
slots_of (tb ∷ tbs) slots = slots_of tbs (insert (tb.day_of_week, tb.position) tb slots)

-- Who is where: by class or teacher, day and position.
abbrev pub Occupants : Type 0
Occupants = HashMap (ℕ × ℕ × ℕ) ℕ

unfoldable pub occupy_classes : ℕ → ℕ → ℕ → List ℕ → Occupants → Occupants
unfolding insert
occupy_classes lesson_id day position [] occ = occ
occupy_classes lesson_id day position (c ∷ cs) occ =
    occupy_classes lesson_id day position cs (insert (c, day, position) lesson_id occ)

-- `class_occ` and `teacher_occ`.
unfoldable pub hold_slots :
    HashMap ℕ Lesson
    → HashMap ℕ TimeBlock
    → List Placement
    → Occupants
    → Occupants
    → Result (Occupants × Occupants)
unfolding get insert occupy_classes
hold_slots lessons tbs [] class_occ teacher_occ = ok (class_occ, teacher_occ)
hold_slots lessons tbs (p ∷ ps) class_occ teacher_occ = do
  tb ← ok_or (get tbs p.time_block_id) (unknown_time_block p.time_block_id)
  l ← ok_or (get lessons p.lesson_id) (unknown_lesson p.lesson_id)
  hold_slots lessons tbs ps
      (occupy_classes l.id tb.day_of_week tb.position l.school_class_ids class_occ)
      (insert (p.teacher_id, tb.day_of_week, tb.position) l.id teacher_occ)

-- `anchor_by_lesson_day`: the first position of a lesson on a day. `hold_slots` has found every block.
unfoldable pub anchors :
    HashMap ℕ TimeBlock → List Placement → HashMap (ℕ × ℕ) ℕ → HashMap (ℕ × ℕ) ℕ
unfolding get update
anchors tbs [] m = m
anchors tbs (p ∷ ps) m = anchors tbs ps (elim (get tbs p.time_block_id) [
  | none ↦ m
  | some tb ↦ update (p.lesson_id, tb.day_of_week) tb.position (λ cur. min tb.position cur) m
])

-- Another lesson that holds the slot.
unfoldable pub refuse_other : Occupants → ℕ × ℕ × ℕ → ℕ → (ℕ → Error) → Result (Unit {0})
unfolding get
refuse_other occ key lesson_id reason = elim (get occ key) [
  | none ↦ ok tt
  | some conflict ↦ refuse_if (not (conflict == lesson_id)) (reason conflict)
]

unfoldable pub refuse_classes : Occupants → ℕ → ℕ → ℕ → (ℕ → ℕ → Error) → List ℕ → Result (Unit {0})
unfolding refuse_other
refuse_classes occ day position lesson_id reason [] = ok tt
refuse_classes occ day position lesson_id reason (c ∷ cs) =
    refuse_other occ (c, day, position) lesson_id (reason c)
    >> refuse_classes occ day position lesson_id reason cs

-- `.is_some_and(|t| t.kind == TimeBlockKind::Break)`
abbrev holds_break : Option TimeBlock → Bool
holds_break none = false
holds_break (some tb) = is_not_lesson tb.kind

unfoldable pub check_pre :
    Problem
    → HashMap (ℕ × ℕ) TimeBlock
    → Occupants
    → Occupants
    → Lesson
    → ℕ
    → ℕ
    → ℕ
    → Result (Unit {0})
unfolding get refuse_classes refuse_other is_not_lesson
check_pre problem slots class_occ teacher_occ l teacher day zero =
    refuse_if (ltb problem.pre_first_slot_grace_minutes l.pre_buffer_minutes)
      (first_slot l.id day 0)
check_pre problem slots class_occ teacher_occ l teacher day (suc prev_pos) =
    if holds_break (get slots (day, prev_pos))
    then ok tt
    else (refuse_classes class_occ day prev_pos l.id
          (λ c conflict. pre_class l.id c day (suc prev_pos) conflict) l.school_class_ids
        >> refuse_other teacher_occ (teacher, day, prev_pos) l.id
            (λ conflict. pre_teacher l.id teacher day (suc prev_pos) conflict))

unfoldable pub check_post :
    HashMap (ℕ × ℕ) TimeBlock → Occupants → Occupants → Lesson → ℕ → ℕ → ℕ → Result (Unit {0})
unfolding get refuse_classes refuse_other is_not_lesson
check_post slots class_occ teacher_occ l teacher day position =
    let next_pos = sat_add_u8 position l.preferred_block_size in
    ok_or (get slots (day, next_pos)) (last_slot l.id day position) >>= λ next.
    if is_not_lesson next.kind
    then ok tt
    else (refuse_classes class_occ day next_pos l.id
          (λ c conflict. post_class l.id c day position conflict) l.school_class_ids
        >> refuse_other teacher_occ (teacher, day, next_pos) l.id
            (λ conflict. post_teacher l.id teacher day position conflict))

-- Rows after the first of their lesson and day are passed over.
abbrev is_anchor : Option ℕ → ℕ → Bool
is_anchor none position = true
is_anchor (some anchor) position = position == anchor

-- The body of the last loop. `hold_slots` has found the lesson and the time block.
unfoldable pub check_buffers :
    Problem
    → HashMap (ℕ × ℕ) TimeBlock
    → Occupants
    → Occupants
    → HashMap (ℕ × ℕ) ℕ
    → Placement
    → Result (Unit {0})
unfolding get check_pre check_post lesson_by_id tb_by_id
check_buffers problem slots class_occ teacher_occ anchor p = do
  l ← ok_or (get (lesson_by_id problem) p.lesson_id) (unknown_lesson p.lesson_id)
  tb ← ok_or (get (tb_by_id problem) p.time_block_id) (unknown_time_block p.time_block_id)
  (if (l.pre_buffer_minutes == 0) && (l.post_buffer_minutes == 0)
      then ok tt
      else (if is_anchor (get anchor (l.id, tb.day_of_week)) tb.position
          then ((if ltb 0 l.pre_buffer_minutes
                then check_pre problem slots class_occ teacher_occ l p.teacher_id tb.day_of_week
                    tb.position
                else ok tt)
              >> (if ltb 0 l.post_buffer_minutes
                  then check_post slots class_occ teacher_occ l p.teacher_id tb.day_of_week
                      tb.position
                  else ok tt))
          else ok tt))

unfoldable pub check_each : (Placement → Result (Unit {0})) → List Placement → Result (Unit {0})
check_each check [] = ok tt
check_each check (p ∷ ps) = check p >> check_each check ps

unfoldable pub validate_travel_buffer : Problem → List Placement → Result (Unit {0})
unfolding slots_of hold_slots anchors check_buffers check_each lesson_by_id tb_by_id
validate_travel_buffer problem placements = do
  occ ← hold_slots (lesson_by_id problem) (tb_by_id problem) placements [] []
  check_each
      (check_buffers problem (slots_of problem.time_blocks []) occ.0 occ.1
        (anchors (tb_by_id problem) placements []))
      placements
