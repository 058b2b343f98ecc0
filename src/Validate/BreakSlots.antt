-- ===== src/Validate/BreakSlots.antt =====
-- `validate_no_lesson_on_break_slot`: every placement is on a time block of the kind `lesson_slot`.
use klassenzeit.Base.{
  ℕ, ◌≡◌, ◌↔◌, refl, Bool, true, false, some, List, [], ◌∷◌, HashMap, nat_eq, get, collect, All,
}
use klassenzeit.Types.{Problem, Placement, TimeBlock, TimeBlockKind, lesson_slot, break_slot}
use klassenzeit.Validate.Outcome.{
  unknown_time_block, lesson_on_break, Result, ok, ◌>>=◌, ◌>>◌, ok_or, refuse_if, >>=-eq-ok,
  ok_or-eq-ok, refuse_if-eq-ok,
}

-- `problem.time_blocks.iter().map(|t| (t.id, t)).collect()`
unfoldable pub tb_by_id : Problem → HashMap ℕ TimeBlock
unfolding collect
tb_by_id problem = collect (λ t. t.id) (λ t. t) problem.time_blocks []

-- `tb.kind != TimeBlockKind::Lesson`
unfoldable pub is_not_lesson : TimeBlockKind → Bool
is_not_lesson lesson_slot = false
is_not_lesson break_slot = true

unfoldable pub check_slot : Problem → Placement → Result (Unit {0})
unfolding tb_by_id get is_not_lesson
check_slot problem p = do
  tb ← ok_or (get (tb_by_id problem) p.time_block_id) (unknown_time_block p.time_block_id)
  refuse_if (is_not_lesson tb.kind) (lesson_on_break p.lesson_id tb.id)

unfoldable pub validate_no_lesson_on_break_slot : Problem → List Placement → Result (Unit {0})
unfolding check_slot
validate_no_lesson_on_break_slot problem [] = ok tt
validate_no_lesson_on_break_slot problem (p ∷ ps) =
    check_slot problem p >> validate_no_lesson_on_break_slot problem ps

-- The time block of the placement exists and is for lessons.
abbrev pub OnLesson : Problem → Placement → Type 0
OnLesson problem p =
    (tb : TimeBlock) × (get (tb_by_id problem) p.time_block_id ≡ some tb) × (tb.kind ≡ lesson_slot)

is_not_lesson-false : (k : TimeBlockKind) → is_not_lesson k ≡ false → k ≡ lesson_slot
unfolding is_not_lesson
is_not_lesson-false lesson_slot h = refl
is_not_lesson-false break_slot h = cc

check_slot_iff :
    (problem : Problem) (p : Placement) → (check_slot problem p ≡ ok tt) ↔ OnLesson problem p
unfolding check_slot
check_slot_iff problem p = (
  (λ q.
      let (tb, found, q') = >>=-eq-ok (ok_or (get (tb_by_id problem) p.time_block_id) _) _ q in
      (tb, ok_or-eq-ok _ _ found, is_not_lesson-false tb.kind (refuse_if-eq-ok _ _ q'))),
  (λ (tb, found, kind). rw found (rw kind refl)),
)

-- The validator accepts exactly when every placement is on a time block that exists and whose kind
-- is for lessons.
pub validate_no_lesson_on_break_slot_iff :
    (problem : Problem) (placements : List Placement)
    → (validate_no_lesson_on_break_slot problem placements ≡ ok tt)
      ↔ All (OnLesson problem) placements
unfolding validate_no_lesson_on_break_slot
validate_no_lesson_on_break_slot_iff problem [] = ((λ _. tt), (λ _. refl))
validate_no_lesson_on_break_slot_iff problem (p ∷ ps) = (
  (λ q.
      let (u, first, rest) = >>=-eq-ok (check_slot problem p) _ q in
      (
        (check_slot_iff problem p).0 first,
        (validate_no_lesson_on_break_slot_iff problem ps).0 rest,
      )),
  (λ h.
      rw ((check_slot_iff problem p).1 h.0)
        ((validate_no_lesson_on_break_slot_iff problem ps).1 h.1)),
)
