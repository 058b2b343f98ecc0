-- ===== src/Validate/DailyCaps.antt =====
-- `validate_daily_caps`: no class has more hours of a subject on a day than the subject's cap, and no
-- more blocks of lessons on a day than its own. Sums of `u32` and the successor of a `u8` wrap.
pub mod Hours
use klassenzeit.Base.{
  ℕ, Bool, true, false, not, ◌==◌, leb, ltb, if◌then◌else◌, Option, none, some, List, [], ◌∷◌, ◌++◌,
  length, find, HashMap, get, update, pair_eq, triple_eq, add_u8, add_u32, to_u32, sort_by,
}
use klassenzeit.Types.{Problem, Lesson, Subject, SchoolClass, TimeBlock, Placement}
use klassenzeit.Validate.Outcome.{
  Result, ok, ◌>>=◌, ◌>>◌, ok_or, refuse_if, unknown_lesson, unknown_time_block, no_subject,
  no_school_class, subject_cap, class_cap,
}

abbrev pub lesson_named : Problem → ℕ → Option Lesson
lesson_named problem id = find (λ l. l.id == id) problem.lessons

abbrev pub block_named : Problem → ℕ → Option TimeBlock
block_named problem id = find (λ t. t.id == id) problem.time_blocks

-- The body of the first loop: the positions of a lesson's placements on each day.
unfoldable pub enter_position :
    Problem → Placement → HashMap (ℕ × ℕ) (List ℕ) → Result (HashMap (ℕ × ℕ) (List ℕ))
unfolding update
enter_position problem p rows = do
  l ← ok_or (lesson_named problem p.lesson_id) (unknown_lesson p.lesson_id)
  tb ← ok_or (block_named problem p.time_block_id) (unknown_time_block p.time_block_id)
  ok (update (l.id, tb.day_of_week) [] (λ ps. ps ++ (tb.position ∷ [])) rows)

unfoldable pub rows_by_lesson_day :
    Problem → List Placement → HashMap (ℕ × ℕ) (List ℕ) → Result (HashMap (ℕ × ℕ) (List ℕ))
unfolding enter_position
rows_by_lesson_day problem [] rows = ok rows
rows_by_lesson_day problem (p ∷ ps) rows =
    enter_position problem p rows >>= λ rows'. rows_by_lesson_day problem ps rows'

-- `prev.is_none_or(|q| *p != q + 1)`
abbrev starts_block : Option ℕ → ℕ → Bool
starts_block none p = true
starts_block (some q) p = not (p == add_u8 q 1)

-- The number of blocks among the sorted positions, on top of those counted so far.
unfoldable pub count_blocks : Option ℕ → ℕ → List ℕ → ℕ
count_blocks prev blocks [] = blocks
count_blocks prev blocks (p ∷ ps) =
    count_blocks (some p) (if starts_block prev p then add_u32 blocks 1 else blocks) ps

pub record Loads : Type 0 where
  pub subject_hours : HashMap (ℕ × ℕ × ℕ) ℕ
  pub class_blocks : HashMap (ℕ × ℕ) ℕ

abbrev pub no_loads : Loads
no_loads = record { subject_hours = []; class_blocks = [] }

-- The classes of a lesson get its hours and its blocks on the day.
unfoldable pub load_classes : ℕ → ℕ → ℕ → ℕ → List ℕ → Loads → Loads
unfolding update
load_classes day subject hours blocks [] loads = loads
load_classes day subject hours blocks (c ∷ cs) loads =
    load_classes day subject hours blocks cs (record {
      subject_hours = update (c, day, subject) 0 (λ h. add_u32 h hours) loads.subject_hours;
      class_blocks = update (c, day) 0 (λ b. add_u32 b blocks) loads.class_blocks;
    })

unfoldable pub load_all : Problem → HashMap (ℕ × ℕ) (List ℕ) → Loads → Result Loads
unfolding load_classes count_blocks sort_by
load_all problem [] loads = ok loads
load_all problem (((lesson_id, day), positions) ∷ rows) loads = do
  l ← ok_or (lesson_named problem lesson_id) (unknown_lesson lesson_id)
  load_all problem rows (
      load_classes day l.subject_id (to_u32 (length positions))
        (count_blocks none 0 (sort_by leb positions)) l.school_class_ids loads)

abbrev pub subject_named : Problem → ℕ → Option Subject
subject_named problem id = find (λ s. s.id == id) problem.subjects

unfoldable pub check_hours : Problem → HashMap (ℕ × ℕ × ℕ) ℕ → Result (Unit {0})
check_hours problem [] = ok tt
check_hours problem (((c, day, subject_id), hours) ∷ more) = do
  subject ← ok_or (subject_named problem subject_id) (no_subject subject_id)
  refuse_if (ltb subject.max_hours_per_day hours)
      (subject_cap (c, day, subject_id) hours subject.max_hours_per_day)
  check_hours problem more

-- A class without a cap takes any number of blocks.
abbrev check_cap : ℕ × ℕ → ℕ → Option ℕ → Result (Unit {0})
check_cap key blocks none = ok tt
check_cap key blocks (some cap) = refuse_if (ltb cap blocks) (class_cap key blocks cap)

unfoldable pub check_blocks : Problem → HashMap (ℕ × ℕ) ℕ → Result (Unit {0})
check_blocks problem [] = ok tt
check_blocks problem (((c, day), blocks) ∷ more) = do
  class' ← ok_or (find (λ k. k.id == c) problem.school_classes) (no_school_class c)
  check_cap (c, day) blocks class'.max_lessons_per_day
  check_blocks problem more

unfoldable pub validate_daily_caps : Problem → List Placement → Result (Unit {0})
unfolding rows_by_lesson_day load_all check_hours check_blocks
validate_daily_caps problem placements = do
  rows ← rows_by_lesson_day problem placements []
  loads ← load_all problem rows no_loads
  check_hours problem loads.subject_hours
  check_blocks problem loads.class_blocks
