-- ===== src/Greedy/Tracks/Enter.antt =====
-- Entering one row into the bookkeeping keeps it in step with the rows.
use klassenzeit.Base.{
  ℕ, ◌%◌, ◌<◌, ◌≡◌, refl, Bool, true, List, [], ◌∷◌, ◌++◌, ◌==◌, HashMap, get_or_default,
  get_or_default-update_at, contains, contains-add, any, IsDistinct, look-each_class, each_class,
  add, Bool-cases, inl, inr, nat_eq, pair_eq, triple_eq, add_u8, ◌∙◌,
}
use klassenzeit.Types.{Lesson, Placement, TimeBlock}
use klassenzeit.Score.Partition.{insert_position}
use klassenzeit.Greedy.State.{GreedyState}
use klassenzeit.Greedy.Rows.{join_hours, join_partition}
use klassenzeit.Greedy.Rows.Fields.{with_row, pair_apart, triple_apart, add_acts}
use klassenzeit.Greedy.Tracks.{
  Seat, seat_of, by_teacher, in_room, of_class, of_class_day, by_teacher_day, of_class_subject,
  count, Covers, IsTracked, any-snoc, counted, covered,
}

pub slot_entered :
    (p : Seat → Bool) (rows : List Seat) (r : Seat) (s : List (ℕ × ℕ)) (k j : ℕ × ℕ)
    → contains s j ≡ any p rows
    → pair_eq.beq k j ≡ p r
    → contains (add k s) j ≡ any p (rows ++ (r ∷ []))
slot_entered p rows r s k j old same = rw (contains-add k j s, any-snoc p rows r, same, old) refl

pub classes_entered :
    (rows : List Seat) (r : Seat) (s : List (ℕ × ℕ)) (j : ℕ × ℕ)
    → IsDistinct r.classes
    → contains s j ≡ any (of_class j) rows
    → contains (each_class (λ c. add (c, r.block)) r.classes s) j
      ≡ any (of_class j) (rows ++ (r ∷ []))
classes_entered rows r s j distinct old =
    rw
      (
        look-each_class contains (λ c j. pair_eq.beq (c, r.block) j) (λ c. add (c, r.block))
            (λ b. true) (λ c j s. add_acts (c, r.block) j s) (λ c d j. pair_apart r.block c d j)
            r.classes distinct j s,
        any-snoc (of_class j) rows r,
      )
      (elim (Bool-cases (of_class j r)) [ inl e ↦ rw e refl | inr e ↦ rw e old ])

class_days_entered :
    (rows : List Seat) (r : Seat) (parts : HashMap (ℕ × ℕ) (List ℕ)) (j : ℕ × ℕ)
    → r.position < 256
    → IsDistinct r.classes
    → Covers (get_or_default [] parts j) (of_class_day j) rows
    → Covers
        (get_or_default []
          (each_class (λ c. join_partition (c, r.day) r.position) r.classes parts)
          j)
        (of_class_day j)
        (rows ++ (r ∷ []))
class_days_entered rows r parts j u distinct old =
    rw
      (look-each_class (get_or_default []) (λ c j. pair_eq.beq (c, r.day) j)
        (λ c. join_partition (c, r.day) r.position) (λ ps. insert_position ps r.position)
        (λ c j s. get_or_default-update_at (c, r.day) j [] (λ ps. insert_position ps r.position) s)
        (λ c d j. pair_apart r.day c d j) r.classes distinct j parts)
      (covered (of_class_day j) rows r (get_or_default [] parts j) u old)

subject_hours_entered :
    (rows : List Seat) (r : Seat) (hours : HashMap (ℕ × ℕ × ℕ) ℕ) (j : ℕ × ℕ × ℕ)
    → IsDistinct r.classes
    → get_or_default 0 hours j ≡ count (of_class_subject j) rows % 256
    → get_or_default 0 (each_class (λ c. join_hours (c, r.day, r.subject)) r.classes hours) j
      ≡ count (of_class_subject j) (rows ++ (r ∷ [])) % 256
subject_hours_entered rows r hours j distinct old =
    rw
      (look-each_class (get_or_default 0) (λ c j. triple_eq.beq (c, r.day, r.subject) j)
        (λ c. join_hours (c, r.day, r.subject)) (λ h. add_u8 h 1)
        (λ c j s. get_or_default-update_at (c, r.day, r.subject) j 0 (λ h. add_u8 h 1) s)
        (λ c d j. triple_apart r.day r.subject c d j) r.classes distinct j hours)
      (counted (of_class_subject j) rows r (get_or_default 0 hours j) old)

pub with_row-IsTracked :
    (lesson' : Lesson) (p : Placement) (tb : TimeBlock) (rows : List Seat) (s : GreedyState)
    → tb.position < 256
    → IsDistinct lesson'.school_class_ids
    → IsTracked rows s
    → IsTracked (rows ++ (seat_of lesson' p tb ∷ [])) (with_row lesson' p tb s)
with_row-IsTracked lesson' p tb rows s u distinct old =
    let r = seat_of lesson' p tb in
    record {
      teachers = λ j.
          slot_entered (by_teacher j) rows r s.used_teacher (p.teacher_id, p.time_block_id) j
            (old.teachers j) refl;
      classes = λ j. classes_entered rows r s.used_class j distinct (old.classes j);
      rooms = λ j.
          slot_entered (in_room j) rows r s.used_room (p.room_id, p.time_block_id) j (old.rooms j)
            refl;
      hours = λ t.
          get_or_default-update_at p.teacher_id t 0 (λ h. add_u8 h 1) s.hours_by_teacher
          ∙ counted (λ r. r.teacher == t) rows r (get_or_default 0 s.hours_by_teacher t)
              (old.hours t);
      class_days = λ j. class_days_entered rows r s.class_positions j u distinct (old.class_days j);
      teacher_days = λ j.
          rw
            (get_or_default-update_at (p.teacher_id, tb.day_of_week) j []
              (λ ps. insert_position ps tb.position) s.teacher_positions)
            (covered (by_teacher_day j) rows r (get_or_default [] s.teacher_positions j) u
              (old.teacher_days j));
      subject_hours = λ j.
          subject_hours_entered rows r s.subject_hours_by_class_day j distinct
            (old.subject_hours j);
    }
