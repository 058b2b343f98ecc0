-- ===== src/Greedy/Tracks.antt =====
-- What the greedy bookkeeping says of the placements: an abstract view of `GreedyState` as a list of rows.
pub mod Enter
pub mod Apart
use klassenzeit.Base.{
  ℕ, zero, suc, ◌+◌, ◌%◌, ◌<◌, ◌≡◌, refl, Bool, true, false, ◌&&◌, ◌||◌, Option, none, some, List,
  [], ◌∷◌, ◌++◌, ◌==◌, if◌then◌else◌, HashMap, get_or_default, get_or_default-update_at, contains,
  contains-add, any, IsDistinct, look-each_class, Eq, each_class, add, update, arith, Bool-cases,
  inl, inr, nat_eq, pair_eq, triple_eq, add_u8, sym, ◌∙◌, ap, All,
}
use klassenzeit.Types.{Lesson, Placement, TimeBlock}
use klassenzeit.Score.Partition.{insert_position, member, IsPartition, insert_position-IsPartition}
use klassenzeit.Greedy.State.{GreedyState, new_state}
use klassenzeit.Greedy.Rows.{join_hours, join_lock, join_partition}
use klassenzeit.Greedy.Rows.Fields.{with_row}

-- A placement with what its lesson and its time block say.
pub record Seat : Type 0 where
  pub teacher : ℕ
  pub room : ℕ
  pub block : ℕ
  pub day : ℕ
  pub position : ℕ
  pub subject : ℕ
  pub classes : List ℕ

abbrev pub seat_of : Lesson → Placement → TimeBlock → Seat
seat_of lesson' p tb = record {
  teacher = p.teacher_id;
  room = p.room_id;
  block = p.time_block_id;
  day = tb.day_of_week;
  position = tb.position;
  subject = lesson'.subject_id;
  classes = lesson'.school_class_ids;
}

-- The row is one of the teacher, the room, or a class at the time block of the key.
abbrev pub by_teacher : ℕ × ℕ → Seat → Bool
by_teacher j r = (r.teacher == j.0) && (r.block == j.1)

abbrev pub in_room : ℕ × ℕ → Seat → Bool
in_room j r = (r.room == j.0) && (r.block == j.1)

abbrev pub of_class : ℕ × ℕ → Seat → Bool
of_class j r = any (λ c. (c == j.0) && (r.block == j.1)) r.classes

-- The row is one of the class or the teacher on the day of the key, or of the class, day and subject.
abbrev pub of_class_day : ℕ × ℕ → Seat → Bool
of_class_day j r = any (λ c. (c == j.0) && (r.day == j.1)) r.classes

abbrev pub by_teacher_day : ℕ × ℕ → Seat → Bool
by_teacher_day j r = (r.teacher == j.0) && (r.day == j.1)

abbrev pub of_class_subject : ℕ × ℕ × ℕ → Seat → Bool
of_class_subject j r = any (λ c. (c == j.0) && ((r.day == j.1) && (r.subject == j.2))) r.classes

abbrev pub count : (Seat → Bool) → List Seat → ℕ
count p [] = 0
count p (r ∷ rs) = (if p r then 1 else 0) + count p rs

-- The partition is sorted and has the positions of the rows that the test picks.
abbrev pub Covers : List ℕ → (Seat → Bool) → List Seat → Type 0
Covers ps p rows =
    IsPartition ps × ((q : ℕ) → member ps q ≡ any (λ r. p r && (r.position == q)) rows)

-- The sets, the partitions and the hour counters are those of the rows. A `u8` counter wraps.
pub record IsTracked (rows : List Seat) (s : GreedyState) : Type 0 where
  pub teachers : (j : ℕ × ℕ) → contains s.used_teacher j ≡ any (by_teacher j) rows
  pub classes : (j : ℕ × ℕ) → contains s.used_class j ≡ any (of_class j) rows
  pub rooms : (j : ℕ × ℕ) → contains s.used_room j ≡ any (in_room j) rows
  pub hours :
      (t : ℕ) → get_or_default 0 s.hours_by_teacher t ≡ count (λ r. r.teacher == t) rows % 256
  pub class_days :
      (j : ℕ × ℕ) → Covers (get_or_default [] s.class_positions j) (of_class_day j) rows
  pub teacher_days :
      (j : ℕ × ℕ) → Covers (get_or_default [] s.teacher_positions j) (by_teacher_day j) rows
  pub subject_hours :
      (j : ℕ × ℕ × ℕ)
      → get_or_default 0 s.subject_hours_by_class_day j ≡ count (of_class_subject j) rows % 256

-- The part of this that keeps two rows off one slot.
pub record IsSeated (rows : List Seat) (s : GreedyState) : Type 0 where
  pub teachers : (j : ℕ × ℕ) → contains s.used_teacher j ≡ any (by_teacher j) rows
  pub classes : (j : ℕ × ℕ) → contains s.used_class j ≡ any (of_class j) rows
  pub rooms : (j : ℕ × ℕ) → contains s.used_room j ≡ any (in_room j) rows

-- Two rows in one time block with the same teacher, the same room or a common class.
abbrev pub clash : Seat → Seat → Bool
clash q r =
    by_teacher (r.teacher, r.block) q
    || (in_room (r.room, r.block) q || any (λ c. of_class (c, r.block) q) r.classes)

-- No two of the rows clash.
abbrev pub IsApart : List Seat → Type 0
IsApart [] = Unit
IsApart (r ∷ rs) = All (λ q. clash r q ≡ false) rs × IsApart rs

pub any-snoc :
    (p : Seat → Bool) (rows : List Seat) (r : Seat) → any p (rows ++ (r ∷ [])) ≡ (p r || any p rows)
any-snoc p [] r = refl
any-snoc p (x ∷ rows) r = ground (arith, any-snoc p rows r)

pub count-snoc :
    (p : Seat → Bool) (rows : List Seat) (r : Seat)
    → count p (rows ++ (r ∷ [])) ≡ (if p r then 1 else 0) + count p rows
count-snoc p [] r = ground arith
count-snoc p (x ∷ rows) r = omega (arith, count-snoc p rows r)

pub counted :
    (p : Seat → Bool) (rows : List Seat) (r : Seat) (old : ℕ)
    → old ≡ count p rows % 256
    → (if p r then add_u8 old 1 else old) ≡ count p (rows ++ (r ∷ [])) % 256
counted p rows r old h =
    rw (count-snoc p rows r)
      (elim (Bool-cases (p r)) [ inl e ↦ rw e (omega arith) | inr e ↦ rw e (omega arith) ])

pub covered :
    (p : Seat → Bool) (rows : List Seat) (r : Seat) (ps : List ℕ)
    → r.position < 256
    → Covers ps p rows
    → Covers (if p r then insert_position ps r.position else ps) p (rows ++ (r ∷ []))
covered p rows r ps u h = elim (Bool-cases (p r)) [
  | inl e ↦
      let new = insert_position-IsPartition r.position ps u h.0 in
      rw e (
        new.0,
        λ q.
            rw (any-snoc (λ r. p r && (r.position == q)) rows r, e)
              (new.1 q ∙ ground (arith, h.1 q)),
      )
  | inr e ↦ rw e (h.0, λ q. rw (any-snoc (λ r. p r && (r.position == q)) rows r, e) (h.1 q))
]

-- The empty bookkeeping is in step with no rows.
pub new_state-IsTracked : IsTracked [] new_state
unfolding contains get_or_default
new_state-IsTracked = record {
  teachers = λ j. refl;
  classes = λ j. refl;
  rooms = λ j. refl;
  hours = λ t. refl;
  class_days = λ j. (omega arith, λ q. refl);
  teacher_days = λ j. (omega arith, λ q. refl);
  subject_hours = λ j. refl;
}

pub IsTracked-IsSeated : (rows : List Seat) (s : GreedyState) → IsTracked rows s → IsSeated rows s
IsTracked-IsSeated rows s tracked = record {
  teachers = tracked.teachers;
  classes = tracked.classes;
  rooms = tracked.rooms;
}
