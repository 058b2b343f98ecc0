-- ===== src/Tests/Supervision.antt =====
-- The rota of the sample timetable: the break of day 0 goes to the teacher before it.
use klassenzeit.Base.{List, arith, ◌≡◌, ◌≤◌, refl, [], ◌∷◌, All, length}
use klassenzeit.Supervision.{
  compute_supervision_full, compute_supervision_spread, break_slots, Slot,
}
use klassenzeit.Supervision.Coverage.{AreBreaks, Answers, spread-eq-full, full-outcomes}
use klassenzeit.Supervision.Eligible.{IsRight, full-IsRight}
use klassenzeit.Supervision.Fair.{IsFair, full-IsFair}
use klassenzeit.Tests.{school, timetable}

rota_of_the_sample :
    (compute_supervision_full school timetable).0
    ≡ record { time_block_id = 42; teacher_id = 11 } ∷ []
unfolding compute_supervision_full
rota_of_the_sample = refl

spread_example :
    compute_supervision_spread school timetable ≡ (compute_supervision_full school timetable).2
spread_example = spread-eq-full school timetable

outcomes_example :
    (slots : List Slot) × AreBreaks school slots
    × Answers slots
        (compute_supervision_full school timetable).0
        (compute_supervision_full school timetable).1
outcomes_example = full-outcomes school timetable

IsRight-example : All (IsRight school timetable) (compute_supervision_full school timetable).0
IsRight-example = full-IsRight school timetable

few_breaks : length (break_slots school) ≤ 4294967295
unfolding break_slots
few_breaks = omega arith

IsFair-example : IsFair school timetable [] (compute_supervision_full school timetable).0
IsFair-example = full-IsFair school timetable few_breaks
