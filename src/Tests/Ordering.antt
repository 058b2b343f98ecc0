-- ===== src/Tests/Ordering.antt =====
-- The order of the sample's lessons.
use klassenzeit.Base.{◌≡◌, refl, [], ◌∷◌, arith}
use klassenzeit.Index.{new}
use klassenzeit.Ordering.{
  tbs_by_day, home_room_pairs, same_room_eligibility, same_room_eligibility_no_blocks, ffd_order,
}
use klassenzeit.Ordering.FastPath.{same_room_eligibility-eq-no_blocks}
use klassenzeit.Tests.{school, lesson_b}

-- Lesson 52 has one candidate teacher, lesson 51 two.
order_of_the_sample : ffd_order school (new school) ≡ 1 ∷ 0 ∷ []
unfolding ffd_order new
order_of_the_sample = refl

eligibility_example :
    same_room_eligibility lesson_b school
      (new school)
      (tbs_by_day school)
      (home_room_pairs school.school_classes)
    ≡ same_room_eligibility_no_blocks lesson_b school
        (new school)
        (tbs_by_day school)
        (home_room_pairs school.school_classes)
unfolding tbs_by_day
eligibility_example =
    same_room_eligibility-eq-no_blocks lesson_b school (tbs_by_day school)
      (home_room_pairs school.school_classes) refl refl (omega arith)
