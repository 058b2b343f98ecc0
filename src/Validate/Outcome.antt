-- ===== src/Validate/Outcome.antt =====
-- `Result<_, Error>` of error.rs: `Error::Input` with the message's kind and its arguments.
use klassenzeit.Base.{ℕ, ◌≡◌, refl, ap, Bool, true, false, Option, none, some, arith}

pub data Error : Type 0 where
  no_time_blocks no_rooms : Error
  duplicate_id : ℕ → Error
  zero_hours zero_block_size indivisible no_teacher no_classes : ℕ → Error
  unknown_teacher unknown_subject unknown_school_class : ℕ → ℕ → Error
  duplicate_school_class : ℕ → ℕ → Error
  qualification_teacher qualification_subject : ℕ → Error
  teacher_block_teacher teacher_block_time_block : ℕ → Error
  room_block_room room_block_time_block : ℕ → Error
  suitability_room suitability_subject : ℕ → Error
  group_hours group_block_size : ℕ → ℕ → ℕ → Error
  group_teacher : ℕ → ℕ → Error
  unknown_lesson unknown_time_block : ℕ → Error
  room_hopping : ℕ × ℕ × ℕ → ℕ → ℕ → Error
  teacher_split : ℕ × ℕ → ℕ → ℕ → Error
  not_the_pin not_a_candidate : ℕ → ℕ → Error
  lesson_on_break : ℕ → ℕ → Error
  double_class double_teacher double_room : ℕ → ℕ → ℕ → ℕ → Error
  cardinality block_count block_positions block_rooms : ℕ → Error
  no_subject no_school_class : ℕ → Error
  subject_cap : ℕ × ℕ × ℕ → ℕ → ℕ → Error
  class_cap : ℕ × ℕ → ℕ → ℕ → Error
  first_slot last_slot : ℕ → ℕ → ℕ → Error
  pre_class post_class pre_teacher post_teacher : ℕ → ℕ → ℕ → ℕ → ℕ → Error

pub data Result (A : Type 0) : Type 0 where
  err : Error → Result A
  ok : A → Result A

-- `if bad { return Err(e) }`
abbrev pub refuse_if : Bool → Error → Result (Unit {0})
refuse_if false reason = ok tt
refuse_if true reason = err reason

-- `ok_or_else(..)?`
abbrev pub ok_or : {A : Type 0} → Option A → Error → Result A
ok_or (some found) reason = ok found
ok_or none reason = err reason

-- `?` on a result, and on one whose value is not used.
infixl 5 ◌>>=◌ ◌>>◌
abbrev pub ◌>>=◌ : {A B : Type 0} → Result A → (A → Result B) → Result B
err reason >>= next = err reason
ok value >>= next = next value

abbrev pub ◌>>◌ : {B : Type 0} → Result (Unit {0}) → Result B → Result B
first >> rest = first >>= λ done. rest

-- A check that did not refuse found nothing bad.
pub refuse_if-eq-ok :
    (bad : Bool) (reason : Error) {u : Unit {0}} → refuse_if bad reason ≡ ok u → bad ≡ false
refuse_if-eq-ok false reason h = refl
refuse_if-eq-ok true reason h = cc

pub ok_or-eq-ok :
    {A : Type 0} (o : Option A) (reason : Error) {found : A}
    → ok_or o reason ≡ ok found
    → o ≡ some found
ok_or-eq-ok (some x) reason h = ground arith
ok_or-eq-ok none reason h = cc

module _ {A B : Type 0} (next : A → Result B) where
  -- A chain that succeeds has a first step that succeeds, and a rest that succeeds on its value.
  bind_parts :
      (first : Result A) {end : B}
      → (first >>= next) ≡ ok end
      → (value : A) × (first ≡ ok value) × (next value ≡ ok end)
  bind_parts (err reason) h = cc
  bind_parts (ok value) h = (value, refl, h)

-- As above with the first step first.
pub >>=-eq-ok :
    {A B : Type 0} (first : Result A) (next : A → Result B) {end : B}
    → (first >>= next) ≡ ok end
    → (value : A) × (first ≡ ok value) × (next value ≡ ok end)
>>=-eq-ok first next = bind_parts next first

pub ok-inj : {A : Type 0} {a b : A} → ok a ≡ ok b → a ≡ b
ok-inj {A} {a} e = ap (λ (m : Result A). elim m as (λ _. A) [ ok x ↦ x | err x ↦ a ]) e
