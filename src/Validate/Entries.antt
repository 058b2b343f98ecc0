-- ===== src/Validate/Entries.antt =====
-- The loop that two validators share: each class of a placement enters its key into a map with the
-- placement's value (a room or a teacher), and a key that is there with another value is an error.
use klassenzeit.Base.{
  ℕ, ◌≡◌, ◌↔◌, refl, none, some, List, [], ◌∷◌, arith, ◌==◌, if◌then◌else◌, Eq, HashMap, get,
  get_or_default, insert, get-insert, Option-cases, inl, inr, All, All-map,
}
use klassenzeit.Types.{Placement}
use klassenzeit.Validate.Outcome.{Error, Result, ok, err, ◌>>=◌, >>=-eq-ok}

module _ {K : Type 0} ⦃e : Eq K⦄ (conflict : K → ℕ → ℕ → Error) where
  -- `match groups.entry(key) { Vacant(v) => insert, Occupied(o) => compare }`
  unfoldable pub enter : K → ℕ → HashMap K ℕ → Result (HashMap K ℕ)
  unfolding get insert
  enter key value groups = elim (get groups key) [
    | none ↦ ok (insert key value groups)
    | some old ↦ if old == value then ok groups else err (conflict key old value)
  ]

  unfoldable pub enter_all : List K → ℕ → HashMap K ℕ → Result (HashMap K ℕ)
  unfolding enter
  enter_all [] value groups = ok groups
  enter_all (key ∷ keys) value groups =
      enter key value groups >>= λ groups'. enter_all keys value groups'

  -- Every entry of `g` is in `h`.
  abbrev pub Extends : HashMap K ℕ → HashMap K ℕ → Type 0
  Extends g h = (k : K) (v : ℕ) → get g k ≡ some v → get h k ≡ some v

  -- Every entry of `g` has the value that `f` gives its key.
  abbrev pub Follows : (K → ℕ) → HashMap K ℕ → Type 0
  Follows f g = (k : K) (v : ℕ) → get g k ≡ some v → v ≡ f k

  pub enter-Extends :
      (key : K) (value : ℕ) (g h : HashMap K ℕ) → enter key value g ≡ ok h → Extends g h
  unfolding enter
  enter-Extends key value g h q k v p = ground (arith, get-insert key k value g, e.beq_iff key k)

  pub enter-get :
      (key : K) (value : ℕ) (g h : HashMap K ℕ) → enter key value g ≡ ok h → get h key ≡ some value
  unfolding enter
  enter-get key value g h q = ground (arith, get-insert key key value g, e.beq_iff key key)

  enter-Follows :
      (f : K → ℕ) (key : K) (value : ℕ) (g : HashMap K ℕ)
      → f key ≡ value
      → Follows f g
      → (h : HashMap K ℕ) × (enter key value g ≡ ok h) × Follows f h
  unfolding enter
  enter-Follows f key value g same follows = elim (Option-cases (get g key)) [
    | inl new ↦ (
      insert key value g,
      rw (new, enter),
      λ k v p. ground (arith, get-insert key k value g, e.beq_iff key k, follows k v),
    )
    | inr (old, held) ↦ (g, ground (arith, follows key old), follows)
  ]

  pub enter_all-Extends :
      (keys : List K) (value : ℕ) (g h : HashMap K ℕ)
      → enter_all keys value g ≡ ok h
      → Extends g h × All (λ key. get h key ≡ some value) keys
  unfolding enter_all
  enter_all-Extends [] value g h q = let e' : g ≡ h = ground arith in ((λ k v p. rw (← e') p), tt)
  enter_all-Extends (key ∷ keys) value g h q =
      let (g', first, rest) = >>=-eq-ok (enter key value g) (enter_all keys value) q in
      let (ext, all_keys) = enter_all-Extends keys value g' h rest in
      (
        (λ k v p. ext k v (enter-Extends key value g g' first k v p)),
        (ext key value (enter-get key value g g' first), all_keys),
      )

  pub enter_all-Follows :
      (f : K → ℕ) (keys : List K) (value : ℕ) (g : HashMap K ℕ)
      → All (λ key. f key ≡ value) keys
      → Follows f g
      → (h : HashMap K ℕ) × (enter_all keys value g ≡ ok h) × Follows f h
  unfolding enter_all
  enter_all-Follows f [] value g same follows = (g, refl, follows)
  enter_all-Follows f (key ∷ keys) value g same follows =
      let (g', first, follows') = enter-Follows f key value g same.0 follows in
      let (h, rest, follows'') = enter_all-Follows f keys value g' same.1 follows' in
      (h, rw first rest, follows'')

module _ {K : Type 0} ⦃e : Eq K⦄ (conflict : K → ℕ → ℕ → Error)
    (keys_of : Placement → Result (List K)) (value_of : Placement → ℕ) where
  -- The loop over the placements: find what the placement refers to, and enter its keys.
  unfoldable pub enter_each : List Placement → HashMap K ℕ → Result (HashMap K ℕ)
  unfolding enter_all
  enter_each [] groups = ok groups
  enter_each (p ∷ ps) groups = do
    keys ← keys_of p
    groups' ← enter_all conflict keys (value_of p) groups
    enter_each ps groups'

  -- The placement's references resolve, and each of its keys has the placement's value.
  abbrev pub Agrees : (K → ℕ) → Placement → Type 0
  Agrees f p = (keys : List K) × (keys_of p ≡ ok keys) × All (λ key. f key ≡ value_of p) keys

  abbrev Held : HashMap K ℕ → Placement → Type 0
  Held h p =
      (keys : List K) × (keys_of p ≡ ok keys) × All (λ key. get h key ≡ some (value_of p)) keys

  enter_each-Held :
      (ps : List Placement) (g h : HashMap K ℕ)
      → enter_each ps g ≡ ok h
      → Extends conflict g h × All (Held h) ps
  unfolding enter_each
  enter_each-Held [] g h q = let e' : g ≡ h = ground arith in ((λ k v p. rw (← e') p), tt)
  enter_each-Held (p ∷ ps) g h q =
      let (keys, found, q') =
        >>=-eq-ok (keys_of p) (λ keys. enter_all conflict keys (value_of p) g >>= enter_each ps)
          q in
      let (g', entered, q'') =
        >>=-eq-ok (enter_all conflict keys (value_of p) g) (enter_each ps) q' in
      let (ext, held) = enter_all-Extends conflict keys (value_of p) g g' entered in
      let (ext', later) = enter_each-Held ps g' h q'' in
      (
        (λ k v i. ext' k v (ext k v i)),
        ((keys, found, All-map (λ key. ext' key (value_of p)) keys held), later),
      )

  enter_each-Follows :
      (f : K → ℕ) (ps : List Placement) (g : HashMap K ℕ)
      → All (Agrees f) ps
      → Follows conflict f g
      → (h : HashMap K ℕ) × (enter_each ps g ≡ ok h)
  unfolding enter_each
  enter_each-Follows f [] g agree follows = (g, refl)
  enter_each-Follows f (p ∷ ps) g agree follows =
      let (keys, found, same) = agree.0 in
      let (g', entered, follows') = enter_all-Follows conflict f keys (value_of p) g same follows in
      let (h, rest) = enter_each-Follows f ps g' agree.1 follows' in
      (h, rw (found, enter_each) (rw (entered) rest))

  Held-Agrees : (h : HashMap K ℕ) (p : Placement) → Held h p → Agrees (get_or_default 0 h) p
  unfolding get_or_default
  Held-Agrees h p (keys, found, held) =
      let default : (key : K)
          → get h key ≡ some (value_of p)
          → get_or_default 0 h key ≡ value_of p =
        λ key i. ground (arith, i) in
      (keys, found, All-map default keys held)

  nothing_held : (f : K → ℕ) → Follows conflict f []
  nothing_held f k v p = unfold get in cc

  -- The loop succeeds exactly when one value for each key serves every placement.
  pub enter_each_iff :
      (ps : List Placement)
      → ((h : HashMap K ℕ) × (enter_each ps [] ≡ ok h)) ↔ ((f : K → ℕ) × All (Agrees f) ps)
  enter_each_iff ps = (
    (λ s. (get_or_default 0 s.0, All-map (Held-Agrees s.0) ps (enter_each-Held ps [] s.0 s.1).1)),
    (λ s. enter_each-Follows s.0 ps [] s.1 (nothing_held s.0)),
  )
