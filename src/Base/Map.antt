-- ===== src/Base/Map.antt =====
-- `HashMap` and `HashSet` as lists of entries with distinct keys, in the order of first insertion.
-- Rust leaves the iteration order open; what depends on it is said where it is used.
use Prim.Native.Nat.{ℕ}
use mathlib.Core.Path.{◌≡◌, refl}
use mathlib.Core.Logic.{◌↔◌, inl, inr}
use mathlib.Core.Bool.{Bool, true, false, ◌&&◌, ◌||◌}
use mathlib.Core.Option.{Option, none, some}
use mathlib.Core.List.{List, [], ◌∷◌}
use native.Mathlib.Omega.{arith}
use klassenzeit.Base.Tests.{◌==◌, ==_iff, if◌then◌else◌, Bool-cases, Option-cases}
use klassenzeit.Base.Lists.{any, All}
use klassenzeit.Base.Membership.{IsNew, IsDistinct}

-- `Eq` of the source's key types.
pub record Eq {ℓ} (K : Type ℓ) : Type ℓ where
  pub beq : K → K → Bool
  pub beq_iff : (a b : K) → (beq a b ≡ true) ↔ (a ≡ b)

pub pair_beq_iff : (a b : ℕ × ℕ) → (((a.0 == b.0) && (a.1 == b.1)) ≡ true) ↔ (a ≡ b)
pair_beq_iff (a, a') (b, b') = ground arith

pub triple_beq_iff :
    (a b : ℕ × ℕ × ℕ) → (((a.0 == b.0) && ((a.1 == b.1) && (a.2 == b.2))) ≡ true) ↔ (a ≡ b)
triple_beq_iff (a, a', a'') (b, b', b'') = ground arith

instance abbrev pub nat_eq : Eq ℕ
nat_eq = record { beq = ◌==◌; beq_iff = ==_iff }

instance abbrev pub pair_eq : Eq (ℕ × ℕ)
pair_eq = record { beq = λ a b. (a.0 == b.0) && (a.1 == b.1); beq_iff = pair_beq_iff }

instance abbrev pub triple_eq : Eq (ℕ × ℕ × ℕ)
triple_eq = record {
  beq = λ a b. (a.0 == b.0) && ((a.1 == b.1) && (a.2 == b.2));
  beq_iff = triple_beq_iff;
}

abbrev pub HashSet {ℓ} : Type ℓ → Type ℓ
HashSet K = List K

abbrev pub HashMap {ℓ} : Type ℓ → Type ℓ → Type ℓ
HashMap K V = List (K × V)

module _ {ℓ} {K : Type ℓ} ⦃e : Eq K⦄ where
  unfoldable pub contains : HashSet K → K → Bool
  contains [] k = false
  contains (j ∷ s) k = e.beq j k || contains s k

  -- `HashSet::insert`; `Set.insert(k)` is true when `contains` was false.
  unfoldable pub add : K → HashSet K → HashSet K
  add k s = if contains s k then s else k ∷ s

  pub contains-add : (k j : K) (s : HashSet K) → contains (add k s) j ≡ (e.beq k j || contains s j)
  unfolding add contains
  contains-add k j s = elim (Bool-cases (contains s k)) [
    | inr new ↦ rw new refl
    | inl old ↦ elim (Bool-cases (e.beq k j)) [
      | inr ne ↦ rw (old, ne) refl
      | inl eq ↦ rw old (rw eq (rw (← (e.beq_iff k j).0 eq) old))
    ]
  ]

  -- `HashSet::remove`
  unfoldable pub discard : K → HashSet K → HashSet K
  discard k [] = []
  discard k (j ∷ s) = if e.beq k j then discard k s else j ∷ discard k s

  pub contains-discard :
      (k j : K) (s : HashSet K)
      → contains (discard k s) j ≡ (if e.beq k j then false else contains s j)
  unfolding contains discard
  contains-discard k j [] = ground arith
  contains-discard k j (i ∷ s) =
      ground (arith, e.beq_iff i k, e.beq_iff i j, e.beq_iff k j, contains-discard k j s)

-- What `modify_or_drop` does to the entry of its key.
abbrev pub drop_spent {ℓ} : {V : Type ℓ} → (V → V) → (V → Bool) → Option V → Option V
drop_spent f spent none = none
drop_spent f spent (some v) = if spent (f v) then none else some (f v)

module _ {ℓ} {K V : Type ℓ} ⦃e : Eq K⦄ where
  unfoldable pub get : HashMap K V → K → Option V
  get [] k = none
  get ((j, v) ∷ m) k = if e.beq j k then some v else get m k

  unfoldable pub insert : K → V → HashMap K V → HashMap K V
  insert k v [] = (k, v) ∷ []
  insert k v ((j, w) ∷ m) = if e.beq j k then (j, v) ∷ m else (j, w) ∷ insert k v m

  unfoldable pub remove : K → HashMap K V → HashMap K V
  remove k [] = []
  remove k ((j, w) ∷ m) = if e.beq j k then remove k m else (j, w) ∷ remove k m

  pub get-remove :
      (k j : K) (m : HashMap K V) → get (remove k m) j ≡ (if e.beq k j then none else get m j)
  unfolding get remove
  get-remove k j [] = ground arith
  get-remove k j ((i, w) ∷ m) =
      ground (arith, e.beq_iff i k, e.beq_iff i j, e.beq_iff k j, get-remove k j m)

  pub get-insert :
      (k j : K) (v : V) (m : HashMap K V)
      → get (insert k v m) j ≡ (if e.beq k j then some v else get m j)
  unfolding get insert
  get-insert k j v [] = refl
  get-insert k j v ((i, w) ∷ m) =
      ground (arith, e.beq_iff i k, e.beq_iff i j, e.beq_iff k j, get-insert k j v m)

  -- `iter().map(..).collect()`: a later entry replaces an earlier one of its key.
  unfoldable pub collect : {A : Type ℓ} → (A → K) → (A → V) → List A → HashMap K V → HashMap K V
  collect key value [] m = m
  collect key value (a ∷ as') m = collect key value as' (insert (key a) (value a) m)

  -- `*map.entry(k).or_insert(d)` set to `f` of it.
  unfoldable pub update : K → V → (V → V) → HashMap K V → HashMap K V
  unfolding get insert
  update k d f m = insert k (f (elim (get m k) [ none ↦ d | some v ↦ v ])) m

  -- `map.get(k).copied().unwrap_or(d)`
  unfoldable pub get_or_default : V → HashMap K V → K → V
  unfolding get
  get_or_default d m k = elim (get m k) [ none ↦ d | some v ↦ v ]

  pub get-update :
      (k j : K) (d : V) (f : V → V) (m : HashMap K V)
      → get (update k d f m) j ≡ (if e.beq k j then some (f (get_or_default d m k)) else get m j)
  unfolding get_or_default update
  get-update k j d f m = get-insert k j (f (get_or_default d m k)) m

  pub get_or_default-update :
      (k j : K) (d : V) (f : V → V) (m : HashMap K V)
      → get_or_default d (update k d f m) j
        ≡ (if e.beq k j then f (get_or_default d m k) else get_or_default d m j)
  unfolding get_or_default update
  get_or_default-update k j d f m = ground (arith, get-insert k j (f (get_or_default d m k)) m)

  -- `if let Some(v) = map.get_mut(k) { *v = f(*v); if spent(*v) { map.remove(k) } }`
  unfoldable pub modify_or_drop : K → (V → V) → (V → Bool) → HashMap K V → HashMap K V
  unfolding get insert remove
  modify_or_drop k f spent m = elim (get m k) [
    | none ↦ m
    | some v ↦ if spent (f v) then remove k m else insert k (f v) m
  ]

  pub get-modify_or_drop :
      (k j : K) (f : V → V) (spent : V → Bool) (m : HashMap K V)
      → get (modify_or_drop k f spent m) j
        ≡ (if e.beq k j then drop_spent f spent (get m j) else get m j)
  unfolding modify_or_drop
  get-modify_or_drop k j f spent m = elim (Option-cases (get m k)) [
    | inl new ↦ ground (arith, e.beq_iff k j, new)
    | inr (v, held) ↦ ground (arith, e.beq_iff k j, held, get-remove k j m, get-insert k j (f v) m)
  ]

-- What `update` does to the entry of its key.
abbrev pub refreshed {ℓ} : {V : Type ℓ} → V → (V → V) → Option V → Option V
refreshed d f none = some (f d)
refreshed d f (some v) = some (f v)

pub get-update_at {ℓ} :
    {K V : Type ℓ} ⦃e : Eq K⦄ (k j : K) (d : V) (f : V → V) (m : HashMap K V)
    → get (update k d f m) j ≡ (if e.beq k j then refreshed d f (get m j) else get m j)
unfolding get_or_default
get-update_at ⦃e⦄ k j d f m = rw (get-update k j d f m) (elim (Bool-cases (e.beq k j)) [
  | inr ne ↦ rw ne refl
  | inl eq ↦ rw eq (
      rw (← (e.beq_iff k j).0 eq) (elim (Option-cases (get m k)) [
        | inl new ↦ rw (new, get_or_default) refl
        | inr (v, held) ↦ rw (held, get_or_default) refl
      ]))
])

pub get_or_default-update_at {ℓ} :
    {K V : Type ℓ} ⦃e : Eq K⦄ (k j : K) (d : V) (f : V → V) (m : HashMap K V)
    → get_or_default d (update k d f m) j
      ≡ (if e.beq k j then f (get_or_default d m j) else get_or_default d m j)
get_or_default-update_at ⦃e⦄ k j d f m =
    rw (get_or_default-update k j d f m) (elim (Bool-cases (e.beq k j)) [
      | inr ne ↦ rw ne refl
      | inl eq ↦ rw eq (rw (← (e.beq_iff k j).0 eq) refl)
    ])

-- What holds of every element and its key holds of every entry of the map collected from them.
pub collect_All {ℓ κ} :
    {K A : Type ℓ} ⦃e : Eq K⦄ (P : K → A → Type κ) (key : A → K) (as' : List A) (m : HashMap K A)
    → All (λ a. P (key a) a) as'
    → ((k : K) (a : A) → get m k ≡ some a → P k a)
    → (k : K) (a : A) → get (collect key (λ a. a) as' m) k ≡ some a
    → P k a
unfolding collect
collect_All ⦃e⦄ P key [] m all old k a found = old k a found
collect_All ⦃e⦄ P key (b ∷ bs) m all old k a found =
    collect_All P key bs (insert (key b) b m) all.1
      (λ k a h. elim (Bool-cases (e.beq (key b) k)) [
        | inl eq ↦
            let same : b ≡ a = ground (arith, get-insert (key b) k b m, eq, h) in
            rw (← same) (rw (← (e.beq_iff (key b) k).0 eq) all.0)
        | inr ne ↦ old k a (ground (arith, get-insert (key b) k b m, ne, h))
      ])
      k a found

none_named :
    (names : ℕ → Bool) (c : ℕ)
    → ((d : ℕ) → names d ≡ true → (d == c) ≡ true)
    → (cs : List ℕ) → IsNew c cs
    → any names cs ≡ false
none_named names c apart [] new = refl
none_named names c apart (d ∷ ds) new = elim (Bool-cases (names d)) [
  | inl e ↦ absurd (cc (apart d e, new.0))
  | inr e ↦ rw e (none_named names c apart ds new.1)
]

-- A loop over the classes of a lesson that works on the entry of each class.
module _ {ℓ} {S : Type ℓ} where
  unfoldable pub each_class : (ℕ → S → S) → List ℕ → S → S
  each_class act [] s = s
  each_class act (c ∷ cs) s = each_class act cs (act c s)

  -- When `act` does `f` to the one entry that `key c` names and the classes are distinct, the loop does
  -- `f` once to the entries that the classes name.
  pub look-each_class {κ λ'} :
      {K : Type κ} {R : Type λ'} (look : S → K → R) (names : ℕ → K → Bool) (act : ℕ → S → S)
      (f : R → R)
      → ((c : ℕ) (j : K) (s : S)
          → look (act c s) j ≡ (if names c j then f (look s j) else look s j))
      → ((c d : ℕ) (j : K) → names c j ≡ true → names d j ≡ true → (d == c) ≡ true)
      → (cs : List ℕ) → IsDistinct cs
      → (j : K) (s : S)
      → look (each_class act cs s) j ≡ (if any (λ c. names c j) cs then f (look s j) else look s j)
  unfolding each_class
  look-each_class look names act f acts apart [] d j s = refl
  look-each_class look names act f acts apart (c ∷ cs) d j s =
      rw (look-each_class look names act f acts apart cs d.1 j (act c s), acts c j s)
        (elim (Bool-cases (names c j)) [
          | inr e ↦ rw e refl
          | inl e ↦ rw (e, none_named (λ x. names x j) c (λ x. apart c x j e) cs d.0) refl
        ])

-- `map.values()`
unfoldable pub values {ℓ} : {K V : Type ℓ} → HashMap K V → List V
values [] = []
values ((k, v) ∷ m) = v ∷ values m
