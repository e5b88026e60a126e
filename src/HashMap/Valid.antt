-- ===== src/HashMap/Valid.antt =====
-- The invariant of a table, and `grow`.
use native.Mathlib.Nat.{eq-zero-or-pos, mul-le-mul_left, mul-le-mul_right}
use cpp_lox.Prelude.{
  ℕ, zero, suc, ◌+◌, ◌*◌, ◌/◌, max, ◌≤◌, ◌<◌, ◌≡◌, ◌≢◌, refl, ap, ◌∙◌, inl, inr, none, [], arith,
  length, Bool-cases, Returns, ltb, replicate, get_or-replicate, length-replicate,
}
use cpp_lox.HashMap.Keys.{Key, Default}
use cpp_lox.HashMap.{
  HashMap, State, filled, empty, tombstone, Slot, is_filled, at, new_slot, unit, Factor, units,
  below_zero, not_a_number, to_size, min_table_size, load_limit, new_capacity, grow,
}
use cpp_lox.HashMap.View.{count_state, to_nat, is_state, count_state-le-length, view, view-none}
use cpp_lox.HashMap.Placed.{IsPlaced}
use cpp_lox.HashMap.Rehash.{first, CanMove, Holds, rehash-Holds}

count-blank {ℓ} :
    {K V : Type ℓ} (st : State) (s : Slot K V) (n : ℕ)
    → s.state ≡ empty
    → st ≢ empty
    → count_state st (replicate n s) ≡ 0
unfolding count_state replicate
count-blank st s zero e ne = refl
count-blank filled s (suc n) e ne =
    omega (arith, count-blank filled s n e ne, ap (λ x. to_nat (is_state filled x)) e)
count-blank tombstone s (suc n) e ne =
    omega (arith, count-blank tombstone s n e ne, ap (λ x. to_nat (is_state tombstone x)) e)
count-blank empty s (suc n) e ne = absurd (ne refl)

-- a factor of 2.0 or more
abbrev pub Doubles : Factor → Type 0
Doubles (units f) = 2 * unit ≤ f
Doubles (below_zero f) = ⊥
Doubles not_a_number = ⊥

to_size-Doubles : (f : Factor) (n : ℕ) → Doubles f → Returns (to_size f n) (λ size. 2 * n ≤ size)
unfolding to_size
to_size-Doubles (units f) n h =
    let grown = mul-le-mul_right n h in (f * n / unit, refl, omega (arith, grown))
to_size-Doubles (below_zero f) n h = absurd h
to_size-Doubles not_a_number n h = absurd h

module _ {ℓ} {K V : Type ℓ} ⦃key : Key K⦄ ⦃value : Default V⦄ where
  pub record IsValid (m : HashMap K V) : Type ℓ where
    pub load : m.max_load_factor < unit
    pub growth : Doubles m.growth_factor
    pub sized : count_state filled m.slots ≡ m.size
    pub marked : count_state tombstone m.slots ≡ m.tombstones
    pub roomy : 0 < length m.slots → m.size + m.tombstones < length m.slots
    pub placed : IsPlaced m.slots

  at-replicate : (n i : ℕ) → at (replicate {A = Slot K V} n new_slot) i ≡ new_slot
  at-replicate n i = get_or-replicate n i new_slot

  replicate-IsPlaced : (n : ℕ) → IsPlaced (replicate {A = Slot K V} n new_slot)
  replicate-IsPlaced n = record {
    blank = λ i. rw (at-replicate n i) (λ _. refl);
    keyed = λ i. rw (at-replicate n i) (λ e. cc);
    reached = λ i l f. cc (rw (at-replicate n i) at f);
    unique = λ i j. rw (at-replicate n i) (λ e. cc);
  }

  view-replicate :
      (n : ℕ) (q : K) → view {K = K} {V = V} (replicate {A = Slot K V} n new_slot) q ≡ none
  unfolding is_filled
  view-replicate n q =
      view-none (replicate {A = Slot K V} n new_slot) q (λ i _. rw (at-replicate n i))

  -- the new array starts empty
  empty-Holds : (n : ℕ) → Holds n 0 (λ _. none) (replicate {A = Slot K V} n new_slot)
  empty-Holds n = record {
    width = length-replicate {A = Slot K V} n new_slot;
    placed = replicate-IsPlaced n;
    full = count-blank filled new_slot n refl (λ e. cc);
    clean = count-blank tombstone new_slot n refl (λ e. cc);
    reads = view-replicate n;
  }

  -- Constructed and cleared tables are valid and empty.
  pub no_slots-IsValid :
      (m : HashMap K V)
      → m.max_load_factor < unit
      → Doubles m.growth_factor
      → m.slots ≡ []
      → m.size ≡ 0
      → m.tombstones ≡ 0
      → IsValid m
  unfolding count_state replicate
  no_slots-IsValid m l g s z t = record {
    load = l;
    growth = g;
    sized = rw (s, z);
    marked = rw (s, t);
    roomy = rw s (λ h. absurd (omega arith));
    placed = rw s (replicate-IsPlaced 0);
  }

  module _ (m : HashMap K V) (valid : IsValid m) where
    -- a size for a new array of slots
    abbrev IsLarge : ℕ → Type 0
    IsLarge n = (2 * length m.slots ≤ n) × (128 ≤ n)

    capacity-IsLarge : Returns (new_capacity m) IsLarge
    unfolding new_capacity
    capacity-IsLarge =
        let (n, e, grown) = to_size-Doubles m.growth_factor (length m.slots) valid.growth in
        (max n min_table_size, rw e refl, (omega (arith, grown), omega arith))

    size_small : (n : ℕ) → IsLarge n → m.size + 1 < n
    size_small n large = elim (eq-zero-or-pos (length m.slots)) [
      | inl z ↦ omega (arith, large.1, count_state-le-length filled m.slots, valid.sized)
      | inr p ↦ omega (arith, large.0, valid.roomy p)
    ]

    can_move : (n : ℕ) → CanMove m.slots (replicate {A = Slot K V} n new_slot)
    unfolding is_filled
    can_move n = record {
      keyed = valid.placed.keyed;
      distinct = valid.placed.unique;
      apart = λ i f j. rw (at-replicate n j);
    }

    -- What `grow` promises: room for one more slot, and the same contents.
    pub record Grown (g : HashMap K V) : Type ℓ where
      pub valid' : IsValid g
      pub spare : g.size + g.tombstones + 1 < length g.slots
      pub size : g.size ≡ m.size
      pub reads : (q : K) → view g.slots q ≡ view m.slots q

    limit_small : 0 < length m.slots → load_limit m < length m.slots
    unfolding load_limit
    limit_small h = let below = mul-le-mul_left (length m.slots) valid.load in omega (arith, below)

    limit_none : length m.slots ≡ 0 → load_limit m ≡ 0
    unfolding load_limit
    limit_none e = rw e (omega arith)

    -- below the limit a slot is left
    spare_under :
        m.size + 1 + m.tombstones ≤ load_limit m → m.size + m.tombstones + 1 < length m.slots
    spare_under h = elim (eq-zero-or-pos (length m.slots)) [
      | inl z ↦ absurd (omega (arith, limit_none z))
      | inr p ↦ omega (arith, limit_small p)
    ]

    pub grow-Grown : Returns (grow m) Grown
    unfolding grow
    grow-Grown = elim (Bool-cases (ltb (load_limit m) (m.size + 1 + m.tombstones))) [
      | inl over ↦
          let (capacity, found, large) = capacity-IsLarge in
          let start = empty-Holds capacity in
          let (r, run, t) =
            rehash-Holds m.slots (replicate {A = Slot K V} capacity new_slot) start.placed
              start.clean
              (omega (arith, start.full, start.width, valid.sized, size_small capacity large))
              (can_move capacity) in
          (
            record m { slots = r; tombstones = 0 },
            rw (over, found, run),
            record {
              valid' = record {
                load = valid.load;
                growth = valid.growth;
                sized = t.full ∙ omega (arith, start.full, valid.sized);
                marked = t.clean;
                roomy = λ h. omega (arith, t.width, start.width, size_small capacity large);
                placed = t.placed;
              };
              spare = omega (arith, t.width, start.width, size_small capacity large);
              size = refl;
              reads = λ q. t.reads q ∙ ap (λ o. first o (view m.slots q)) (start.reads q);
            },
          )
      | inr under ↦ (
        m,
        rw under,
        record {
          valid' = valid;
          spare = spare_under (ground arith);
          size = refl;
          reads = λ q. refl;
        },
      )
    ]
