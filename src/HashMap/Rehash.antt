-- ===== src/HashMap/Rehash.antt =====
-- `grow`: the loop that moves the filled slots into a larger array.
use cpp_lox.Prelude.{
  ℕ, suc, ◌+◌, ◌<◌, ◌≡◌, ◌≢◌, refl, ap, ◌∙◌, inl, inr, true, false, Option, none, some, List, [],
  ◌∷◌, arith, if◌then◌else◌, length, set, length-set, Bool-cases, Returns, fun_ext,
}
use cpp_lox.HashMap.Keys.{Key, Default}
use cpp_lox.HashMap.{
  State, filled, empty, tombstone, Slot, is_filled, at, find_slot, rehash_slot, rehash,
}
use cpp_lox.HashMap.Probe.{State-cases, Absent, Located}
use cpp_lox.HashMap.View.{count_state, count-set_of, is_state, holds, view, view-none, view_congr}
use cpp_lox.HashMap.Placed.{IsKey, IsPlaced, filled_of_match, find_slot_ends}
use cpp_lox.HashMap.Write.{fill-IsPlaced, fill-view, at-set_cases, Located-lt}

abbrev pub first {ℓ} : {V : Type ℓ} → Option V → Option V → Option V
first none o = o
first (some v) o = some v

first-none {ℓ} : {V : Type ℓ} (o : Option V) → o ≡ first o none
first-none none = refl
first-none (some v) = refl

pub is_state-filled : (s : State) → s ≢ filled → is_state filled s ≡ false
is_state-filled filled h = absurd (h refl)
is_state-filled empty h = refl
is_state-filled tombstone h = refl

module _ {ℓ} {K V : Type ℓ} ⦃key : Key K⦄ ⦃value : Default V⦄ where
  -- The filled slots of `rest` can be put into `new`.
  pub record CanMove (rest new : List (Slot K V)) : Type ℓ where
    pub keyed : (i : ℕ) → (at rest i).state ≡ filled → IsKey (at rest i).key
    pub distinct :
        (i j : ℕ)
        → (at rest i).state ≡ filled
        → (at rest j).state ≡ filled
        → key.equal (at rest i).key (at rest j).key ≡ true
        → i ≡ j
    pub apart :
        (i : ℕ) → (at rest i).state ≡ filled → (j : ℕ) → holds (at new j) (at rest i).key ≡ false

  -- `total` filled slots and no tombstone, which read as `f`
  pub record Holds (n total : ℕ) (f : K → Option V) (r : List (Slot K V)) : Type ℓ where
    pub width : length r ≡ n
    pub placed : IsPlaced r
    pub full : count_state filled r ≡ total
    pub clean : count_state tombstone r ≡ 0
    pub reads : (q : K) → view r q ≡ f q

  CanMove-skip :
      (s : Slot K V) (rest new : List (Slot K V)) → CanMove (s ∷ rest) new → CanMove rest new
  CanMove-skip s rest new c = record {
    keyed = λ i. c.keyed (suc i);
    distinct = λ i j f g e. omega (arith, c.distinct (suc i) (suc j) f g e);
    apart = λ i. c.apart (suc i);
  }

  module _ (s : Slot K V) (rest new : List (Slot K V)) (placed : IsPlaced new)
      (clean : count_state tombstone new ≡ 0) (f : s.state ≡ filled) (c : CanMove (s ∷ rest) new)
      (i : ℕ) (w : Located new s.key i) where
    lt : i < length new
    lt = Located-lt new s.key i w

    absent : ((at new i).state ≢ filled) × Absent new s.key
    unfolding is_filled
    absent = elim w.outcome [
      | inl e ↦ cc (c.apart 0 f i, filled_of_match new placed s.key i (c.keyed 0 f) e, e)
      | inr a ↦ a
    ]

    whole : s ≡ record { key = s.key; value = s.value; state = filled }
    whole = λ j. record { key = s.key; value = s.value; state = f j }

    moved_Holds :
        Holds
          (length new)
          (count_state filled new + 1)
          (λ q. if key.equal s.key q then some s.value else view new q)
          (set new i s)
    moved_Holds = record {
      width = length-set new i s;
      placed =
          rw whole (fill-IsPlaced new placed s.key s.value (c.keyed 0 f) i w absent.0 absent.1);
      full = omega (
        arith,
        count-set_of filled new i s lt (is_state-filled _ absent.0) (ap (is_state filled) f),
      );
      clean = omega (arith, count-set_of tombstone new i s lt refl (ap (is_state tombstone) f));
      reads =
          λ q. rw whole (fill-view new placed s.key s.value (c.keyed 0 f) i w absent.0 absent.1 q);
    }

    other : (j : ℕ) → (at rest j).state ≡ filled → key.equal s.key (at rest j).key ≡ false
    other j g = elim (Bool-cases (key.equal s.key (at rest j).key)) [
      | inl e ↦ absurd (omega (arith, c.distinct 0 (suc j) f g e))
      | inr e ↦ e
    ]

    moved_CanMove : CanMove rest (set new i s)
    unfolding is_filled
    moved_CanMove = record {
      keyed = λ j. c.keyed (suc j);
      distinct = λ j j' g h e. omega (arith, c.distinct (suc j) (suc j') g h e);
      apart = λ j g.
          at-set_cases new i lt s (λ _ x. holds x (at rest j).key ≡ false) (rw f (other j g))
            (λ j' _. c.apart (suc j) g j');
    }

  first_moved :
      (s : Slot K V) (rest new : List (Slot K V)) (q : K)
      → CanMove (s ∷ rest) new
      → s.state ≡ filled
      → first (if key.equal s.key q then some s.value else view new q) (view rest q)
        ≡ first (view new q) (view (s ∷ rest) q)
  unfolding view is_filled
  first_moved s rest new q c f = elim (Bool-cases (key.equal s.key q)) [
    | inl e ↦ rw (f, e, ← view_congr new s.key q e, view-none new s.key (λ j _. c.apart 0 f j))
    | inr e ↦ rw (f, e)
  ]

  rehash_cons :
      (s : Slot K V) (rest new : List (Slot K V)) (i : ℕ)
      → s.state ≡ filled
      → find_slot new s.key ≡ some i
      → rehash (s ∷ rest) new ≡ rehash rest (set new i s)
  unfolding rehash rehash_slot is_filled
  rehash_cons s rest new i f e = rw (ap is_filled f, e)

  count_cons :
      (s : Slot K V) (rest : List (Slot K V))
      → s.state ≡ filled
      → count_state filled (s ∷ rest) ≡ count_state filled rest + 1
  unfolding count_state
  count_cons s rest f = rw f (omega arith)

  rehash_skip :
      (s : Slot K V) (rest new : List (Slot K V))
      → s.state ≢ filled
      → (rehash (s ∷ rest) new ≡ rehash rest new)
        × (count_state filled (s ∷ rest) ≡ count_state filled rest)
        × (view (s ∷ rest) ≡ view rest)
  unfolding rehash rehash_slot is_filled count_state view
  rehash_skip s rest new ne = elim (State-cases s.state) [
    | inl f ↦ absurd (ne f)
    | inr (inl e) ↦ (rw (ap is_filled e), rw e (omega arith), fun_ext (λ q. rw e))
    | inr (inr e) ↦ (rw (ap is_filled e), rw e (omega arith), fun_ext (λ q. rw e))
  ]

  rehash_nil-Holds :
      (new : List (Slot K V))
      → IsPlaced new
      → count_state tombstone new ≡ 0
      → Returns (rehash [] new) (
          Holds
            (length new)
            (count_state filled new + count_state {K = K} {V = V} filled [])
            (λ q. first (view new q) (view {K = K} {V = V} [] q)))
  unfolding rehash count_state view
  rehash_nil-Holds new placed clean = (
    new,
    refl,
    record {
      width = refl;
      placed = placed;
      full = omega arith;
      clean = clean;
      reads = λ q. first-none (view new q);
    },
  )

  pub rehash-Holds :
      (rest new : List (Slot K V))
      → IsPlaced new
      → count_state tombstone new ≡ 0
      → count_state filled new + count_state filled rest < length new
      → CanMove rest new
      → Returns (rehash rest new) (
          Holds
            (length new)
            (count_state filled new + count_state filled rest)
            (λ q. first (view new q) (view rest q)))
  rehash-Holds [] new placed clean room c = rehash_nil-Holds new placed clean
  rehash-Holds (s ∷ rest) new placed clean room c = elim (State-cases s.state) [
    | inl f ↦
        let (i, run, w) = find_slot_ends new s.key (omega (arith, clean, count_cons s rest f)) in
        let moved = moved_Holds s rest new placed clean f c i w in
        let (r, run', t) =
          rehash-Holds rest (set new i s) moved.placed moved.clean
            (omega (arith, moved.width, moved.full, count_cons s rest f))
            (moved_CanMove s rest new placed clean f c i w) in
        (
          r,
          rehash_cons s rest new i f run ∙ run',
          record {
            width = t.width ∙ moved.width;
            placed = t.placed;
            full = omega (arith, t.full, moved.full, count_cons s rest f);
            clean = t.clean;
            reads = λ q.
                t.reads q
                ∙ ap (λ o. first o (view rest q)) (moved.reads q)
                ∙ first_moved s rest new q c f;
          },
        )
    | inr (inl e) ↦
        let (run, counted, read) = rehash_skip s rest new (λ f. cc) in
        rw (run, counted, read)
          (rehash-Holds rest new placed clean (rw counted at room) (CanMove-skip s rest new c))
    | inr (inr t) ↦
        let (run, counted, read) = rehash_skip s rest new (λ f. cc) in
        rw (run, counted, read)
          (rehash-Holds rest new placed clean (rw counted at room) (CanMove-skip s rest new c))
  ]
