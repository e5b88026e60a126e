-- ===== src/HashMap/Probe.antt =====
-- `find_slot`: where a probe sequence ends.
use native.Mathlib.Nat.{mod-add-mod}
use cpp_lox.Prelude.{
  ℕ, zero, suc, ◌+◌, ◌%◌, ◌≤◌, ◌<◌, ◌≡◌, ◌≢◌, refl, sym, ◌⊎◌, inl, inr, true, false, Option, none,
  some, List, arith, ◌==◌, length, subst, ap, ==_iff, Bool-cases, Returns,
}
use cpp_lox.HashMap.Keys.{Key, Default}
use cpp_lox.HashMap.{State, filled, empty, tombstone, Slot, at, probe, find_slot, last_tombstone}

pub State-cases : (s : State) → (s ≡ filled) ⊎ ((s ≡ empty) ⊎ (s ≡ tombstone))
State-cases filled = inl refl
State-cases empty = inr (inl refl)
State-cases tombstone = inr (inr refl)

extend {κ} : (P : ℕ → Type κ) (d : ℕ) → ((e : ℕ) → e < d → P e) → P d → (e : ℕ) → e < suc d → P e
extend P d h p e lt = elim (Bool-cases (e == d)) [
  | inl q ↦ subst P (sym ((==_iff e d).0 q)) p
  | inr q ↦ h e (ground arith)
]

module _ {ℓ} {K V : Type ℓ} ⦃key : Key K⦄ ⦃value : Default V⦄ (slots : List (Slot K V))
    (k : K) where
  -- the slot that the probe sequence of `k` reaches in `d` steps
  abbrev pub cell : ℕ → ℕ
  cell d = (key.hash k + d) % length slots

  abbrev pub Occupied : ℕ → Type 0
  Occupied d = (e : ℕ) → e < d → (at slots (cell e)).state ≢ empty

  abbrev pub Unmatched : ℕ → Type 0
  Unmatched d = (e : ℕ) → e < d → key.equal (at slots (cell e)).key k ≡ false

  -- The sequence meets an empty slot before any slot that holds the key.
  pub record Absent : Type 0 where
    pub stop : ℕ
    pub stop_lt : stop < length slots
    pub stop_empty : (at slots (cell stop)).state ≡ empty
    pub unmatched : Unmatched (suc stop)

  -- What `find_slot` promises of the slot `i` that it returns.
  pub record Located (i : ℕ) : Type 0 where
    pub steps : ℕ
    pub steps_lt : steps < length slots
    pub place : i ≡ cell steps
    pub occupied : Occupied steps
    pub outcome : (key.equal (at slots i).key k ≡ true) ⊎ (((at slots i).state ≢ filled) × Absent)

  abbrev Noted : Option ℕ → ℕ → Type 0
  Noted none d = Unit
  Noted (some s) d = (e : ℕ) × (e < d) × (s ≡ cell e) × ((at slots s).state ≡ tombstone)

  cell-suc : (d : ℕ) → (cell d + 1) % length slots ≡ cell (suc d)
  cell-suc d = rw mod-add-mod (ground arith)

  Noted-suc : (t : Option ℕ) (d : ℕ) → Noted t d → Noted t (suc d)
  Noted-suc none d h = tt
  Noted-suc (some s) d h = (h.0, omega arith, h.2, h.3)

  beyond :
      (d d₀ : ℕ)
      → d ≤ d₀
      → (at slots (cell d₀)).state ≡ empty
      → (at slots (cell d)).state ≢ empty
      → suc d ≤ d₀
  beyond d d₀ le e ne = elim (Bool-cases (d == d₀)) [
    | inl q ↦ absurd (ne (rw ((==_iff d d₀).0 q) e))
    | inr q ↦ ground arith
  ]

  found_empty :
      (t : Option ℕ) (d : ℕ)
      → d < length slots
      → (at slots (cell d)).state ≡ empty
      → Occupied d
      → Unmatched (suc d)
      → Noted t d
      → Located (last_tombstone t (cell d))
  found_empty none d lt e occ un noted = record {
    steps = d;
    steps_lt = lt;
    place = refl;
    occupied = occ;
    outcome = inr (cc, record { stop = d; stop_lt = lt; stop_empty = e; unmatched = un });
  }
  found_empty (some s) d lt e occ un noted = record {
    steps = noted.0;
    steps_lt = omega arith;
    place = noted.2;
    occupied = λ e' h. occ e' (omega arith);
    outcome = inr (cc, record { stop = d; stop_lt = lt; stop_empty = e; unmatched = un });
  }

  probe-Located :
      (rounds d : ℕ) (t : Option ℕ) (d₀ : ℕ)
      → d + rounds ≡ length slots
      → d ≤ d₀
      → d₀ < length slots
      → (at slots (cell d₀)).state ≡ empty
      → Occupied d
      → Unmatched d
      → Noted t d
      → Returns (probe rounds slots k (cell d) t) Located
  unfolding probe
  probe-Located zero d t d₀ total le lt e occ un noted = absurd (omega arith)
  probe-Located (suc rounds) d t d₀ total le lt e occ un noted =
      elim (Bool-cases (key.equal (at slots (cell d)).key k)) [
        | inl hit ↦ (
          cell d,
          rw hit,
          record {
            steps = d;
            steps_lt = omega arith;
            place = refl;
            occupied = occ;
            outcome = inl hit;
          },
        )
        | inr miss ↦ elim (State-cases (at slots (cell d)).state) [
          | inl f ↦
              rw (miss, f, cell-suc d, f)
                (probe-Located rounds (suc d) t d₀ (omega arith) (beyond d d₀ le e (λ q. cc)) lt e
                  (extend _ d occ (λ q. cc)) (extend _ d un miss) (Noted-suc t d noted))
          | inr (inl z) ↦
              rw (miss, z)
                (
                  last_tombstone t (cell d),
                  refl,
                  found_empty t d (omega arith) z occ (extend _ d un miss) noted,
                )
          | inr (inr g) ↦
              rw (miss, g, cell-suc d, g)
                (probe-Located rounds (suc d) (some (cell d)) d₀ (omega arith)
                  (beyond d d₀ le e (λ q. cc)) lt e (extend _ d occ (λ q. cc)) (extend _ d un miss)
                  (d, omega arith, refl, g))
        ]
      ]

  -- With an empty slot left, `find_slot` ends.
  pub find_slot-Located :
      (d : ℕ)
      → d < length slots
      → (at slots (cell d)).state ≡ empty
      → Returns (find_slot slots k) Located
  unfolding find_slot
  find_slot-Located d lt e = rw start (
      probe-Located (length slots) 0 none d (omega arith) (omega arith) lt e
        (λ e' h. absurd (omega arith)) (λ e' h. absurd (omega arith)) tt)
    where
      start : key.hash k % length slots ≡ cell 0
      start = ap (λ n. n % length slots) (omega arith)
