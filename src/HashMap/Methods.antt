-- ===== src/HashMap/Methods.antt =====
-- The public methods against a map from keys to values: each ends, keeps the invariant, and reads
-- or changes the map at its key alone. The keys are those other than `Key{}`.
use cpp_lox.Prelude.{
  ℕ, ◌+◌, ◌-◌, ◌<◌, ◌≡◌, refl, ap, inl, inr, Bool, true, false, not, Option, none, some, arith,
  ◌==◌, length, set, length-set, Bool-cases, Returns,
}
use cpp_lox.HashMap.Keys.{Key, Default}
use cpp_lox.HashMap.{
  HashMap, filled, tombstone, Slot, is_filled, at, new_slot, fill, find_slot, insert, insert_slot,
  get_ref, assign, erase,
}
use cpp_lox.HashMap.Probe.{Located}
use cpp_lox.HashMap.View.{view-some, is_state, count-set_of, view, view_congr}
use cpp_lox.HashMap.Placed.{IsKey}
use cpp_lox.HashMap.Write.{filled-lt, Located-lt}
use cpp_lox.HashMap.Replace.{alone, erase-IsPlaced, erase-view}
use cpp_lox.HashMap.Valid.{IsValid, Grown, grow-Grown}
use cpp_lox.HashMap.Found.{is_some, Found, here, nowhere, find_slot-Found, filled_room, view_nil}
use cpp_lox.HashMap.Fill.{Wrote, Filled, fill-Filled, Wrote_twice, overwrite}

module _ {ℓ} {K V : Type ℓ} ⦃key : Key K⦄ ⦃value : Default V⦄ where
  module _ (m : HashMap K V) (valid : IsValid m) (k : K) (hk : IsKey k) where
    unchanged : view m.slots k ≡ none → Wrote m k none m
    unchanged h = record {
      valid = valid;
      size = rw h;
      reads = λ q. elim (Bool-cases (key.equal k q)) [
        | inl e ↦ rw (e, ← view_congr m.slots k q e) h
        | inr e ↦ rw e
      ];
    }

    -- the table with a tombstone in slot `i`
    abbrev tomb : ℕ → HashMap K V
    tomb i = record m {
      slots = set m.slots i (record (new_slot) { state = tombstone });
      tombstones = m.tombstones + 1;
      size = m.size - 1;
    }

    tomb-Wrote :
        (i : ℕ)
        → i < length m.slots
        → (at m.slots i).state ≡ filled
        → key.equal (at m.slots i).key k ≡ true
        → view m.slots k ≡ some (at m.slots i).value
        → Wrote m k none (tomb i)
    tomb-Wrote i lt f e seen =
        let new : Slot K V = record (new_slot) { state = tombstone } in
        let less = count-set_of filled m.slots i new lt (ap (is_state filled) f) refl in
        let more = count-set_of tombstone m.slots i new lt (ap (is_state tombstone) f) refl in
        record {
          valid = record {
            load = valid.load;
            growth = valid.growth;
            sized = omega (arith, valid.sized, less);
            marked = omega (arith, valid.marked, more);
            roomy = λ _. rw length-set (omega (arith, valid.roomy, valid.sized, less));
            placed = erase-IsPlaced m.slots valid.placed i lt f;
          };
          size = rw seen (omega (arith, valid.sized, less));
          reads = λ q. erase-view m.slots valid.placed i lt f k q e;
        }

    -- the probe of an insertion, in the table that `grow` leaves
    insertion_slot :
        (g : HashMap K V)
        → Grown m valid g
        → (i : ℕ) × (find_slot g.slots k ≡ some i) × Located g.slots k i × Found g.slots k i
    insertion_slot g t =
        find_slot-Found g.slots k t.valid'.placed hk
          (omega (arith, t.valid'.sized, t.valid'.marked, t.spare))

    Wrote-grown :
        (v : Option V) (g m' : HashMap K V) → Grown m valid g → Wrote g k v m' → Wrote m k v m'
    Wrote-grown v g m' t w = record {
      valid = w.valid;
      size = rw (← t.size, ← t.reads k) w.size;
      reads = λ q. rw (← t.reads q) (w.reads q);
    }

    -- `insert` ends, says whether the key is new, and sets the map at the key.
    pub insert-Wrote :
        (v : V)
        → Returns
            (insert m k v)
            λ r. (r.0 ≡ not (is_some (view m.slots k))) × Wrote m k (some v) r.1
    unfolding insert
    insert-Wrote v =
        let (g, run, t) = grow-Grown m valid in
        let (i, run', w, found) = insertion_slot g t in
        let filled_slot = fill-Filled g t.valid' k v hk i w t.spare found in
        (
          fill (at g.slots i).state g i k v,
          rw (run, run'),
          (rw (← t.reads k) filled_slot.fresh, Wrote-grown (some v) g _ t filled_slot.wrote),
        )

    insert_slot-Filled :
        (v : V)
        → (r : Bool × HashMap K V) × (i : ℕ) × (insert_slot m k v ≡ some (i, r.1))
          × (g : HashMap K V) × Grown m valid g
          × Filled g k v i r
    unfolding insert_slot
    insert_slot-Filled v =
        let (g, run, t) = grow-Grown m valid in
        let (i, run', w, found) = insertion_slot g t in
        (
          fill (at g.slots i).state g i k v,
          i,
          rw (run, run'),
          g,
          t,
          fill-Filled g t.valid' k v hk i w t.spare found,
        )

    insert_slot-assign :
        (v : V)
        → Returns (insert_slot m k value.default) λ r.
          Wrote m k
            (some v)
            (record (r.1) { slots = set r.1.slots r.0 (record (at r.1.slots r.0) { value = v }) })
    insert_slot-assign v =
        let (r, i, run, g, t, w) = insert_slot-Filled value.default in
        (
          (i, r.1),
          run,
          Wrote_twice m r.1 _ k value.default v (Wrote-grown (some value.default) g r.1 t w.wrote)
              (overwrite r.1 w.wrote.valid k v i w.slot_lt w.slot_filled w.slot_key),
        )

    get_ref-assign :
        (v : V)
        → Returns (get_ref m k) λ r.
          Wrote m k
            (some v)
            (record (r.1) { slots = set r.1.slots r.0 (record (at r.1.slots r.0) { value = v }) })
    unfolding get_ref is_filled
    get_ref-assign v = elim (Bool-cases (m.size == 0)) [
      | inl z ↦ rw z (insert_slot-assign v)
      | inr p ↦
          let (i, run, w, found) =
            find_slot-Found m.slots k valid.placed hk (filled_room m valid p) in
          elim found [
            | here f e seen ↦
                rw (p, run, f)
                  ((i, m), refl, overwrite m valid k v i (Located-lt m.slots k i w) f e)
            | nowhere n u a seen ↦ rw (p, run, u) (insert_slot-assign v)
          ]
    ]

    -- `table[key] = value` ends, and sets the map at the key.
    pub assign-Wrote : (v : V) → Returns (assign m k v) (Wrote m k (some v))
    unfolding assign
    assign-Wrote v = let (r, run, w) = get_ref-assign v in (_, rw run, w)

    -- `erase` ends, says whether the key was there, and clears the map at the key.
    pub erase-Wrote : Returns (erase m k) λ r. (r.0 ≡ is_some (view m.slots k)) × Wrote m k none r.1
    unfolding erase is_filled
    erase-Wrote = elim (Bool-cases (m.size == 0)) [
      | inl z ↦ ((false, m), rw z, (rw (view_nil m valid z k), unchanged (view_nil m valid z k)))
      | inr p ↦
          let (i, run, w, found) =
            find_slot-Found m.slots k valid.placed hk (filled_room m valid p) in
          elim found [
            | here f e seen ↦ (
              (true, tomb i),
              rw (p, run, f),
              (rw seen, tomb-Wrote i (Located-lt m.slots k i w) f e seen),
            )
            | nowhere n u a seen ↦ ((false, m), rw (p, run, u), (rw seen, unchanged seen))
          ]
    ]

  -- `erase` of the key of a filled slot writes a tombstone in that slot.
  pub erase-filled :
      (m : HashMap K V) (valid : IsValid m) (i : ℕ)
      → (at m.slots i).state ≡ filled
      → (m' : HashMap K V) × (erase m (at m.slots i).key ≡ some (true, m'))
        × (m'.slots ≡ set m.slots i (record (new_slot) { state = tombstone }))
        × (view m.slots (at m.slots i).key ≡ some (at m.slots i).value)
        × Wrote m (at m.slots i).key none m'
  unfolding erase is_filled
  erase-filled m valid i f =
      let k = (at m.slots i).key in
      let hk = valid.placed.keyed i f in
      let itself = key.lawful.reflexive k in
      let held : view m.slots k ≡ some (at m.slots i).value =
        view-some m.slots i k (filled-lt m.slots i f) (rw (f, itself))
          (λ j _ n. alone m.slots i k valid.placed f itself j n) in
      elim (Bool-cases (m.size == 0)) [
        | inl z ↦ absurd (cc (held, view_nil m valid z k))
        | inr p ↦
            let (j, run, w, found) =
              find_slot-Found m.slots k valid.placed hk (filled_room m valid p) in
            elim found [
              | here g e seen ↦
                  let same : j ≡ i = valid.placed.unique j i g f e in
                  (
                    tomb m valid k hk j,
                    rw (p, run, g),
                    ap (λ x. set m.slots x (record (new_slot) { state = tombstone })) same,
                    held,
                    tomb-Wrote m valid k hk j (Located-lt m.slots k j w) g e seen,
                  )
              | nowhere n u a seen ↦ absurd (cc (held, seen))
            ]
      ]
