-- ===== src/HashMap/Fill.antt =====
-- The write of a slot that `insert` and `insert_slot` share, on its three branches.
use cpp_lox.Prelude.{
  ℕ, ◌+◌, ◌<◌, ◌≡◌, refl, sym, ap, inl, inr, Bool, true, not, Option, none, some, arith,
  if◌then◌else◌, length, set, length-set, Bool-cases, subst,
}
use cpp_lox.HashMap.Keys.{Key, Default}
use cpp_lox.HashMap.{HashMap, filled, empty, tombstone, Slot, is_filled, at, fill}
use cpp_lox.HashMap.Probe.{State-cases, Absent, Located}
use cpp_lox.HashMap.View.{to_nat, is_state, count-set_of, view, view-some}
use cpp_lox.HashMap.Placed.{IsKey}
use cpp_lox.HashMap.Write.{at-set_self, Located-lt, fill-IsPlaced, fill-view}
use cpp_lox.HashMap.Replace.{update-IsPlaced, update-view, alone}
use cpp_lox.HashMap.Valid.{IsValid}
use cpp_lox.HashMap.Found.{is_some, Found, here, nowhere}

module _ {ℓ} {K V : Type ℓ} ⦃key : Key K⦄ ⦃value : Default V⦄ where
  -- `m'` is `m` with `v` at the key `k`.
  pub record Wrote (m : HashMap K V) (k : K) (v : Option V) (m' : HashMap K V) : Type ℓ where
    pub valid : IsValid m'
    pub size : m'.size + to_nat (is_some (view m.slots k)) ≡ m.size + to_nat (is_some v)
    pub reads : (q : K) → view m'.slots q ≡ (if key.equal k q then v else view m.slots q)

  -- A write to slot `i`, which then holds `k`.
  pub record Filled (g : HashMap K V) (k : K) (v : V) (i : ℕ) (r : Bool × HashMap K V)
      : Type ℓ where
    pub fresh : r.0 ≡ not (is_some (view g.slots k))
    pub wrote : Wrote g k (some v) r.1
    pub slot_lt : i < length r.1.slots
    pub slot_filled : (at r.1.slots i).state ≡ filled
    pub slot_key : key.equal (at r.1.slots i).key k ≡ true

  module _ (g : HashMap K V) (valid : IsValid g) (k : K) where
    -- the value in the slot that holds the key is the one that the view gives
    pub holder_seen :
        (i : ℕ)
        → i < length g.slots
        → (at g.slots i).state ≡ filled
        → key.equal (at g.slots i).key k ≡ true
        → view g.slots k ≡ some (at g.slots i).value
    unfolding is_filled
    holder_seen i lt f e =
        view-some g.slots i k lt (rw (f, e)) (λ j _ n. alone g.slots i k valid.placed f e j n)

    -- a new value through a reference to the slot that holds the key
    pub overwrite :
        (v : V) (i : ℕ)
        → i < length g.slots
        → (at g.slots i).state ≡ filled
        → key.equal (at g.slots i).key k ≡ true
        → Wrote g k
            (some v)
            (record g { slots = set g.slots i (record (at g.slots i) { value = v }) })
    overwrite v i lt f e =
        let new : Slot K V = record (at g.slots i) { value = v } in
        record {
          valid = record {
            load = valid.load;
            growth = valid.growth;
            sized = omega (arith, valid.sized, count-set_of filled g.slots i new lt refl refl);
            marked = omega (arith, valid.marked, count-set_of tombstone g.slots i new lt refl refl);
            roomy = rw length-set valid.roomy;
            placed = update-IsPlaced g.slots valid.placed i lt f v;
          };
          size = rw (holder_seen i lt f e);
          reads = λ q. update-view g.slots valid.placed i lt f v k q e;
        }

  -- two writes at one key
  pub Wrote_twice :
      (a b c : HashMap K V) (k : K) (u v : V)
      → Wrote a k (some u) b
      → Wrote b k (some v) c
      → Wrote a k (some v) c
  Wrote_twice a b c k u v s t =
      let there : view b.slots k ≡ some u = rw (s.reads k, key.lawful.reflexive k) in
      record {
        valid = t.valid;
        size = omega (arith, s.size, rw there at t.size);
        reads = λ q. elim (Bool-cases (key.equal k q)) [
          | inl e ↦ rw (t.reads q, e)
          | inr e ↦ rw (t.reads q, s.reads q, e)
        ];
      }

  module _ (g : HashMap K V) (valid : IsValid g) (k : K) (v : V) (hk : IsKey k) (i : ℕ)
      (w : Located g.slots k i) where
    lt : i < length g.slots
    lt = Located-lt g.slots k i w

    fill_filled :
        (at g.slots i).state ≡ filled
        → key.equal (at g.slots i).key k ≡ true
        → Filled g k v i (fill filled g i k v)
    unfolding fill
    fill_filled f e = record {
      fresh = rw (holder_seen g valid k i lt f e);
      wrote = overwrite g valid k v i lt f e;
      slot_lt = rw length-set lt;
      slot_filled = rw (at-set_self g.slots i lt) f;
      slot_key = rw (at-set_self g.slots i lt) e;
    }

    fill_empty :
        g.size + g.tombstones + 1 < length g.slots
        → (at g.slots i).state ≡ empty
        → Absent g.slots k
        → view g.slots k ≡ none
        → Filled g k v i (fill empty g i k v)
    unfolding fill
    fill_empty spare z absent seen =
        let new : Slot K V = record { key = k; value = v; state = filled } in
        record {
          fresh = rw seen;
          wrote = record {
            valid = record {
              load = valid.load;
              growth = valid.growth;
              sized = omega (
                arith,
                valid.sized,
                count-set_of filled g.slots i new lt (ap (is_state filled) z) refl,
              );
              marked = omega (
                arith,
                valid.marked,
                count-set_of tombstone g.slots i new lt (ap (is_state tombstone) z) refl,
              );
              roomy = λ _. rw length-set (omega (arith, spare));
              placed = fill-IsPlaced g.slots valid.placed k v hk i w (λ q. cc) absent;
            };
            size = rw seen (omega arith);
            reads = fill-view g.slots valid.placed k v hk i w (λ q. cc) absent;
          };
          slot_lt = rw length-set lt;
          slot_filled = rw (at-set_self g.slots i lt);
          slot_key = rw (at-set_self g.slots i lt) (key.lawful.reflexive k);
        }

    fill_tombstone :
        g.size + g.tombstones + 1 < length g.slots
        → (at g.slots i).state ≡ tombstone
        → Absent g.slots k
        → view g.slots k ≡ none
        → Filled g k v i (fill tombstone g i k v)
    unfolding fill
    fill_tombstone spare z absent seen =
        let new : Slot K V = record { key = k; value = v; state = filled } in
        let fewer = count-set_of tombstone g.slots i new lt (ap (is_state tombstone) z) refl in
        record {
          fresh = rw seen;
          wrote = record {
            valid = record {
              load = valid.load;
              growth = valid.growth;
              sized = omega (
                arith,
                valid.sized,
                count-set_of filled g.slots i new lt (ap (is_state filled) z) refl,
              );
              marked = omega (arith, valid.marked, fewer);
              roomy = λ _. rw length-set (omega (arith, spare, valid.marked, fewer));
              placed = fill-IsPlaced g.slots valid.placed k v hk i w (λ q. cc) absent;
            };
            size = rw seen (omega arith);
            reads = fill-view g.slots valid.placed k v hk i w (λ q. cc) absent;
          };
          slot_lt = rw length-set lt;
          slot_filled = rw (at-set_self g.slots i lt);
          slot_key = rw (at-set_self g.slots i lt) (key.lawful.reflexive k);
        }

    pub fill-Filled :
        g.size + g.tombstones + 1 < length g.slots
        → Found g.slots k i
        → Filled g k v i (fill (at g.slots i).state g i k v)
    fill-Filled spare found = elim found [
      | here f e seen ↦ subst (λ s. Filled g k v i (fill s g i k v)) (sym f) (fill_filled f e)
      | nowhere n _ a seen ↦ elim (State-cases (at g.slots i).state) [
        | inl f ↦ absurd (n f)
        | inr (inl z) ↦
            subst (λ s. Filled g k v i (fill s g i k v)) (sym z) (fill_empty spare z a seen)
        | inr (inr t) ↦
            subst (λ s. Filled g k v i (fill s g i k v)) (sym t) (fill_tombstone spare t a seen)
      ]
    ]
