-- ===== src/Gc/Sweeping.antt =====
-- src/common/gc.cpp: `sweep`, and src/common/allocator.cpp: `remove_unused_strings`.
use cpp_lox.Prelude.{
  ℕ, zero, suc, ◌+◌, ◌-◌, Bool, true, false, Option, none, some, List, [], ◌∷◌, ltb, ◌==◌,
  if◌then◌else◌, length, get_or, set, take, ◌>>=◌,
}
use cpp_lox.HashMap.Keys.{Key, Default}
use cpp_lox.HashMap.{HashMap, is_filled, at, erase}
use cpp_lox.Gc.{update}

-- `std::swap(objects[i], objects.back()); objects.pop_back();`
unfoldable pub swap_erase : List ℕ → ℕ → List ℕ
swap_erase objects i =
    let back = length objects - 1 in
    let swapped = set (set objects i (get_or objects back 0)) back (get_or objects i 0) in
    take back swapped

-- What `sweep` writes; `freed` has the objects that `free_object` deleted, the last one first.
pub record Swept : Type 0 where
  pub objects : List ℕ
  pub is_marked : ℕ → Bool
  pub freed : List ℕ

-- The loop of `sweep` from index `i`; each round takes an object away or moves on.
unfoldable pub sweep_from : ℕ → ℕ → Swept → Option Swept
sweep_from zero i s = if ltb i (length s.objects) then none else some s
sweep_from (suc rounds) i s =
    let obj = get_or s.objects i 0 in
    elim (ltb i (length s.objects)) [
      | true ↦ elim (obj == 0) [
        | true ↦ sweep_from rounds i (record s { objects = swap_erase s.objects i })
        | false ↦ elim (s.is_marked obj) [
          | true ↦ sweep_from rounds (i + 1) (record s { is_marked = update s.is_marked obj false })
          | false ↦
              sweep_from rounds i
                (record s { objects = swap_erase s.objects i; freed = obj ∷ s.freed })
        ]
      ]
      | false ↦ some s
    ]

unfoldable pub sweep : List ℕ → (ℕ → Bool) → Option Swept
sweep objects is_marked =
    sweep_from (length objects) 0 (record { objects = objects; is_marked = is_marked; freed = [] })

module _ {K : Type 0} ⦃key : Key K⦄ ⦃value : Default ℕ⦄ where
  -- The loop of `remove_unused_strings` from slot `i`, on as many rounds as slots are left: the
  -- pool of the interned strings, and how many were removed.
  unfoldable pub remove_from : ℕ → (ℕ → Bool) → ℕ → HashMap K ℕ → Option (HashMap K ℕ × ℕ)
  unfolding is_filled
  remove_from zero is_marked i pool = some (pool, 0)
  remove_from (suc rounds) is_marked i pool =
      let slot = at pool.slots i in
      let kept = remove_from rounds is_marked (i + 1) pool in
      elim (is_filled slot.state) [
        | true ↦ elim (is_marked slot.value) [
          | true ↦ kept
          | false ↦ erase pool slot.key >>= λ erased.
              remove_from rounds is_marked (i + 1) erased.1 >>= λ r. some (r.0, r.1 + 1)
        ]
        | false ↦ kept
      ]

  unfoldable pub remove_unused_strings : (ℕ → Bool) → HashMap K ℕ → Option (HashMap K ℕ × ℕ)
  remove_unused_strings is_marked pool = remove_from (length pool.slots) is_marked 0 pool
