-- ===== src/Upvalue/Chain.antt =====
-- The list of the open upvalues as a list of addresses and slots, from the highest slot down.
use cpp_lox.Prelude.{
  ℕ, ◌<◌, ◌≤◌, ◌≡◌, ◌≢◌, ap, ◌∙◌, subst, sym, inl, inr, List, [], ◌∷◌, ◌==◌, arith, length,
  Bool-cases,
}
use cpp_lox.Upvalue.{Location, slot_at, own, Upvalue, Memory, write}

-- the nodes from `head` on
abbrev pub Chain : Memory → ℕ → List (ℕ × ℕ) → Type 0
Chain memory head [] = head ≡ 0
Chain memory head ((a, i) ∷ nodes) =
    (head ≡ a) × (a ≢ 0) × ((memory a).location ≡ slot_at i) × Chain memory (memory a).next nodes

-- every slot is below the one before it, and below `bound`
abbrev pub Descending : ℕ → List (ℕ × ℕ) → Type 0
Descending bound [] = Unit
Descending bound ((a, i) ∷ nodes) = (i < bound) × Descending i nodes

pub Descending-length :
    (bound : ℕ) (nodes : List (ℕ × ℕ)) → Descending bound nodes → length nodes ≤ bound
Descending-length bound [] d = omega arith
Descending-length bound ((a, i) ∷ nodes) (h, d) = omega (arith, Descending-length i nodes d)

pub Descending-weaken :
    (b c : ℕ) (nodes : List (ℕ × ℕ)) → b ≤ c → Descending b nodes → Descending c nodes
Descending-weaken b c [] h d = tt
Descending-weaken b c ((a, i) ∷ nodes) h (k, d) = (omega arith, d)

slot_of : Location → ℕ
slot_of (slot_at i) = i
slot_of own = 0

pub slot_at-injective : (i j : ℕ) → slot_at i ≡ slot_at j → i ≡ j
unfolding slot_of
slot_at-injective i j e = ap slot_of e

-- Memories that agree on the nodes of a chain have the same chain.
pub Chain-agree :
    (m n : Memory) (head : ℕ) (nodes : List (ℕ × ℕ)) (bound : ℕ)
    → Descending bound nodes
    → ((a i : ℕ) → i < bound → (m a).location ≡ slot_at i → n a ≡ m a)
    → Chain m head nodes
    → Chain n head nodes
Chain-agree m n head [] bound d same c = c
Chain-agree m n head ((a, i) ∷ nodes) bound (h, d) same (e, z, l, c) =
    let s = same a i h l in
    (
      e,
      z,
      ap (λ u. u.location) s ∙ l,
      subst (λ u. Chain n u.next nodes) (sym s)
          (Chain-agree m n (m a).next nodes i d (λ b j k. same b j (omega arith)) c),
    )

-- A write at an upvalue of slot `i` or higher leaves the nodes below alone.
pub write-below :
    (m : Memory) (a i : ℕ) (u : Upvalue) (b j : ℕ)
    → (m a).location ≡ slot_at i
    → j < i
    → (m b).location ≡ slot_at j
    → write m a u b ≡ m b
write-below m a i u b j l h k = elim (Bool-cases (b == a)) [
  | inl e ↦ absurd (
      omega (arith, h, slot_at-injective j i (sym k ∙ ap (λ x. (m x).location) (ground arith) ∙ l)))
  | inr e ↦ rw e
]
