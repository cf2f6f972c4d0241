-- ===== src/Heap/Chain.antt =====
-- The well-formed heap: headers that tile a range of addresses.
use mathlib.Core.Path.{subst}
use zareboon_os.Prelude.{
  ℕ, ◌+◌, ◌%◌, ◌≤◌, ◌≡◌, ◌&&◌, List, [], ◌∷◌, arith, leb, ◌==◌, Bool-cases, inl, inr, leb→le,
}
use zareboon_os.Heap.{
  Block, clear_bit, align, is_free, heap_init, place, walk, kmalloc, ram_heap, heap_size,
  header_size,
}

-- From address `a` to address `e` each block ends where the next begins, and begins and ends at a
-- multiple of four.
abbrev pub Tiles : ℕ → List Block → ℕ → Type 0
Tiles a [] e = a ≡ e
Tiles a (b ∷ bs) e =
    (b.addr ≡ a) × (clear_bit b.size % 4 ≡ 0) × Tiles (a + header_size + clear_bit b.size) bs e

pub heap_init-Tiles : Tiles ram_heap heap_init (ram_heap + heap_size)
unfolding heap_init
heap_init-Tiles = omega arith

pub Tiles-start : {a a' : ℕ} (bs : List Block) (e : ℕ) → a ≡ a' → Tiles a bs e → Tiles a' bs e
Tiles-start bs e p t = subst (λ x. Tiles x bs e) p t

place-Tiles :
    (n : ℕ) (b : Block) (bs : List Block) (a e : ℕ)
    → n % 4 ≡ 0
    → n ≤ clear_bit b.size
    → Tiles a (b ∷ bs) e
    → Tiles a (place n b bs) e
unfolding place
place-Tiles n b bs a e al le (h0, h1, h2) =
    elim (Bool-cases (leb (n + header_size + 4) (clear_bit b.size))) [
      | inl c ↦
          let fits = leb→le _ _ c in
          rw c (h0, omega arith, (omega arith, omega arith, Tiles-start bs e (omega arith) h2))
      | inr c ↦ rw c (h0, omega arith, Tiles-start bs e (omega arith) h2)
    ]

walk-Tiles :
    (n : ℕ) (bs : List Block) (a e : ℕ) → n % 4 ≡ 0 → Tiles a bs e → Tiles a (walk n bs).0 e
unfolding walk
walk-Tiles n [] a e al t = t
walk-Tiles n (b ∷ bs) a e al t = elim (Bool-cases (is_free b && leb n (clear_bit b.size))) [
  | inl c ↦ rw c (place-Tiles n b bs a e al (ground arith) t)
  | inr c ↦ rw c (t.0, t.1, walk-Tiles n bs (a + header_size + clear_bit b.size) e al t.2)
]

-- kmalloc keeps the heap tiled by its blocks, for every size asked for.
pub kmalloc-Tiles : (h : List Block) (size a e : ℕ) → Tiles a h e → Tiles a (kmalloc h size).0 e
unfolding kmalloc
kmalloc-Tiles h size a e t = elim (Bool-cases (size == 0)) [
  | inl c ↦ rw c t
  | inr c ↦ rw c (walk-Tiles (align size) h a e (omega arith) t)
]
