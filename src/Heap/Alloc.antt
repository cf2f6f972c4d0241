-- ===== src/Heap/Alloc.antt =====
-- What kmalloc gives out: memory that nobody holds, in a block of the size asked for.
use zareboon_os.Prelude.{
  ℕ, ◌+◌, ◌-◌, ◌%◌, ◌^◌, ◌<◌, ◌≤◌, ◌≡◌, ◌⊎◌, refl, ap, Bool, true, false, not, ◌&&◌, ◌||◌, List, [],
  ◌∷◌, ◌++◌, ◌∙◌, if◌then◌else◌, arith, leb, ltb, ◌==◌, Bool-cases, inl, inr,
}
use zareboon_os.Heap.{Block, clear_bit, set_bit, align, is_free, place, walk, kmalloc, header_size}
use zareboon_os.Heap.Chain.{Tiles}

-- Address `x` lies in the memory that the block gives to its holder.
abbrev pub inside : Block → ℕ → Bool
inside b x = leb (b.addr + header_size) x && ltb x (b.addr + header_size + clear_bit b.size)

-- Address `x` lies in the memory of a block in use.
unfoldable pub held : List Block → ℕ → Bool
held [] x = false
held (b ∷ bs) x = (not (is_free b) && inside b x) || held bs x

-- The walk finds a free block that is large enough.
unfoldable pub has_room : ℕ → List Block → Bool
has_room n [] = false
has_room n (b ∷ bs) = (is_free b && leb n (clear_bit b.size)) || has_room n bs

held-lt : (bs : List Block) (a e x : ℕ) → Tiles a bs e → x < a → held bs x ≡ false
unfolding held
held-lt [] a e x t h = refl
held-lt (b ∷ bs) a e x (t0, t1, t2) h =
    ground (arith, held-lt bs (a + header_size + clear_bit b.size) e x t2 (omega arith))

-- `n` bytes from `p` on were nobody's before, and are somebody's after; what was held still is.
pub record Gives (n : ℕ) (before after : List Block) (p : ℕ) : Type 0 where
  pub aligned : p % 4 ≡ 0
  pub fresh : (x : ℕ) → p ≤ x → x < p + n → held before x ≡ false
  pub taken : (x : ℕ) → p ≤ x → x < p + n → held after x ≡ true
  pub kept : (x : ℕ) → held before x ≡ true → held after x ≡ true

place-Gives :
    (n : ℕ) (b : Block) (bs : List Block) (a e : ℕ)
    → n % 4 ≡ 0
    → a % 4 ≡ 0
    → is_free b ≡ true
    → n ≤ clear_bit b.size
    → Tiles a (b ∷ bs) e
    → Gives n (b ∷ bs) (place n b bs) (b.addr + header_size)
unfolding place held
place-Gives n b bs a e al a4 free le (t0, t1, t2) = record {
  aligned = omega arith;
  fresh = λ x lo hi.
      ground (arith, held-lt bs (a + header_size + clear_bit b.size) e x t2 (omega arith));
  taken = λ x lo hi. ground arith;
  kept = λ x h. ground arith;
}

-- The pointer found from address `a` on lies behind a header.
walk-le :
    (n : ℕ) (bs : List Block) (a e : ℕ)
    → Tiles a bs e
    → has_room n bs ≡ true
    → a + header_size ≤ (walk n bs).1
unfolding walk has_room
walk-le n [] a e t room = cc
walk-le n (b ∷ bs) a e t room =
    ground (arith, walk-le n bs (a + header_size + clear_bit b.size) e t.2)

Gives-cons :
    {n : ℕ} {bs bs' : List Block} {p : ℕ} (b : Block)
    → b.addr + header_size + clear_bit b.size ≤ p
    → Gives n bs bs' p
    → Gives n (b ∷ bs) (b ∷ bs') p
unfolding held
Gives-cons b lo g = record {
  aligned = g.aligned;
  fresh = λ x p q. ground (arith, g.fresh x p q);
  taken = λ x p q. ground (arith, g.taken x p q);
  kept = λ x h. ground (arith, g.kept x);
}

walk-Gives :
    (n : ℕ) (bs : List Block) (a e : ℕ)
    → n % 4 ≡ 0
    → a % 4 ≡ 0
    → Tiles a bs e
    → has_room n bs ≡ true
    → Gives n bs (walk n bs).0 (walk n bs).1
unfolding walk has_room
walk-Gives n [] a e al a4 t room = cc
walk-Gives n (b ∷ bs) a e al a4 t room = elim (Bool-cases (is_free b && leb n (clear_bit b.size))) [
  | inl c ↦ rw c (place-Gives n b bs a e al a4 (ground arith) (ground arith) t)
  | inr c ↦
      let more : has_room n bs ≡ true = ground arith in
      let a' : ℕ = a + header_size + clear_bit b.size in
      rw c (
        Gives-cons b (omega (arith, walk-le n bs a' e t.2 more))
          (walk-Gives n bs a' e al (omega arith) t.2 more))
]

walk_none : (n : ℕ) (bs : List Block) → has_room n bs ≡ false → walk n bs ≡ (bs, 0)
unfolding walk has_room
walk_none n [] room = refl
walk_none n (b ∷ bs) room = ground (arith, walk_none n bs)

-- On a tiled heap, for a size from 1 to 2 ^ 32 - 4, kmalloc gives out `size` bytes that nobody
-- holds, at a multiple of four, and takes nothing from those that hold memory, if some free block
-- is as large as the rounded size; otherwise it returns NULL and changes nothing.
pub kmalloc-Gives :
    (h : List Block) (size a e : ℕ)
    → Tiles a h e
    → a % 4 ≡ 0
    → 0 < size
    → size ≤ 2 ^ 32 - 4
    → ((has_room (align size) h ≡ true) × Gives size h (kmalloc h size).0 (kmalloc h size).1)
      ⊎ ((has_room (align size) h ≡ false) × (kmalloc h size ≡ (h, 0)))
unfolding kmalloc
kmalloc-Gives h size a e t a4 pos small =
    let nonzero : (size == 0) ≡ false = ground arith in
    rw nonzero (elim (Bool-cases (has_room (align size) h)) [
      | inl room ↦ inl (room, narrow (walk-Gives (align size) h a e (omega arith) a4 t room))
      | inr full ↦ inr (full, walk_none (align size) h full)
    ])
  where
    narrow : {after : List Block} {p : ℕ} → Gives (align size) h after p → Gives size h after p
    narrow g = record {
      aligned = g.aligned;
      fresh = λ x lo hi. g.fresh x lo (omega arith);
      taken = λ x lo hi. g.taken x lo (omega arith);
      kept = g.kept;
    }

-- Every block is in use.
abbrev pub AllUsed : List Block → Type 0
AllUsed [] = Unit
AllUsed (b ∷ bs) = (is_free b ≡ false) × AllUsed bs

-- A walk for no bytes takes the first free block, of any size.
walk_zero :
    (us : List Block) (b : Block) (bs : List Block)
    → AllUsed us
    → is_free b ≡ true
    → walk 0 (us ++ b ∷ bs) ≡ (us ++ place 0 b bs, b.addr + header_size)
unfolding walk
walk_zero [] b bs used free = ground arith
walk_zero (u ∷ us) b bs (taken, used) free = rw (taken, walk_zero us b bs used free) refl

-- The block that such a walk takes, cut down or whole.
place_zero :
    (b : Block) (bs : List Block)
    → is_free b ≡ true
    → place 0 b bs ≡ (
        if leb 12 b.size
        then record b { size = 1 } ∷ record { addr = b.addr + 8; size = b.size - 8 } ∷ bs
        else record b { size = b.size + 1 } ∷ bs)
unfolding place
place_zero b bs free =
    let even : clear_bit b.size ≡ b.size = ground arith in
    let rest : clear_bit (b.size - 0 - header_size) ≡ b.size - 8 = ground arith in
    let behind : b.addr + header_size + 0 ≡ b.addr + 8 = omega arith in
    let used : set_bit b.size ≡ b.size + 1 = ground arith in rw (even, rest, behind, used) refl

-- Sizes within three bytes of 2 ^ 32 wrap to a rounded size of 0: kmalloc answers with the first
-- free block of the chain, of any size. Where that block has twelve bytes or more it is cut down to
-- hold none at all, and otherwise it is taken whole.
pub kmalloc_wraps :
    (us : List Block) (b : Block) (bs : List Block) (size : ℕ)
    → 2 ^ 32 - 3 ≤ size
    → size < 2 ^ 32
    → AllUsed us
    → is_free b ≡ true
    → kmalloc (us ++ b ∷ bs) size ≡ (
      us
          ++ (if leb 12 b.size
              then record b { size = 1 } ∷ record { addr = b.addr + 8; size = b.size - 8 } ∷ bs
              else record b { size = b.size + 1 } ∷ bs),
      b.addr + 8,
    )
unfolding kmalloc
kmalloc_wraps us b bs size lo hi used free =
    let zero_size : align size ≡ 0 = omega arith in
    let nonzero : (size == 0) ≡ false = ground arith in
    rw (nonzero, zero_size)
      (walk_zero us b bs used free
        ∙ ap (λ (t : List Block). (us ++ t, b.addr + header_size)) (place_zero b bs free))
