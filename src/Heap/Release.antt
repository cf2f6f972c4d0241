-- ===== src/Heap/Release.antt =====
-- What kfree does to the heap, and the bounds of getrand.
use native.Mathlib.Nat.{mod-lt}
use zareboon_os.Prelude.{
  Bool, ◌||◌, ℕ, ◌+◌, ◌-◌, ◌*◌, ◌%◌, ◌^◌, ◌<◌, ◌≤◌, ◌≡◌, ◌≢◌, true, false, List, [], ◌∷◌, arith,
  ◌==◌, Bool-cases, inl, inr,
}
use zareboon_os.Heap.{
  Block, clear_bit, clear_used, join, join_all, kfree, header_of, header_size, getrand,
}
use zareboon_os.Heap.Chain.{Tiles, Tiles-start}
use zareboon_os.Heap.Alloc.{held}

clear_used-Tiles : (p : ℕ) (bs : List Block) (a e : ℕ) → Tiles a bs e → Tiles a (clear_used p bs) e
unfolding clear_used
clear_used-Tiles p [] a e t = t
clear_used-Tiles p (b ∷ bs) a e (t0, t1, t2) = elim (Bool-cases (b.addr == p)) [
  | inl c ↦ rw c (t0, omega arith, clear_used-Tiles p bs _ e (Tiles-start bs e (omega arith) t2))
  | inr c ↦ rw c (t0, t1, clear_used-Tiles p bs _ e t2)
]

-- One free block from address `a` to address `e`.
abbrev pub whole : ℕ → ℕ → List Block
whole a e = record { addr = a; size = e - a - header_size } ∷ []

-- From a block whose bit is clear the loop swallows everything behind it.
join-whole :
    (b : Block) (bs : List Block) (a e : ℕ)
    → b.size % 2 ≡ 0
    → Tiles a (b ∷ bs) e
    → join b bs ≡ whole a e
unfolding join
join-whole b [] a e even t = ground arith
join-whole b (c ∷ cs) a e even (t0, t1, (t2, t3, t4)) =
    let meets : (b.addr + header_size + clear_bit b.size == c.addr) ≡ true = ground arith in
    rw (meets, join)
      (join-whole (record b { size = clear_bit b.size + header_size + clear_bit c.size }) cs a e
        (omega arith) (t0, omega arith, Tiles-start cs e (omega arith) t4))

-- A block in use or not: one step of the loop clears its bit.
join-cons :
    (b c : Block) (cs : List Block) (a e : ℕ) → Tiles a (b ∷ c ∷ cs) e → join b (c ∷ cs) ≡ whole a e
unfolding join
join-cons b c cs a e (t0, t1, (t2, t3, t4)) =
    let meets : (b.addr + header_size + clear_bit b.size == c.addr) ≡ true = ground arith in
    rw (meets, join)
      (join-whole (record b { size = clear_bit b.size + header_size + clear_bit c.size }) cs a e
        (omega arith) (t0, omega arith, Tiles-start cs e (omega arith) t4))

Tiles-le :
    (b : Block) (bs : List Block) (a e : ℕ)
    → Tiles a (b ∷ bs) e
    → (a + header_size ≤ e) × ((e - a) % 4 ≡ 0)
Tiles-le b [] a e t = omega arith
Tiles-le b (c ∷ cs) a e (t0, t1, t2) =
    omega (arith, Tiles-le c cs (a + header_size + clear_bit b.size) e t2)

-- A block of the chain has its header at address `p`.
unfoldable pub is_header : ℕ → List Block → Bool
is_header p [] = false
is_header p (b ∷ bs) = (b.addr == p) || is_header p bs

-- On a tiled heap of two blocks or more, freeing the memory of any block of the chain leaves one free
-- block that covers the whole heap: no address is held afterwards, whoever held it before.
pub kfree_releases_all :
    (b c : Block) (cs : List Block) (ptr a e : ℕ)
    → Tiles a (b ∷ c ∷ cs) e
    → ptr ≢ 0
    → is_header (header_of ptr) (b ∷ c ∷ cs) ≡ true
    → (kfree (b ∷ c ∷ cs) ptr ≡ whole a e) × ((x : ℕ) → held (kfree (b ∷ c ∷ cs) ptr) x ≡ false)
unfolding kfree join_all clear_used held
kfree_releases_all b c cs ptr a e t live known =
    (frees, λ x. rw frees (ground (arith, Tiles-le b (c ∷ cs) a e t)))
  where
    frees : kfree (b ∷ c ∷ cs) ptr ≡ whole a e
    frees =
        let nonnull : (ptr == 0) ≡ false = ground arith in
        rw (nonnull, kfree)
          (join-cons _ _ (clear_used (header_of ptr) cs) a e
            (clear_used-Tiles (header_of ptr) (b ∷ c ∷ cs) a e t))

offset_in_range :
    (lo hi m : ℕ)
    → lo < 2 ^ 32
    → hi < 2 ^ 32
    → m < (hi + 2 ^ 32 - lo + 1) % 2 ^ 32
    → ((lo + m) % 2 ^ 32 + 2 ^ 32 - lo) % 2 ^ 32 ≤ (hi + 2 ^ 32 - lo) % 2 ^ 32
offset_in_range lo hi m hl hh small = omega arith

-- A number of getrand lies in the closed range from `lo` to `hi`, counted up from `lo` modulo
-- 2 ^ 32 as for an int, unless that range is all of the 2 ^ 32 numbers, where the code divides by
-- zero; and the new seed is a uint32_t.
pub getrand_in_range :
    (next lo hi : ℕ)
    → lo < 2 ^ 32
    → hi < 2 ^ 32
    → (hi + 2 ^ 32 - lo + 1) % 2 ^ 32 ≢ 0
    → (((getrand next lo hi).1 + 2 ^ 32 - lo) % 2 ^ 32 ≤ (hi + 2 ^ 32 - lo) % 2 ^ 32)
      × ((getrand next lo hi).1 < 2 ^ 32)
      × ((getrand next lo hi).0 < 2 ^ 32)
unfolding getrand
getrand_in_range next lo hi hl hh ne = omega (
  arith,
  offset_in_range lo hi ((next * 1103515245 + 12345) % 2 ^ 32 % ((hi + 2 ^ 32 - lo + 1) % 2 ^ 32))
      hl hh (mod-lt _ (omega arith)),
)
