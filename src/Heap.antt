-- ===== src/Heap.antt =====
-- src/stdlib.c: the kernel's first-fit allocator, and its random numbers.
pub mod Chain
pub mod Alloc
pub mod Release
mod Tests
use zareboon_os.Prelude.{
  ℕ, ◌+◌, ◌-◌, ◌*◌, ◌%◌, ◌^◌, Bool, true, false, ◌&&◌, List, [], ◌∷◌, leb, ◌==◌, if◌then◌else◌,
}

-- RAM_HEAP, HEAP_SIZE, and sizeof(block_header_t) on the 32-bit target.
abbrev pub ram_heap : ℕ
ram_heap = 0x01000000

abbrev pub heap_size : ℕ
heap_size = 0x20000000

abbrev pub header_size : ℕ
header_size = 8

-- A block header. Bit 0 of the size is set while the block is in use; `next` is the order of the
-- list in which the block stands.
pub record Block : Type 0 where
  pub addr : ℕ
  pub size : ℕ

-- `size & ~1`, `size | 1` and `(size + 3) & ~3` on a uint32_t.
abbrev pub clear_bit : ℕ → ℕ
clear_bit n = n - n % 2

abbrev pub set_bit : ℕ → ℕ
set_bit n = n - n % 2 + 1

abbrev pub align : ℕ → ℕ
align n = (n + 3) % 2 ^ 32 - (n + 3) % 2 ^ 32 % 4

abbrev pub is_free : Block → Bool
is_free b = b.size % 2 == 0

-- The chain of headers from free_list on.
unfoldable pub heap_init : List Block
heap_init = record { addr = ram_heap; size = clear_bit (heap_size - header_size) } ∷ []

-- Addresses and sizes inside the heap end at 0x21000000, so their sums are written with no wrap.
-- The chosen block, cut in two where the rest holds a header and four bytes more.
unfoldable pub place : ℕ → Block → List Block → List Block
place aligned b bs =
    let real = clear_bit b.size in
    if leb (aligned + header_size + 4) real
    then record b { size = set_bit aligned }
      ∷ record {
        addr = b.addr + header_size + aligned;
        size = clear_bit (real - aligned - header_size);
      }
      ∷ bs
    else record b { size = set_bit real } ∷ bs

-- The walk from `curr` on: the chain afterwards, and the pointer returned (0 for NULL).
unfoldable pub walk : ℕ → List Block → List Block × ℕ
unfolding place
walk aligned [] = ([], 0)
walk aligned (b ∷ bs) =
    let (bs', p) = walk aligned bs in
    if is_free b && leb aligned (clear_bit b.size)
    then (place aligned b bs, b.addr + header_size)
    else (b ∷ bs', p)

unfoldable pub kmalloc : List Block → ℕ → List Block × ℕ
unfolding walk
kmalloc h size = if size == 0 then (h, 0) else walk (align size) h

-- `target->size &= ~1`, for the block whose header stands at `a`. The code writes there whatever `a`
-- is; an address that is no header of the chain is outside the model, and changes nothing here.
pub clear_used : ℕ → List Block → List Block
clear_used a [] = []
clear_used a (b ∷ bs) =
    (if b.addr == a then record b { size = clear_bit b.size } else b) ∷ clear_used a bs

-- The loop that joins neighbours, at `curr` with the blocks behind it.
pub join : Block → List Block → List Block
join b [] = b ∷ []
join b (c ∷ cs) = elim (b.addr + header_size + clear_bit b.size == c.addr) [
  | true ↦ join (record b { size = clear_bit b.size + header_size + clear_bit c.size }) cs
  | false ↦ b ∷ join c cs
]

pub join_all : List Block → List Block
join_all [] = []
join_all (b ∷ bs) = join b bs

-- `(block_header_t*)ptr - 1` on 32-bit addresses.
abbrev pub header_of : ℕ → ℕ
header_of ptr = (ptr + 2 ^ 32 - header_size) % 2 ^ 32

pub kfree : List Block → ℕ → List Block
kfree h ptr = if ptr == 0 then h else join_all (clear_used (header_of ptr) h)

-- An int is its bit pattern below 2 ^ 32. The new seed, and the number.
pub getrand : ℕ → ℕ → ℕ → ℕ × ℕ
getrand next lo hi =
    let next' = (next * 1103515245 + 12345) % 2 ^ 32 in
    let range = (hi + 2 ^ 32 - lo + 1) % 2 ^ 32 in (next', (lo + next' % range) % 2 ^ 32)
