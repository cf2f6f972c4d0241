-- ===== src/Heap/Tests.antt =====
-- Runs of the allocator, and its theorems at concrete heaps.
use zareboon_os.Prelude.{ℕ, ◌≡◌, refl, true, false, List, [], ◌∷◌, ◌⊎◌, arith}
use zareboon_os.Heap.{
  Block, align, heap_init, place, walk, kmalloc, clear_used, join, join_all, kfree, header_of,
}
use zareboon_os.Heap.Chain.{Tiles, kmalloc-Tiles}
use zareboon_os.Heap.Alloc.{held, has_room, Gives, kmalloc-Gives, kmalloc_wraps}
use zareboon_os.Heap.Release.{is_header, whole, kfree_releases_all}

abbrev block_a : Block
block_a = record { addr = 0x01000000; size = 101 }

abbrev block_b : Block
block_b = record { addr = 0x0100006C; size = 41 }

abbrev block_rest : Block
block_rest = record { addr = 0x0100009C; size = 0x1FFFFF5C }

abbrev two_held : List Block
two_held = block_a ∷ block_b ∷ block_rest ∷ []

two_allocations : kmalloc (kmalloc heap_init 98).0 40 ≡ (two_held, 0x01000074)
unfolding kmalloc walk place heap_init
two_allocations = refl

-- Freeing the second of two live allocations frees the first too, and the next request is given
-- the first one's memory.
freed_together :
    kmalloc (kfree two_held 0x01000074) 98
    ≡ (block_a ∷ record { addr = 0x0100006C; size = 0x1FFFFF8C } ∷ [], 0x01000008)
unfolding kmalloc walk place kfree join_all join clear_used
freed_together = refl

two_held-Tiles : Tiles 0x01000000 two_held 0x21000000
two_held-Tiles = omega arith

kmalloc-Tiles_example : Tiles 0x01000000 (kmalloc two_held 100).0 0x21000000
kmalloc-Tiles_example = kmalloc-Tiles two_held 100 0x01000000 0x21000000 two_held-Tiles

kmalloc-Gives_example :
    ((has_room (align 10) two_held ≡ true)
      × Gives 10 two_held (kmalloc two_held 10).0 (kmalloc two_held 10).1)
    ⊎ ((has_room (align 10) two_held ≡ false) × (kmalloc two_held 10 ≡ (two_held, 0)))
kmalloc-Gives_example =
    kmalloc-Gives two_held 10 0x01000000 0x21000000 two_held-Tiles (omega arith) (omega arith)
      (omega arith)

kmalloc_wraps_example : kmalloc two_held 0xFFFFFFFE ≡ (
  block_a
      ∷ block_b
      ∷ record { addr = 0x0100009C; size = 1 }
      ∷ record { addr = 0x010000A4; size = 0x1FFFFF54 }
      ∷ [],
  0x010000A4,
)
kmalloc_wraps_example =
    kmalloc_wraps (block_a ∷ block_b ∷ []) block_rest [] 0xFFFFFFFE (omega arith) (omega arith)
      (refl, (refl, tt)) refl

held_here : is_header (header_of 0x01000074) two_held ≡ true
unfolding is_header
held_here = refl

kfree_releases_all_example :
    (kfree two_held 0x01000074 ≡ whole 0x01000000 0x21000000)
    × ((x : ℕ) → held (kfree two_held 0x01000074) x ≡ false)
kfree_releases_all_example =
    kfree_releases_all block_a block_b (block_rest ∷ []) 0x01000074 0x01000000 0x21000000
      two_held-Tiles (omega arith) held_here
