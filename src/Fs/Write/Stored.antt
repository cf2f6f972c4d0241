-- ===== src/Fs/Write/Stored.antt =====
-- store_entry on an entry that exists: the first cluster and the size that the entry then has.
use zareboon_os.Prelude.{
  ℕ, ◌+◌, ◌*◌, ◌/◌, ◌%◌, ◌^◌, ◌<◌, ◌≤◌, ◌≡◌, ◌∙◌, true, none, arith, inr, ◌⊎◌,
}
use zareboon_os.Fs.Device.{SectorDevice, Bytes, IsReliable}
use zareboon_os.Fs.Bytes.{get16, get32, put16, put32, get32-put32_self}
use zareboon_os.Fs.Volume.{Geometry, Fs}
use zareboon_os.Fs.Volume.Laws.{IsVolume, IsCluster, cluster_byte}
use zareboon_os.Fs.Fat.Laws.{fat_entry}
use zareboon_os.Fs.Entries.{entry_cluster, entry_size, put_cluster, put_size}
use zareboon_os.Fs.Read.{read_io}
use zareboon_os.Fs.Write.{Pos, stored_entry, store_entry}
use zareboon_os.Fs.Write.Effects.{SameBytes, write_io-Stores, read_io-Loads}

-- The stores of a known entry leave every byte outside the entry.
stored_entry-outside :
    (b : Bytes) (i first size j : ℕ)
    → (j < i * 32) ⊎ (i * 32 + 32 ≤ j)
    → stored_entry b i none first size j ≡ b j
unfolding stored_entry put_cluster put_size put16 put32
stored_entry-outside b i first size j h = ground arith

stored_entry-size :
    (b : Bytes) (i first size : ℕ)
    → size < 2 ^ 32
    → entry_size (stored_entry b i none first size) i ≡ size
unfolding stored_entry put_size entry_size
stored_entry-size b i first size h = get32-put32_self (put_cluster b i first) (i * 32 + 28) size h

get16-put16_self : (b : Bytes) (i v : ℕ) → v < 2 ^ 16 → get16 (put16 b i v) i ≡ v
unfolding get16 put16
get16-put16_self b i v h = ground arith

get16-put16_ne :
    (b : Bytes) (i j v : ℕ) → (i + 2 ≤ j) ⊎ (j + 2 ≤ i) → get16 (put16 b i v) j ≡ get16 b j
unfolding get16 put16
get16-put16_ne b i j v h = ground arith

get16-put32_ne :
    (b : Bytes) (i j v : ℕ) → (i + 4 ≤ j) ⊎ (j + 2 ≤ i) → get16 (put32 b i v) j ≡ get16 b j
unfolding get16 put32
get16-put32_ne b i j v h = ground arith

stored_entry-cluster :
    (b : Bytes) (i first size : ℕ)
    → first < 2 ^ 32
    → entry_cluster (stored_entry b i none first size) i ≡ first
unfolding stored_entry put_size put_cluster entry_cluster
stored_entry-cluster b i first size h =
    let low_half = put16 (put16 b (i * 32 + 20) (first / 65536)) (i * 32 + 26) (first % 65536) in
    let h0 = get16-put32_ne low_half (i * 32 + 28) (i * 32 + 20) size (inr (omega arith)) in
    let h1 =
      get16-put16_ne (put16 b (i * 32 + 20) (first / 65536)) (i * 32 + 26) (i * 32 + 20)
        (first % 65536) (inr (omega arith)) in
    let h2 = get16-put16_self b (i * 32 + 20) (first / 65536) (omega arith) in
    let l0 = get16-put32_ne low_half (i * 32 + 28) (i * 32 + 26) size (inr (omega arith)) in
    let l1 =
      get16-put16_self (put16 b (i * 32 + 20) (first / 65536)) (i * 32 + 26) (first % 65536)
        (omega arith) in
    omega (arith, h0 ∙ h1 ∙ h2, l0 ∙ l1)

get16_ext :
    (b b' : Bytes) (j : ℕ) → ((i : ℕ) → j ≤ i → i < j + 2 → b i ≡ b' i) → get16 b j ≡ get16 b' j
unfolding get16
get16_ext b b' j h =
    omega (arith, h j (omega arith) (omega arith), h (j + 1) (omega arith) (omega arith))

-- The entry of a cluster depends on its own 32 bytes alone.
pub entry_cluster_ext :
    (b b' : Bytes) (i : ℕ)
    → ((j : ℕ) → i * 32 ≤ j → j < i * 32 + 32 → b j ≡ b' j)
    → entry_cluster b i ≡ entry_cluster b' i
unfolding entry_cluster
entry_cluster_ext b b' i h =
    let hi = get16_ext b b' (i * 32 + 20) (λ j p q. h j (omega arith) (omega arith)) in
    let lo = get16_ext b b' (i * 32 + 26) (λ j p q. h j (omega arith) (omega arith)) in
    omega (arith, hi, lo)

get32_ext_at :
    (b b' : Bytes) (j : ℕ) → ((i : ℕ) → j ≤ i → i < j + 4 → b i ≡ b' i) → get32 b j ≡ get32 b' j
unfolding get32
get32_ext_at b b' j h = omega (
  arith,
  h j (omega arith) (omega arith),
  h (j + 1) (omega arith) (omega arith),
  h (j + 2) (omega arith) (omega arith),
  h (j + 3) (omega arith) (omega arith),
)

pub entry_size_ext :
    (b b' : Bytes) (i : ℕ)
    → ((j : ℕ) → i * 32 ≤ j → j < i * 32 + 32 → b j ≡ b' j)
    → entry_size b i ≡ entry_size b' i
unfolding entry_size
entry_size_ext b b' i h = get32_ext_at b b' (i * 32 + 28) (λ j p q. h j (omega arith) (omega arith))

-- The stored entry at a position of a volume, and all that it leaves as it was.
pub record EntryStored (g : Geometry) (disk disk' : ℕ → Bytes) (pos : Pos) (first size : ℕ)
    : Type 0 where
  pub cluster : entry_cluster (cluster_byte g disk' pos.clus) pos.idx ≡ first
  pub length : entry_size (cluster_byte g disk' pos.clus) pos.idx ≡ size
  pub neighbours :
      (i : ℕ)
      → i < g.sec_per_clus * 512
      → (i < pos.idx * 32) ⊎ (pos.idx * 32 + 32 ≤ i)
      → cluster_byte g disk' pos.clus i ≡ cluster_byte g disk pos.clus i
  pub bytes : SameBytes g disk disk' pos.clus
  pub entries : (b : ℕ) → IsCluster g b → fat_entry g disk' b ≡ fat_entry g disk b

module _ (d : SectorDevice) (size : ℕ) (content : d.Dev → ℕ → Bytes)
    (rel : IsReliable d size content) where
  -- On a well-formed volume and a working device, store_entry without a name succeeds: the entry
  -- then has the first cluster and the size given, and no other byte of a cluster and no entry of
  -- the table changes.
  pub store_entry-EntryStored :
      (pos : Pos) (first n : ℕ) (s : Fs d) {g : Geometry} {disk : ℕ → Bytes}
      → IsVolume g size
      → s.geo ≡ g
      → content s.dev ≡ disk
      → IsCluster g pos.clus
      → pos.idx * 32 + 32 ≤ g.sec_per_clus * 512
      → first < 2 ^ 32
      → n < 2 ^ 32
      → ((store_entry d pos none first n s).0 ≡ true)
        × ((store_entry d pos none first n s).1.geo ≡ g)
        × EntryStored g disk (content (store_entry d pos none first n s).1.dev) pos first n
  unfolding store_entry
  store_entry-EntryStored pos first n s {g} {disk} vol p q k inside f32 n32 =
      let b = (read_io d pos.clus s).0 in
      let new = stored_entry b pos.idx none first n in
      let (l0, l1, l2) = read_io-Loads d size content rel pos.clus s p q vol k in
      let (w0, w1, w2, w3, w4) =
        write_io-Stores d size content rel pos.clus new (read_io d pos.clus s).1 l1 l2 vol k in
      (
        w0,
        w1,
        record {
          cluster =
              entry_cluster_ext _ new pos.idx (λ j h h'. w3 j (omega arith))
              ∙ stored_entry-cluster b pos.idx first n f32;
          length =
              entry_size_ext _ new pos.idx (λ j h h'. w3 j (omega arith))
              ∙ stored_entry-size b pos.idx first n n32;
          neighbours =
              λ i small out. w3 i small ∙ stored_entry-outside b pos.idx first n i out ∙ l0 i small;
          bytes = w4;
          entries = w2;
        },
      )
