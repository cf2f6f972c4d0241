-- ===== src/Fs/Write/Effects.antt =====
-- What the steps of alloc_and_write do to a volume `g` whose contents are `disk`: to the entries of
-- its first table, and to the bytes of its clusters.
use mathlib.Core.Path.{subst₂}
use zareboon_os.Prelude.{
  ℕ, ◌+◌, ◌-◌, ◌*◌, ◌/◌, ◌%◌, ◌^◌, ◌<◌, ◌≤◌, ◌≡◌, ◌≢◌, ap, Bool, true, ltb, arith, Bool-cases, inl,
  inr, ◌⊎◌, ltb→lt,
}
use zareboon_os.Fs.Device.{SectorDevice, Bytes, IsReliable}
use zareboon_os.Fs.Volume.{Geometry, Fs}
use zareboon_os.Fs.Volume.Laws.{
  IsVolume, IsCluster, cluster_byte, cluster_lba, rows_fit, count_fits, read_cluster_lem,
  write_cluster_lem,
}
use zareboon_os.Fs.Fat.{is_data, find_free_cluster, fat_set_entry}
use zareboon_os.Fs.Fat.Laws.{fat_entry, entry_lba, entry_lba_fits, get32_ext}
use zareboon_os.Fs.Fat.Entry.{fat_set_entry-EntrySet}
use zareboon_os.Fs.Fat.Free.{IsLowest, find_free_cluster-IsLowest}
use zareboon_os.Fs.Read.{read_io}
use zareboon_os.Fs.Write.{write_io}

-- The clusters of two volumes hold the same bytes, those of `c` set aside.
abbrev pub SameBytes : Geometry → (ℕ → Bytes) → (ℕ → Bytes) → ℕ → Type 0
SameBytes g disk disk' c =
    (b i : ℕ)
    → IsCluster g b
    → b ≢ c
    → i < g.sec_per_clus * 512
    → cluster_byte g disk' b i ≡ cluster_byte g disk b i

pub clusters_apart :
    (g : Geometry) (b c i : ℕ)
    → IsCluster g b
    → IsCluster g c
    → b ≢ c
    → i < g.sec_per_clus * 512
    → (cluster_lba g b + i / 512 < cluster_lba g c)
      ⊎ (cluster_lba g c + g.sec_per_clus ≤ cluster_lba g b + i / 512)
clusters_apart g b c i (b2, bt) (c2, ct) ne small = elim (Bool-cases (ltb b c)) [
  | inl e ↦
      let lt : b < c = ltb→lt _ _ e in
      inl (omega (arith, rows_fit (b - 2) (c - 2) g.sec_per_clus (omega arith)))
  | inr e ↦
      let lt : c < b = ground arith in
      inr (omega (arith, rows_fit (c - 2) (b - 2) g.sec_per_clus (omega arith)))
]

module _ (d : SectorDevice) (size : ℕ) (content : d.Dev → ℕ → Bytes)
    (rel : IsReliable d size content) where
  -- The number of a cluster is none of the marks from 0x0FFFFFF8 on: a volume of LBA28 has fewer.
  pub cluster_below_marks :
      (g : Geometry) (c : ℕ)
      → IsVolume g size
      → IsCluster g c
      → (c < 0x0FFFFFF8) × (is_data c ≡ true)
  cluster_below_marks g c v (lo, hi) =
      let few = count_fits g.total_clusters g.sec_per_clus v.spc_pos in
      let room = rows_fit 0 g.num_fats g.fat_size v.fats_pos in
      let below : c < 0x0FFFFFF8 =
        omega (arith, rel.lba28, few, room, v.fits, v.data_start, v.entries) in
      (below, ground arith)

  fat_entry_same :
      (g : Geometry) (disk disk' : ℕ → Bytes) (b : ℕ)
      → IsVolume g size
      → IsCluster g b
      → ((l i : ℕ) → l < g.partition_lba + g.data_sec → i < 512 → disk' l i ≡ disk l i)
      → fat_entry g disk' b ≡ fat_entry g disk b
  fat_entry_same g disk disk' b v k same =
      let (t0, t1, t2, t3) = entry_lba_fits d size content rel g 0 b v k v.fats_pos in
      ap (λ (n : ℕ). n % 2 ^ 28)
        (get32_ext (disk' (entry_lba g 0 b)) (disk (entry_lba g 0 b)) (b * 4 % 512)
          (λ i h. same (entry_lba g 0 b) i t1 h) (omega arith))

  abbrev Finds : Fs d → Geometry → (ℕ → Bytes) → Type 0
  Finds s g disk =
      IsVolume g size
      → IsLowest (fat_entry g disk) (g.total_clusters + 2) 0 (find_free_cluster d s).0
        × ((find_free_cluster d s).1.geo ≡ g)
        × (content (find_free_cluster d s).1.dev ≡ disk)

  pub find_free_cluster-Finds :
      (s : Fs d) {g : Geometry} {disk : ℕ → Bytes}
      → s.geo ≡ g
      → content s.dev ≡ disk
      → Finds s g disk
  find_free_cluster-Finds s p q =
      subst₂ (λ h t. Finds s h t) p q
        λ vol.
          let (low, keeps, frame) = find_free_cluster-IsLowest d size content rel s vol in
          (low, ap (λ (t : Fs d). t.geo) frame, keeps)

  abbrev Marks : ℕ → ℕ → Bool × Fs d → Geometry → (ℕ → Bytes) → Type 0
  Marks c v out g disk =
      IsVolume g size
      → IsCluster g c
      → (out.0 ≡ true)
        × (out.1.geo ≡ g)
        × (fat_entry g (content out.1.dev) c ≡ v % 2 ^ 28)
        × ((b : ℕ) → IsCluster g b → b ≢ c → fat_entry g (content out.1.dev) b ≡ fat_entry g disk b)
        × ((b i : ℕ)
            → IsCluster g b
            → i < g.sec_per_clus * 512
            → cluster_byte g (content out.1.dev) b i ≡ cluster_byte g disk b i)

  pub fat_set_entry-Marks :
      (c v : ℕ) (s : Fs d) {g : Geometry} {disk : ℕ → Bytes}
      → s.geo ≡ g
      → content s.dev ≡ disk
      → Marks c v (fat_set_entry d c v s) g disk
  fat_set_entry-Marks c v s p q =
      subst₂ (λ h t. Marks c v (fat_set_entry d c v s) h t) p q
        λ vol k.
          let e = fat_set_entry-EntrySet d size content rel c v s vol k in
          (
            e.done,
            ap (λ (t : Fs d). t.geo) e.frame,
            e.set 0 vol.fats_pos,
            λ b kb ne. e.others 0 b kb ne,
            λ b i kb small.
                e.outside (cluster_lba s.geo b + i / 512) (i % 512) (inr (omega arith))
                  (omega arith),
          )

  abbrev Stores : ℕ → Bytes → Bool × Fs d → Geometry → (ℕ → Bytes) → Type 0
  Stores c b out g disk =
      IsVolume g size
      → IsCluster g c
      → (out.0 ≡ true)
        × (out.1.geo ≡ g)
        × ((e : ℕ) → IsCluster g e → fat_entry g (content out.1.dev) e ≡ fat_entry g disk e)
        × ((i : ℕ) → i < g.sec_per_clus * 512 → cluster_byte g (content out.1.dev) c i ≡ b i)
        × SameBytes g disk (content out.1.dev) c

  pub write_io-Stores :
      (c : ℕ) (b : Bytes) (s : Fs d) {g : Geometry} {disk : ℕ → Bytes}
      → s.geo ≡ g
      → content s.dev ≡ disk
      → Stores c b (write_io d c b s) g disk
  unfolding write_io
  write_io-Stores c b s p q =
      subst₂ (λ h t. Stores c b (write_io d c b s) h t) p q
        λ vol k.
          let (done, inside, outside, frame) =
            write_cluster_lem d size content rel c b (record s { io_buf = b }) vol k in
          (
            done,
            ap (λ (t : Fs d). t.geo) frame,
            λ e ke.
                fat_entry_same s.geo (content s.dev) _ e vol ke
                  (λ l i low small. outside l i (inl (omega arith)) small),
            inside,
            λ e i ke ne small.
                outside (cluster_lba s.geo e + i / 512) (i % 512)
                  (clusters_apart s.geo e c i ke k ne small) (omega arith),
          )

  abbrev Loads : ℕ → Fs d → Geometry → (ℕ → Bytes) → Type 0
  Loads c s g disk =
      IsVolume g size
      → IsCluster g c
      → ((i : ℕ) → i < g.sec_per_clus * 512 → (read_io d c s).0 i ≡ cluster_byte g disk c i)
        × ((read_io d c s).1.geo ≡ g)
        × (content (read_io d c s).1.dev ≡ disk)

  pub read_io-Loads :
      (c : ℕ) (s : Fs d) {g : Geometry} {disk : ℕ → Bytes}
      → s.geo ≡ g
      → content s.dev ≡ disk
      → Loads c s g disk
  unfolding read_io
  read_io-Loads c s p q =
      subst₂ (λ h t. Loads c s h t) p q
        λ vol k.
          let (bytes, rest, keeps, frame) =
            read_cluster_lem d size content rel c s.io_buf s vol k in
          (bytes, ap (λ (t : Fs d). t.geo) frame, keeps)
