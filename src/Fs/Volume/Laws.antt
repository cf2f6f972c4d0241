-- ===== src/Fs/Volume/Laws.antt =====
-- A well-formed volume on a device that works: what whole clusters read and write.
use zareboon_os.Prelude.{
  ℕ, zero, suc, ◌+◌, ◌-◌, ◌*◌, ◌/◌, ◌%◌, ◌^◌, ◌<◌, ◌≤◌, ◌≡◌, refl, ap, ◌∙◌, fun_ext, Bool, true,
  false, ◌==◌, ltb, arith, Bool-cases, inl, inr, ◌⊎◌, ltb→lt, ==_iff,
}
use zareboon_os.Fs.Device.{SectorDevice, Bytes, IsReliable}
use zareboon_os.Fs.Bytes.{copy}
use zareboon_os.Fs.Volume.{
  Geometry, Fs, calculate_lba, read_sectors, read_cluster, write_sectors, write_cluster,
}

-- A volume laid out as FAT32 has it, on a device of `size` sectors: the reserved sectors, the
-- copies of a table of at most 2 ^ 28 entries with one for every cluster, and the clusters, of at most
-- 32 sectors each: the static buffers of fs.c that hold a cluster have 16384 bytes.
pub record IsVolume (g : Geometry) (size : ℕ) : Type 0 where
  pub is_ready : g.ready ≡ true
  pub sector_bytes : g.bytes_per_sec ≡ 512
  pub spc_pos : 0 < g.sec_per_clus
  pub spc_small : g.sec_per_clus ≤ 32
  pub fats_pos : 0 < g.num_fats
  pub data_start : g.data_sec ≡ g.reserved_sectors + g.num_fats * g.fat_size
  pub table_small : g.fat_size ≤ 2 ^ 21
  pub entries : (g.total_clusters + 2) * 4 ≤ g.fat_size * 512
  pub fits : g.partition_lba + g.data_sec + g.total_clusters * g.sec_per_clus ≤ size

-- The clusters that the data area holds are numbered from 2.
abbrev pub IsCluster : Geometry → ℕ → Type 0
IsCluster g c = (2 ≤ c) × (c < g.total_clusters + 2)

-- The first sector of a cluster, and its byte `i`.
abbrev pub cluster_lba : Geometry → ℕ → ℕ
cluster_lba g c = g.partition_lba + g.data_sec + (c - 2) * g.sec_per_clus

abbrev pub cluster_byte : Geometry → (ℕ → Bytes) → ℕ → Bytes
cluster_byte g disk c i = disk (cluster_lba g c + i / 512) (i % 512)

pub rows_fit : (a b s : ℕ) → a < b → a * s + s ≤ b * s
rows_fit a b s h = grind arith

pub count_fits : (b s : ℕ) → 0 < s → b ≤ b * s
count_fits b s h = grind arith

module _ (d : SectorDevice) (size : ℕ) (content : d.Dev → ℕ → Bytes)
    (rel : IsReliable d size content) where
  -- A run of sectors read into a buffer.
  record Filled (left i lba : ℕ) (dev : d.Dev) (old : Bytes) (out : Bytes × d.Dev) : Type 0 where
    same : content out.1 ≡ content dev
    inside :
        (j : ℕ)
        → i * 512 ≤ j
        → j < (i + left) * 512
        → out.0 j ≡ content dev (lba + j / 512) (j % 512)
    outside : (j : ℕ) → (j < i * 512) ⊎ ((i + left) * 512 ≤ j) → out.0 j ≡ old j

  Filled-suc :
      {left i lba : ℕ} {dev dev1 : d.Dev} {old : Bytes} {out : Bytes × d.Dev}
      → content dev1 ≡ content dev
      → Filled left (i + 1) lba dev1 (copy old (i * 512) (content dev (lba + i)) 0 512) out
      → Filled (suc left) i lba dev old out
  unfolding copy
  Filled-suc {left} {i} {lba} {dev} {dev1} {old} {out} keep f = record {
    same = f.same ∙ keep;
    inside = λ j p q. elim (Bool-cases (ltb j ((i + 1) * 512))) [
      | inl e ↦ f.outside j (inl (ltb→lt _ _ e)) ∙ here j p (ltb→lt _ _ e)
      | inr e ↦
          f.inside j (ground arith) (omega arith)
          ∙ ap (λ (k : ℕ → Bytes). k (lba + j / 512) (j % 512)) keep
    ];
    outside = λ j p. f.outside j (omega arith) ∙ ground arith;
  }
    where
      here :
          (j : ℕ)
          → i * 512 ≤ j
          → j < (i + 1) * 512
          → copy old (i * 512) (content dev (lba + i)) 0 512 j
            ≡ content dev (lba + j / 512) (j % 512)
      here j p q =
          let row : lba + j / 512 ≡ lba + i = omega arith in
          let col : j % 512 ≡ j - i * 512 = omega arith in rw (row, col) (ground arith)

  read_sectors-Filled :
      (left i lba : ℕ) (dev : d.Dev) (old : Bytes)
      → lba + i + left ≤ size
      → Filled left i lba dev old (read_sectors d left i lba dev old)
  unfolding read_sectors
  read_sectors-Filled zero i lba dev old h = record {
    same = refl;
    inside = λ j p q. absurd (omega arith);
    outside = λ j p. refl;
  }
  read_sectors-Filled (suc left) i lba dev old h =
      let wrap : (lba + i) % 2 ^ 32 ≡ lba + i = omega (arith, rel.lba28) in
      rw (wrap, rel.read_value dev (lba + i) (omega arith))
        (Filled-suc (fun_ext (λ l. rel.read_keeps dev (lba + i) l)) (
          read_sectors-Filled left (i + 1) lba (d.read dev (lba + i)).1
            (copy old (i * 512) (content dev (lba + i)) 0 512) (omega arith)))

  calculate_lba_lem :
      (g : Geometry) (c : ℕ)
      → IsVolume g size
      → IsCluster g c
      → (calculate_lba g c ≡ cluster_lba g c) × (cluster_lba g c + g.sec_per_clus ≤ size)
  unfolding calculate_lba
  calculate_lba_lem g c v (lo, hi) =
      let room = rows_fit (c - 2) g.total_clusters g.sec_per_clus (omega arith) in
      let few = count_fits g.total_clusters g.sec_per_clus v.spc_pos in
      let index : (c + 2 ^ 32 - 2) % 2 ^ 32 ≡ c - 2 = omega (arith, rel.lba28, few) in
      (rw index (omega (arith, rel.lba28, room)), omega (arith, room))

  -- On a well-formed volume and a working device, for a cluster of the data area, read_cluster
  -- fills the cluster's part of the buffer with the bytes of the volume, leaves the
  -- rest of the buffer, the contents of the device and all else of the state as they were. No byte
  -- past the 16384 of the code's arrays is touched, since a cluster has 32 sectors at most.
  pub read_cluster_lem :
      (c : ℕ) (old : Bytes) (s : Fs d)
      → IsVolume s.geo size
      → IsCluster s.geo c
      → ((i : ℕ)
          → i < s.geo.sec_per_clus * 512
          → (read_cluster d c old s).0 i ≡ cluster_byte s.geo (content s.dev) c i)
        × ((i : ℕ) → s.geo.sec_per_clus * 512 ≤ i → (read_cluster d c old s).0 i ≡ old i)
        × (content (read_cluster d c old s).1.dev ≡ content s.dev)
        × ((read_cluster d c old s).1 ≡ record s { dev = (read_cluster d c old s).1.dev })
  unfolding read_cluster
  read_cluster_lem c old s v k =
      let (at, room) = calculate_lba_lem s.geo c v k in
      let f =
        read_sectors-Filled s.geo.sec_per_clus 0 (cluster_lba s.geo c) s.dev old
          (omega (arith, room)) in
      rw (v.is_ready, at)
        (
          λ i h. f.inside i (omega arith) (omega arith),
          λ i h. f.outside i (inr (omega arith)),
          f.same,
          refl,
        )

  -- The sectors behind one written so far, and those that were not touched.
  record Stored (left i lba : ℕ) (dev : d.Dev) (b : Bytes) (out : Bool × d.Dev) : Type 0 where
    done : out.0 ≡ true
    inside :
        (l k : ℕ)
        → lba + i ≤ l
        → l < lba + i + left
        → k < 512
        → content out.1 l k ≡ b ((l - lba) * 512 + k)
    outside :
        (l k : ℕ)
        → (l < lba + i) ⊎ (lba + i + left ≤ l)
        → k < 512
        → content out.1 l k ≡ content dev l k

  write_sectors-suc :
      (left i lba : ℕ) (b : Bytes) (dev : d.Dev)
      → lba + i < size
      → write_sectors d (suc left) i lba b dev
        ≡ write_sectors d left (i + 1) lba b (d.write dev (lba + i) (λ k. b (i * 512 + k))).1
  unfolding write_sectors
  write_sectors-suc left i lba b dev h =
      let wrap : (lba + i) % 2 ^ 32 ≡ lba + i = omega (arith, rel.lba28) in
      rw (wrap, rel.write_done dev (lba + i) (λ k. b (i * 512 + k)) h)

  write_sectors-Stored :
      (left i lba : ℕ) (b : Bytes) (dev : d.Dev)
      → lba + i + left ≤ size
      → Stored left i lba dev b (write_sectors d left i lba b dev)
  unfolding write_sectors
  write_sectors-Stored zero i lba b dev h = record {
    done = refl;
    inside = λ l k p q r. absurd (omega arith);
    outside = λ l k p r. refl;
  }
  write_sectors-Stored (suc left) i lba b dev h =
      let row = λ (k : ℕ). b (i * 512 + k) in
      let rest =
        write_sectors-Stored left (i + 1) lba b (d.write dev (lba + i) row).1 (omega arith) in
      rw (write_sectors-suc left i lba b dev (omega arith)) (record {
        done = rest.done;
        inside = λ l k p q r. elim (Bool-cases (l == lba + i)) [
          | inl e ↦
              let here : l ≡ lba + i = (==_iff _ _).0 e in
              rest.outside l k (omega arith) r
              ∙ rel.write_stores dev (lba + i) row l k (omega arith) r
              ∙ rw e (ap b (omega arith))
          | inr e ↦ rest.inside l k (ground arith) (omega arith) r
        ];
        outside = λ l k p r.
            let other : (l == lba + i) ≡ false = ground arith in
            rest.outside l k (omega arith) r
            ∙ rel.write_stores dev (lba + i) row l k (omega arith) r
            ∙ rw other;
      })

  -- On a well-formed volume and a working device, for a cluster of the data area, write_cluster
  -- succeeds, stores the buffer's bytes as those of the cluster, changes no byte of any other
  -- sector, and leaves all of the state but the device as it was.
  pub write_cluster_lem :
      (c : ℕ) (b : Bytes) (s : Fs d)
      → IsVolume s.geo size
      → IsCluster s.geo c
      → ((write_cluster d c b s).0 ≡ true)
        × ((i : ℕ)
            → i < s.geo.sec_per_clus * 512
            → cluster_byte s.geo (content (write_cluster d c b s).1.dev) c i ≡ b i)
        × ((l k : ℕ)
            → (l < cluster_lba s.geo c) ⊎ (cluster_lba s.geo c + s.geo.sec_per_clus ≤ l)
            → k < 512
            → content (write_cluster d c b s).1.dev l k ≡ content s.dev l k)
        × ((write_cluster d c b s).1 ≡ record s { dev = (write_cluster d c b s).1.dev })
  unfolding write_cluster
  write_cluster_lem c b s v k =
      let (at, room) = calculate_lba_lem s.geo c v k in
      let f =
        write_sectors-Stored s.geo.sec_per_clus 0 (cluster_lba s.geo c) b s.dev
          (omega (arith, room)) in
      rw (v.is_ready, at)
        (
          f.done,
          λ i h.
              f.inside (cluster_lba s.geo c + i / 512) (i % 512) (omega arith) (omega arith)
                (omega arith)
              ∙ ap b (omega arith),
          λ l j p r. f.outside l j (omega arith) r,
          refl,
        )
