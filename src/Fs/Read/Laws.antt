-- ===== src/Fs/Read/Laws.antt =====
-- fs_read_file on a well-formed volume: the bytes of the chain's clusters, one after the other.
use mathlib.Core.Path.{subst₂}
use zareboon_os.Prelude.{
  ℕ, zero, suc, ◌+◌, ◌-◌, ◌*◌, ◌<◌, ◌≤◌, ◌≡◌, refl, ap, sym, ◌∙◌, true, false, ◌&&◌, Option, none,
  some, if◌then◌else◌, ltb, arith, Bool-cases, inl, inr, ◌⊎◌, ltb→lt, List, [], ◌∷◌, length, min,
}
use zareboon_os.Fs.Device.{SectorDevice, Bytes, IsReliable}
use zareboon_os.Fs.Bytes.{copy}
use zareboon_os.Fs.Volume.{Geometry, Fs, cluster_size}
use zareboon_os.Fs.Volume.Laws.{IsVolume, IsCluster, cluster_byte, read_cluster_lem}
use zareboon_os.Fs.Fat.{is_data, get_next_cluster}
use zareboon_os.Fs.Fat.Chain.{Chain, get_next_cluster-Nexts}
use zareboon_os.Fs.Entries.{FileInfo}
use zareboon_os.Fs.Read.{read_file_cluster, read_loop, fs_read_file}

-- Byte `i` of the clusters listed, laid one after the other, and how many there are.
abbrev pub chain_byte : Geometry → (ℕ → Bytes) → List ℕ → Bytes
chain_byte g disk [] i = 0
chain_byte g disk (c ∷ cs) i =
    if ltb i (g.sec_per_clus * 512)
    then cluster_byte g disk c i
    else chain_byte g disk cs (i - g.sec_per_clus * 512)

abbrev pub capacity : Geometry → List ℕ → ℕ
capacity g [] = 0
capacity g (c ∷ cs) = g.sec_per_clus * 512 + capacity g cs

pub cluster_size_lem :
    (g : Geometry) (size : ℕ) → IsVolume g size → cluster_size g ≡ g.sec_per_clus * 512
unfolding cluster_size
cluster_size_lem g size v = rw v.sector_bytes (omega (arith, v.spc_small))

module _ (d : SectorDevice) (size : ℕ) (content : d.Dev → ℕ → Bytes)
    (rel : IsReliable d size content) where
  -- How a read of `left` bytes to offset `total` of `dest` ends: the bytes read are the chain's
  -- first ones, as many as asked for and present, no other byte of `dest` changes, and neither do
  -- the contents of the device.
  abbrev pub Reads :
      Geometry → (ℕ → Bytes) → List ℕ → ℕ → ℕ → Bytes → Option ((Bytes × ℕ) × Fs d) → Type 0
  Reads g disk cs left total dest none = ⊥
  Reads g disk cs left total dest (some ((out, n), s)) =
      (n ≡ total + min left (capacity g cs))
      × ((i : ℕ) → i < min left (capacity g cs) → out (total + i) ≡ chain_byte g disk cs i)
      × ((j : ℕ) → (j < total) ⊎ (total + min left (capacity g cs) ≤ j) → out j ≡ dest j)
      × (content s.dev ≡ disk)

  abbrev Loads : ℕ → Fs d → Geometry → (ℕ → Bytes) → Type 0
  Loads c s g disk =
      IsVolume g size
      → IsCluster g c
      → ((i : ℕ)
          → i < g.sec_per_clus * 512
          → (read_file_cluster d c s).0 i ≡ cluster_byte g disk c i)
        × ((read_file_cluster d c s).1.geo ≡ g)
        × (content (read_file_cluster d c s).1.dev ≡ disk)

  read_file_cluster-Loads :
      (c : ℕ) (s : Fs d) {g : Geometry} {disk : ℕ → Bytes}
      → s.geo ≡ g
      → content s.dev ≡ disk
      → Loads c s g disk
  unfolding read_file_cluster
  read_file_cluster-Loads c s p q =
      subst₂ (λ h t. Loads c s h t) p q
        λ vol k.
          let (bytes, rest, keeps, frame) =
            read_cluster_lem d size content rel c s.cluster_buf s vol k in
          (bytes, ap (λ (t : Fs d). t.geo) frame, keeps)

  read_loop-step :
      (fuel c left total : ℕ) (dest : Bytes) (s : Fs d)
      → is_data c && ltb 0 left ≡ true
      → read_loop d (suc fuel) c left total dest s
        ≡ read_loop d fuel
            (get_next_cluster d c (read_file_cluster d c s).1).0
            (left - min left (cluster_size s.geo))
            (total + min left (cluster_size s.geo))
            (copy dest total (read_file_cluster d c s).0 0 (min left (cluster_size s.geo)))
            (get_next_cluster d c (read_file_cluster d c s).1).1
  unfolding read_loop
  read_loop-step fuel c left total dest s h = rw (h, read_loop)

  read_loop-stop :
      (fuel c left total : ℕ) (dest : Bytes) (s : Fs d)
      → is_data c && ltb 0 left ≡ false
      → read_loop d (suc fuel) c left total dest s ≡ some ((dest, total), s)
  unfolding read_loop
  read_loop-stop fuel c left total dest s h = rw (h, read_loop)

  Reads-cons :
      (g : Geometry) (disk : ℕ → Bytes) (c : ℕ) (cs : List ℕ) (left total : ℕ) (dest b : Bytes)
      → ((i : ℕ) → i < g.sec_per_clus * 512 → b i ≡ cluster_byte g disk c i)
      → (r : Option ((Bytes × ℕ) × Fs d))
      → Reads g disk cs
          (left - min left (g.sec_per_clus * 512))
          (total + min left (g.sec_per_clus * 512))
          (copy dest total b 0 (min left (g.sec_per_clus * 512)))
          r
      → Reads g disk (c ∷ cs) left total dest r
  unfolding copy
  Reads-cons g disk c cs left total dest b bytes none f = f
  Reads-cons g disk c cs left total dest b bytes (some ((out, n), s))
        (count, inside, outside, keeps) =
      (
        omega (arith, count),
        λ i h. elim (Bool-cases (ltb i (g.sec_per_clus * 512))) [
          | inl e ↦
              let low : i < g.sec_per_clus * 512 = ltb→lt _ _ e in
              rw e (outside (total + i) (omega arith) ∙ ground (arith, bytes i low))
          | inr e ↦
              let high : g.sec_per_clus * 512 ≤ i = ground arith in
              let at : total + min left (g.sec_per_clus * 512) + (i - g.sec_per_clus * 512)
                  ≡ total + i =
                omega arith in
              rw (e, sym at) (inside (i - g.sec_per_clus * 512) (omega arith))
        ],
        λ j h. outside j (omega arith) ∙ ground arith,
        keeps,
      )

  read_loop-Reads :
      (cs : List ℕ) (fuel c left total : ℕ) (dest : Bytes) (s : Fs d) {g : Geometry}
      {disk : ℕ → Bytes}
      → IsVolume g size
      → s.geo ≡ g
      → content s.dev ≡ disk
      → Chain g disk c cs
      → length cs < fuel
      → Reads g disk cs left total dest (read_loop d fuel c left total dest s)
  read_loop-Reads cs zero c left total dest s vol p q h few = absurd (omega arith)
  read_loop-Reads [] (suc fuel) c left total dest s vol p q h few =
      rw (read_loop-stop fuel c left total dest s (ground arith))
        (omega arith, λ i r. absurd (omega arith), λ j r. refl, q)
  read_loop-Reads (b ∷ bs) (suc fuel) c left total dest s {g} {disk} vol p q (e, k, t, h) few =
      elim (Bool-cases (ltb 0 left)) [
        | inl some_left ↦
            let (l0, l1, l2) = read_file_cluster-Loads c s p q vol k in
            let s1 = (read_file_cluster d c s).1 in
            let (n0, n1, n2) = get_next_cluster-Nexts d size content rel c s1 l1 l2 vol k in
            let bytes : cluster_size s.geo ≡ g.sec_per_clus * 512 =
              ap cluster_size p ∙ cluster_size_lem g size vol in
            let tail : Chain g disk (get_next_cluster d c s1).0 bs = rw n0 h in
            rw (e, read_loop-step fuel c left total dest s (ground arith), bytes)
              (Reads-cons g disk c bs left total dest (read_file_cluster d c s).0 l0 _ (
                read_loop-Reads bs fuel (get_next_cluster d c s1).0 _ _ _
                  (get_next_cluster d c s1).1 vol n1 n2 tail (omega arith)))
        | inr none_left ↦
            let zero_left : left ≡ 0 = ground arith in
            rw (read_loop-stop fuel c left total dest s (ground arith))
              (omega arith, λ i r. absurd (omega arith), λ j r. refl, q)
      ]

  -- On a well-formed volume, of at most 32 sectors a cluster, and a working device, when the clusters
  -- of a file form a chain and the fuel exceeds its length, fs_read_file ends
  -- and copies to `dest` the first bytes of the chain, as many as the file's size, `max_size` and
  -- the chain allow, returns their number, and changes neither the rest of `dest` nor the contents
  -- of the device.
  pub fs_read_file-Reads :
      (cs : List ℕ) (fuel max_size : ℕ) (info : FileInfo) (dest : Bytes) (s : Fs d)
      → IsVolume s.geo size
      → Chain s.geo (content s.dev) info.start_cluster cs
      → length cs < fuel
      → Reads s.geo
          (content s.dev)
          cs
          (min info.file_size max_size)
          0
          dest
          (fs_read_file d fuel info dest max_size s)
  unfolding fs_read_file
  fs_read_file-Reads cs fuel max_size info dest s vol h few = simp vol.is_ready (
      read_loop-Reads cs fuel info.start_cluster (min info.file_size max_size) 0 dest s vol refl
        refl h few)
