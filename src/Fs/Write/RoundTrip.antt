-- ===== src/Fs/Write/RoundTrip.antt =====
-- A file written by fs_write_file and read by fs_read_file.
use mathlib.Core.Path.{subst}
use zareboon_os.Prelude.{
  ℕ, ◌+◌, ◌*◌, ◌<◌, ◌≤◌, ◌≡◌, ◌≢◌, ◌^◌, refl, ap, sym, ◌∙◌, Option, none, some, arith, inl, inr,
  min, List,
}
use zareboon_os.Fs.Device.{SectorDevice, Bytes, IsReliable}
use zareboon_os.Fs.Volume.{Geometry, Fs}
use zareboon_os.Fs.Volume.Laws.{IsVolume, IsCluster, cluster_byte}
use zareboon_os.Fs.Fat.Laws.{fat_entry}
use zareboon_os.Fs.Entries.{Code, ok, FileInfo, entry_cluster, entry_size}
use zareboon_os.Fs.Read.{fs_read_file}
use zareboon_os.Fs.Read.Laws.{chain_byte, capacity, Reads, fs_read_file-Reads}
use zareboon_os.Fs.Write.{Pos, write_at}
use zareboon_os.Fs.Write.Written.{FileStored, Written, write_at-Written}

-- The file that the entry at `pos` describes.
abbrev pub file_at : Geometry → (ℕ → Bytes) → Pos → FileInfo
file_at g disk pos = record {
  start_cluster = entry_cluster (cluster_byte g disk pos.clus) pos.idx;
  file_size = entry_size (cluster_byte g disk pos.clus) pos.idx;
}

-- A read that ends with the first `n` bytes of `src` in `dest`, and no other byte of it changed.
abbrev pub ReadsBack : {d : SectorDevice} → Bytes → ℕ → Bytes → Option ((Bytes × ℕ) × Fs d) → Type 0
ReadsBack src n dest none = ⊥
ReadsBack src n dest (some ((out, count), s)) =
    (count ≡ n) × ((i : ℕ) → i < n → out i ≡ src i) × ((j : ℕ) → n ≤ j → out j ≡ dest j)

module _ (d : SectorDevice) (size : ℕ) (content : d.Dev → ℕ → Bytes)
    (rel : IsReliable d size content) where
  stored_of :
      (g : Geometry) (disk : ℕ → Bytes) (pos : Pos) (src : Bytes) (n : ℕ) (s : Fs d)
      (o : Option (Code × Fs d))
      → o ≡ some (ok, s)
      → Written d size content rel g disk pos src n o
      → (s.geo ≡ g) × FileStored g disk (content s.dev) pos src n
  stored_of g disk pos src n s o e w =
      taken (subst (Written d size content rel g disk pos src n) e w)
    where
      taken :
          Written d size content rel g disk pos src n (some (ok, s))
          → (s.geo ≡ g) × FileStored g disk (content s.dev) pos src n
      taken (p, kept, inl (r, f)) = (p, f)
      taken (p, kept, inr (r, f)) = ground arith

  back :
      (g : Geometry) (disk : ℕ → Bytes) (cs : List ℕ) (src dest : Bytes) (n k : ℕ)
      → k ≤ n
      → n ≤ capacity g cs
      → ((i : ℕ) → i < n → chain_byte g disk cs i ≡ src i)
      → (o : Option ((Bytes × ℕ) × Fs d)) → Reads d size content rel g disk cs k 0 dest o
      → ReadsBack src k dest o
  back g disk cs src dest n k le room bytes none h = h
  back g disk cs src dest n k le room bytes (some ((out, count), s)) (c, inside, outside, keeps) = (
    omega arith,
    λ i h. ap out (omega arith) ∙ inside i (omega arith) ∙ bytes i (omega arith),
    λ j h. outside j (inr (omega arith)),
  )

  -- On a well-formed volume, of at most 32 sectors a cluster, and a working device, when the write of
  -- a file of `n` bytes, fewer than 2 ^ 32, at an entry in a cluster in use answers FS_OK, both with
  -- more fuel than bytes, fs_read_file of that entry ends
  -- and returns the bytes that were written, up to `max_size`, and their number, and changes no
  -- byte of `dest` behind them.
  pub fs_read_file-write_at :
      (fuel m n max_size : ℕ) (pos : Pos) (src dest : Bytes) (s s' : Fs d)
      → IsVolume s.geo size
      → IsCluster s.geo pos.clus
      → fat_entry s.geo (content s.dev) pos.clus ≢ 0
      → pos.idx * 32 + 32 ≤ s.geo.sec_per_clus * 512
      → n < 2 ^ 32
      → n < fuel
      → n < m
      → write_at d fuel pos src n s ≡ some (ok, s')
      → ReadsBack src
          (min n max_size)
          dest
          (fs_read_file d m (file_at s'.geo (content s'.dev) pos) dest max_size s')
  fs_read_file-write_at fuel m n max_size pos src dest s s' vol k used inside n32 f0 f1 e =
      let (p, f) =
        stored_of s.geo (content s.dev) pos src n s' _ e (
          write_at-Written d size content rel fuel n pos src s vol refl refl k used inside n32
            f0) in
      let h =
        subst (λ (g : Geometry). FileStored g (content s.dev) (content s'.dev) pos src n) (sym p)
          f in
      let read =
        fs_read_file-Reads d size content rel h.clusters m max_size
          (file_at s'.geo (content s'.dev) pos) dest s'
          (subst (λ (g : Geometry). IsVolume g size) (sym p) vol) h.chain (omega (arith, h.few)) in
      back s'.geo (content s'.dev) h.clusters src dest n (min n max_size) (omega arith) h.room
        h.bytes _
        (subst
          (λ k.
            Reads d size content rel s'.geo (content s'.dev) h.clusters (min k max_size) 0 dest
              (fs_read_file d m (file_at s'.geo (content s'.dev) pos) dest max_size s'))
          h.size read)
