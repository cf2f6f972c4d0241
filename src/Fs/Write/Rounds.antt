-- ===== src/Fs/Write/Rounds.antt =====
-- One round of the loop of alloc_and_write.
use zareboon_os.Prelude.{
  ℕ, suc, ◌+◌, ◌-◌, ◌*◌, ◌<◌, ◌≡◌, ◌≢◌, refl, ◌∙◌, true, false, some, ◌==◌, if◌then◌else◌, ltb,
  arith, inl, inr, ◌⊎◌, ==_iff, min,
}
use zareboon_os.Fs.Device.{SectorDevice, Bytes, IsReliable}
use zareboon_os.Fs.Volume.{Geometry, Fs, cluster_size}
use zareboon_os.Fs.Volume.Laws.{IsVolume, IsCluster, cluster_byte}
use zareboon_os.Fs.Fat.{no_cluster, find_free_cluster}
use zareboon_os.Fs.Fat.Laws.{fat_entry}
use zareboon_os.Fs.Entries.{ok, nospace}
use zareboon_os.Fs.Write.{fill_cluster, link_cluster, write_io, alloc_loop}
use zareboon_os.Fs.Write.Effects.{find_free_cluster-Finds, write_io-Stores}
use zareboon_os.Fs.Write.Grown.{Linked}
use zareboon_os.Fs.Write.Alloc.{link_cluster-Links}

module _ (d : SectorDevice) (size : ℕ) (content : d.Dev → ℕ → Bytes)
    (rel : IsReliable d size content) where
  abbrev pub found : Fs d → ℕ
  found s = (find_free_cluster d s).0

  abbrev pub linked : ℕ → Fs d → Fs d
  linked prev s = (link_cluster d prev (found s) (find_free_cluster d s).1).1

  abbrev pub filled : ℕ → Bytes → ℕ → ℕ → Fs d → Bytes
  filled prev src from n s =
      fill_cluster (linked prev s).io_buf (cluster_size s.geo) src from (min n (cluster_size s.geo))

  abbrev pub stored : ℕ → Bytes → ℕ → ℕ → Fs d → Fs d
  stored prev src from n s = (write_io d (found s) (filled prev src from n s) (linked prev s)).1

  pub alloc_loop-stop :
      (fuel prev from first : ℕ) (src : Bytes) (s : Fs d)
      → alloc_loop d (suc fuel) prev src from 0 first s ≡ some ((ok, first), s)
  unfolding alloc_loop
  alloc_loop-stop fuel prev from first src s = refl

  pub alloc_loop-full :
      (fuel prev from n first : ℕ) (src : Bytes) (s : Fs d)
      → 0 < n
      → found s ≡ no_cluster
      → alloc_loop d (suc fuel) prev src from n first s
        ≡ some ((nospace, first), (find_free_cluster d s).1)
  unfolding alloc_loop
  alloc_loop-full fuel prev from n first src s pos e =
      let left : ltb 0 n ≡ true = ground arith in
      let none_free : (found s == no_cluster) ≡ true = (==_iff _ _).1 e in
      rw (left, none_free, alloc_loop)

  pub alloc_loop-round :
      (fuel prev from n first : ℕ) (src : Bytes) (s : Fs d)
      → 0 < n
      → found s ≢ no_cluster
      → (link_cluster d prev (found s) (find_free_cluster d s).1).0 ≡ true
      → (write_io d (found s) (filled prev src from n s) (linked prev s)).0 ≡ true
      → alloc_loop d (suc fuel) prev src from n first s
        ≡ alloc_loop d fuel
            (found s)
            src
            (from + min n (cluster_size s.geo))
            (n - min n (cluster_size s.geo))
            (if first == 0 then found s else first)
            (stored prev src from n s)
  unfolding alloc_loop
  alloc_loop-round fuel prev from n first src s pos ne l w =
      let left : ltb 0 n ≡ true = ground arith in
      let some_free : (found s == no_cluster) ≡ false = ground arith in
      rw (left, some_free, l, w, alloc_loop)

  -- What a round leaves, when a free cluster was found.
  abbrev pub Round : Geometry → (ℕ → Bytes) → ℕ → ℕ → Bytes → ℕ → Fs d → Type 0
  Round g disk prev n src from s =
      ((link_cluster d prev (found s) (find_free_cluster d s).1).0 ≡ true)
      × ((write_io d (found s) (filled prev src from n s) (linked prev s)).0 ≡ true)
      × ((stored prev src from n s).geo ≡ g)
      × Linked g disk (content (stored prev src from n s).dev) prev (found s)
      × ((i : ℕ)
          → i < g.sec_per_clus * 512
          → cluster_byte g (content (stored prev src from n s).dev) (found s) i
            ≡ filled prev src from n s i)

  pub round_lem :
      (prev from n : ℕ) (src : Bytes) (s : Fs d) {g : Geometry} {disk : ℕ → Bytes}
      → IsVolume g size
      → s.geo ≡ g
      → content s.dev ≡ disk
      → (prev ≡ 0) ⊎ (IsCluster g prev × (fat_entry g disk prev ≢ 0))
      → IsCluster g (found s)
      → fat_entry g disk (found s) ≡ 0
      → Round g disk prev n src from s
  round_lem prev from n src s {g} {disk} vol p q pk k free =
      let (low, fp, fq) = find_free_cluster-Finds d size content rel s p q vol in
      let apart : found s ≢ prev = apart_of pk in
      let (l0, l1, l2, l3, l4, l5) =
        link_cluster-Links d size content rel prev (found s) (find_free_cluster d s).1 vol fp fq k
          apart (place_of pk) in
      let (w0, w1, w2, w3, w4) =
        write_io-Stores d size content rel (found s) (filled prev src from n s) (linked prev s) l1
          refl vol k in
      (
        l0,
        w0,
        w1,
        record {
          is_new = k;
          was_free = free;
          ends = w2 (found s) k ∙ l2;
          follows = λ kp. w2 prev kp ∙ l3 kp;
          apart = apart;
          others = λ b kb nc np. w2 b kb ∙ l4 b kb nc np;
          bytes = λ b i kb nc small. w4 b i kb nc small ∙ l5 b i kb small;
        },
        w3,
      )
    where
      apart_of : (prev ≡ 0) ⊎ (IsCluster g prev × (fat_entry g disk prev ≢ 0)) → found s ≢ prev
      apart_of (inl z) e = absurd (omega (arith, k))
      apart_of (inr (kp, used)) e = used (rw (← e) free)

      place_of :
          (prev ≡ 0) ⊎ (IsCluster g prev × (fat_entry g disk prev ≢ 0))
          → (prev ≡ 0) ⊎ IsCluster g prev
      place_of (inl z) = inl z
      place_of (inr (kp, used)) = inr kp
