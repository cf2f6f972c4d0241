-- ===== src/Fs/Write/Alloc.antt =====
-- alloc_and_write: the chain that it builds, and the bytes that the chain then holds.
use zareboon_os.Prelude.{
  ℕ, ◌+◌, ◌-◌, ◌*◌, ◌<◌, ◌≤◌, ◌≡◌, ◌≢◌, refl, ap, ◌∙◌, Bool, true, false, ◌==◌, ltb, arith,
  Bool-cases, inl, inr, ◌⊎◌, ltb→lt, List, ◌∷◌, length, min,
}
use zareboon_os.Fs.Device.{SectorDevice, Bytes, IsReliable}
use zareboon_os.Fs.Volume.{Geometry, Fs}
use zareboon_os.Fs.Volume.Laws.{IsVolume, IsCluster, cluster_byte}
use zareboon_os.Fs.Fat.{is_data, no_cluster, fat_set_entry}
use zareboon_os.Fs.Fat.Laws.{fat_entry}
use zareboon_os.Fs.Entries.{Code, ok, nospace}
use zareboon_os.Fs.Read.Laws.{chain_byte, capacity}
use zareboon_os.Fs.Write.{fill_cluster, link_cluster}
use zareboon_os.Fs.Write.Effects.{cluster_below_marks, fat_set_entry-Marks}
use zareboon_os.Fs.Write.Grown.{Grown, Linked, Grown-cons}

-- `size` bytes of the source, from `from` on, were put into a chain of new clusters that begins at
-- `head`; or the volume is full.
pub record Allocated (g : Geometry) (disk : ℕ → Bytes) (prev size : ℕ) (src : Bytes) (from head : ℕ)
    (r : Code) (disk' : ℕ → Bytes) : Type 0 where
  pub clusters : List ℕ
  pub grown : Grown g disk disk' prev head clusters
  pub few : length clusters ≤ size
  pub ending :
      ((r ≡ ok)
        × (size ≤ capacity g clusters)
        × ((i : ℕ) → i < size → chain_byte g disk' clusters i ≡ src (from + i)))
      ⊎ ((r ≡ nospace) × ((b : ℕ) → IsCluster g b → fat_entry g disk' b ≢ 0))

module _ (g : Geometry) where
  pub Allocated-cons :
      (disk disk1 disk' : ℕ → Bytes) (prev c size : ℕ) (src old : Bytes) (from : ℕ) (r : Code)
      → is_data c ≡ true
      → 0 < size
      → 0 < g.sec_per_clus
      → Linked g disk disk1 prev c
      → ((i : ℕ)
          → i < g.sec_per_clus * 512
          → cluster_byte g disk1 c i
            ≡ fill_cluster old (g.sec_per_clus * 512) src from (min size (g.sec_per_clus * 512)) i)
      → Allocated g disk1 c
          (size - min size (g.sec_per_clus * 512))
          src
          (from + min size (g.sec_per_clus * 512))
          (fat_entry g disk' c)
          r
          disk'
      → Allocated g disk prev size src from c r disk'
  unfolding fill_cluster
  Allocated-cons disk disk1 disk' prev c size src old from r t pos spc l filled a =
      let grown = Grown-cons g disk disk1 disk' prev c a.clusters t l a.grown in
      record {
        clusters = c ∷ a.clusters;
        grown = grown;
        few = omega (arith, a.few);
        ending = elim a.ending [
          | inl (e, room, bytes) ↦ inl (e, omega (arith, room), λ i h. byte_of bytes i h)
          | inr full ↦ inr full
        ];
      }
    where
      byte_of :
          ((i : ℕ)
            → i < size - min size (g.sec_per_clus * 512)
            → chain_byte g disk' a.clusters i ≡ src (from + min size (g.sec_per_clus * 512) + i))
          → (i : ℕ) → i < size
          → chain_byte g disk' (c ∷ a.clusters) i ≡ src (from + i)
      byte_of bytes i h = elim (Bool-cases (ltb i (g.sec_per_clus * 512))) [
        | inl e ↦
            let low : i < g.sec_per_clus * 512 = ltb→lt _ _ e in
            let fresh = (Grown-cons g disk disk1 disk' prev c a.clusters t l a.grown).distinct.0 in
            rw e (a.grown.bytes c i l.is_new fresh low ∙ filled i low ∙ ground arith)
        | inr e ↦ rw e (bytes (i - g.sec_per_clus * 512) (ground arith) ∙ ap src (ground arith))
      ]

module _ (d : SectorDevice) (size : ℕ) (content : d.Dev → ℕ → Bytes)
    (rel : IsReliable d size content) where
  -- What link_cluster does with a free cluster.
  abbrev pub Links : ℕ → ℕ → Bool × Fs d → Geometry → (ℕ → Bytes) → Type 0
  Links prev c out g disk =
      (out.0 ≡ true)
      × (out.1.geo ≡ g)
      × (fat_entry g (content out.1.dev) c ≡ no_cluster)
      × (IsCluster g prev → fat_entry g (content out.1.dev) prev ≡ c)
      × ((b : ℕ)
          → IsCluster g b
          → b ≢ c
          → b ≢ prev
          → fat_entry g (content out.1.dev) b ≡ fat_entry g disk b)
      × ((b i : ℕ)
          → IsCluster g b
          → i < g.sec_per_clus * 512
          → cluster_byte g (content out.1.dev) b i ≡ cluster_byte g disk b i)

  pub link_cluster-Links :
      (prev c : ℕ) (s : Fs d) {g : Geometry} {disk : ℕ → Bytes}
      → IsVolume g size
      → s.geo ≡ g
      → content s.dev ≡ disk
      → IsCluster g c
      → c ≢ prev
      → (prev ≡ 0) ⊎ IsCluster g prev
      → Links prev c (link_cluster d prev c s) g disk
  unfolding link_cluster
  link_cluster-Links prev c s vol p q k ne (inl z) =
      let (m0, m1, m2, m3, m4) = fat_set_entry-Marks d size content rel c no_cluster s p q vol k in
      rw (m0, z, link_cluster)
        (refl, m1, m2, λ kp. absurd (omega (arith, kp)), λ b kb nc np. m3 b kb nc, m4)
  link_cluster-Links prev c s {g} {disk} vol p q k ne (inr kp) =
      let (m0, m1, m2, m3, m4) = fat_set_entry-Marks d size content rel c no_cluster s p q vol k in
      let s1 = (fat_set_entry d c no_cluster s).1 in
      let (n0, n1, n2, n3, n4) = fat_set_entry-Marks d size content rel prev c s1 m1 refl vol kp in
      let some_prev : (prev == 0) ≡ false = ground arith in
      let (below, t) = cluster_below_marks d size content rel g c vol k in
      rw (m0, some_prev, n0, link_cluster)
        (
          refl,
          n1,
          n3 c k ne ∙ m2,
          λ kq. n2 ∙ omega arith,
          λ b kb nc np. n3 b kb np ∙ m3 b kb nc,
          λ b i kb small. n4 b i kb small ∙ m4 b i kb small,
        )
