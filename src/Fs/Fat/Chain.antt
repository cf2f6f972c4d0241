-- ===== src/Fs/Fat/Chain.antt =====
-- The chain of clusters of a file, and free_cluster_chain.
use mathlib.Core.Path.{subst₂}
use zareboon_os.Prelude.{
  ℕ, zero, suc, ◌+◌, ◌%◌, ◌^◌, ◌<◌, ◌≤◌, ◌≡◌, ◌≢◌, refl, ap, sym, ◌∙◌, true, false, Option, none,
  some, ◌==◌, arith, Bool-cases, inl, inr, ◌⊎◌, ==_iff, List, [], ◌∷◌, length,
}
use zareboon_os.Fs.Device.{SectorDevice, Bytes, IsReliable}
use zareboon_os.Fs.Volume.{Geometry, Fs}
use zareboon_os.Fs.Volume.Laws.{IsVolume, IsCluster}
use zareboon_os.Fs.Fat.{is_data, get_next_cluster, fat_set_entry, free_cluster_chain}
use zareboon_os.Fs.Fat.Laws.{fat_entry, get_next_cluster_lem}
use zareboon_os.Fs.Fat.Entry.{fat_set_entry-EntrySet}

-- From cluster `c` the table leads through the clusters listed, and then out of the data area.
abbrev pub Chain : Geometry → (ℕ → Bytes) → ℕ → List ℕ → Type 0
Chain g disk c [] = is_data c ≡ false
Chain g disk c (b ∷ bs) =
    (b ≡ c) × IsCluster g c × (is_data c ≡ true) × Chain g disk (fat_entry g disk c) bs

-- The cluster does not stand in the list.
abbrev pub NotIn : ℕ → List ℕ → Type 0
NotIn c [] = Unit
NotIn c (b ∷ bs) = (c ≢ b) × NotIn c bs

abbrev pub Distinct : List ℕ → Type 0
Distinct [] = Unit
Distinct (c ∷ cs) = NotIn c cs × Distinct cs

-- A chain is the same on a table that agrees on its clusters.
Chain-agree :
    (g : Geometry) (disk disk' : ℕ → Bytes) (c : ℕ) (cs : List ℕ) (a : ℕ)
    → ((b : ℕ) → IsCluster g b → b ≢ a → fat_entry g disk' b ≡ fat_entry g disk b)
    → NotIn a cs
    → Chain g disk c cs
    → Chain g disk' c cs
Chain-agree g disk disk' c [] a same n h = h
Chain-agree g disk disk' c (b ∷ bs) a same (n, ns) (e, k, t, rest) = (
  e,
  k,
  t,
  let q : fat_entry g disk' c ≡ fat_entry g disk c = same c k (ground arith) in
      rw q (Chain-agree g disk disk' (fat_entry g disk c) bs a same ns rest),
)

module _ (d : SectorDevice) (size : ℕ) (content : d.Dev → ℕ → Bytes)
    (rel : IsReliable d size content) where
  -- How a run that frees a chain ends: it ends, the entries of the chain are 0, every other cluster
  -- keeps its entry, and no byte outside the table changes.
  abbrev pub Freed : Geometry → (ℕ → Bytes) → List ℕ → Option (Unit {0} × Fs d) → Type 0
  Freed g disk cs none = ⊥
  Freed g disk cs (some (u, s)) =
      (s.geo ≡ g)
      × ((b : ℕ) → IsCluster g b → NotIn b cs → fat_entry g (content s.dev) b ≡ fat_entry g disk b)
      × ((b : ℕ) → IsCluster g b → ¬ NotIn b cs → fat_entry g (content s.dev) b ≡ 0)
      × ((l i : ℕ)
          → (l < g.partition_lba + g.reserved_sectors) ⊎ (g.partition_lba + g.data_sec ≤ l)
          → i < 512
          → content s.dev l i ≡ disk l i)

  free_cluster_chain-step :
      (fuel c : ℕ) (s : Fs d)
      → is_data c ≡ true
      → free_cluster_chain d (suc fuel) c s
        ≡ free_cluster_chain d fuel
            (get_next_cluster d c s).0
            (fat_set_entry d c 0 (get_next_cluster d c s).1).1
  unfolding free_cluster_chain
  free_cluster_chain-step fuel c s h = rw (h, free_cluster_chain)

  -- What setting the entry of `c` does to a volume `g` with contents `disk`.
  abbrev Sets : ℕ → ℕ → Fs d → Geometry → (ℕ → Bytes) → Type 0
  Sets c v s' g disk =
      IsVolume g size
      → IsCluster g c
      → (s'.geo ≡ g)
        × (fat_entry g (content s'.dev) c ≡ v % 2 ^ 28)
        × ((b : ℕ) → IsCluster g b → b ≢ c → fat_entry g (content s'.dev) b ≡ fat_entry g disk b)
        × ((l i : ℕ)
            → (l < g.partition_lba + g.reserved_sectors) ⊎ (g.partition_lba + g.data_sec ≤ l)
            → i < 512
            → content s'.dev l i ≡ disk l i)

  pub fat_set_entry-Sets :
      (c v : ℕ) (s : Fs d) {g : Geometry} {disk : ℕ → Bytes}
      → s.geo ≡ g
      → content s.dev ≡ disk
      → Sets c v (fat_set_entry d c v s).1 g disk
  fat_set_entry-Sets c v s p q =
      subst₂ (λ h t. Sets c v (fat_set_entry d c v s).1 h t) p q
        λ vol k.
          let e = fat_set_entry-EntrySet d size content rel c v s vol k in
          (
            ap (λ (t : Fs d). t.geo) e.frame,
            e.set 0 vol.fats_pos,
            λ b kb ne. e.others 0 b kb ne,
            e.outside,
          )

  abbrev Nexts : ℕ → Fs d → Geometry → (ℕ → Bytes) → Type 0
  Nexts c s g disk =
      IsVolume g size
      → IsCluster g c
      → ((get_next_cluster d c s).0 ≡ fat_entry g disk c)
        × ((get_next_cluster d c s).1.geo ≡ g)
        × (content (get_next_cluster d c s).1.dev ≡ disk)

  pub get_next_cluster-Nexts :
      (c : ℕ) (s : Fs d) {g : Geometry} {disk : ℕ → Bytes}
      → s.geo ≡ g
      → content s.dev ≡ disk
      → Nexts c s g disk
  get_next_cluster-Nexts c s p q =
      subst₂ (λ h t. Nexts c s h t) p q
        λ vol k.
          let (value, keeps, frame) = get_next_cluster_lem d size content rel c s vol k in
          (value, ap (λ (t : Fs d). t.geo) frame, keeps)

  Freed-cons :
      (g : Geometry) (disk disk' : ℕ → Bytes) (c : ℕ) (cs : List ℕ)
      → IsCluster g c
      → NotIn c cs
      → (fat_entry g disk' c ≡ 0)
      → ((b : ℕ) → IsCluster g b → b ≢ c → fat_entry g disk' b ≡ fat_entry g disk b)
      → ((l i : ℕ)
          → (l < g.partition_lba + g.reserved_sectors) ⊎ (g.partition_lba + g.data_sec ≤ l)
          → i < 512
          → disk' l i ≡ disk l i)
      → (r : Option (Unit {0} × Fs d)) → Freed g disk' cs r
      → Freed g disk (c ∷ cs) r
  Freed-cons g disk disk' c cs k new zeroed others outside none f = f
  Freed-cons g disk disk' c cs k new zeroed others outside (some (u, s)) (f0, f1, f2, f3) = (
    f0,
    λ b kb (ne, n). f1 b kb n ∙ others b kb ne,
    λ b kb was. elim (Bool-cases (b == c)) [
      | inl e ↦ let at : b ≡ c = (==_iff _ _).0 e in rw at (f1 c k new ∙ zeroed)
      | inr e ↦ f2 b kb (λ n. was (ground arith, n))
    ],
    λ l i p small. f3 l i p small ∙ outside l i p small,
  )

  -- On a well-formed volume and a working device, from the first cluster of a chain of distinct
  -- clusters and with more fuel than it has clusters, free_cluster_chain ends, having set the entry of
  -- every cluster of the chain to 0 and of no other, and changed no byte outside the table.
  pub free_cluster_chain-Freed :
      (cs : List ℕ) (fuel c : ℕ) (s : Fs d) {g : Geometry} {disk : ℕ → Bytes}
      → IsVolume g size
      → s.geo ≡ g
      → content s.dev ≡ disk
      → Chain g disk c cs
      → Distinct cs
      → length cs < fuel
      → Freed g disk cs (free_cluster_chain d fuel c s)
  free_cluster_chain-Freed cs zero c s vol p q h dis few = absurd (omega arith)
  free_cluster_chain-Freed [] (suc fuel) c s {g} {disk} vol p q h dis few =
      unfold free_cluster_chain in
      rw (h, free_cluster_chain)
        (
          p,
          λ b kb n. ap (λ (t : ℕ → Bytes). fat_entry g t b) q,
          λ b kb n. absurd (n tt),
          λ l i o small. ap (λ (t : ℕ → Bytes). t l i) q,
        )
  free_cluster_chain-Freed (b ∷ bs) (suc fuel) c s {g} {disk} vol p q (e, k, t, h) (new, dis) few =
      let (n0, n1, n2) = get_next_cluster-Nexts c s p q vol k in
      let s2 = (fat_set_entry d c 0 (get_next_cluster d c s).1).1 in
      let (e0, e1, e2, e3) = fat_set_entry-Sets c 0 (get_next_cluster d c s).1 n1 n2 vol k in
      let fresh : NotIn c bs = rw (sym e) new in
      let tail : Chain g (content s2.dev) (get_next_cluster d c s).0 bs =
        rw n0 (Chain-agree g disk (content s2.dev) (fat_entry g disk c) bs c e2 fresh h) in
      rw (e, free_cluster_chain-step fuel c s t)
        (Freed-cons g disk (content s2.dev) c bs k fresh e1 e2 e3 _ (
          free_cluster_chain-Freed bs fuel (get_next_cluster d c s).0 s2 vol e0 refl tail dis
            (omega arith)))
