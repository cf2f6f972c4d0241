-- ===== src/Fs/Write/Chains.antt =====
-- The whole of alloc_and_write, from the cluster in front of the new ones and from none.
use mathlib.Core.Path.{subst}
use zareboon_os.Prelude.{
  ℕ, zero, suc, ◌+◌, ◌-◌, ◌*◌, ◌<◌, ◌≡◌, ◌≢◌, refl, ap, sym, ◌∙◌, false, Option, none, some, ◌==◌,
  arith, inl, inr, ◌⊎◌, [], min,
}
use zareboon_os.Fs.Device.{SectorDevice, Bytes, IsReliable}
use zareboon_os.Fs.Volume.{Geometry, Fs, cluster_size}
use zareboon_os.Fs.Volume.Laws.{IsVolume, IsCluster, cluster_byte}
use zareboon_os.Fs.Fat.{is_data, no_cluster}
use zareboon_os.Fs.Fat.Laws.{fat_entry}
use zareboon_os.Fs.Entries.{Code, ok, nospace}
use zareboon_os.Fs.Read.Laws.{cluster_size_lem}
use zareboon_os.Fs.Write.{fill_cluster, alloc_loop}
use zareboon_os.Fs.Write.Effects.{cluster_below_marks, find_free_cluster-Finds}
use zareboon_os.Fs.Write.Rounds.{
  found, linked, stored, alloc_loop-stop, alloc_loop-full, alloc_loop-round, round_lem,
}
use zareboon_os.Fs.Write.Grown.{Linked, Grown-nil, Grown-head}
use zareboon_os.Fs.Write.Alloc.{Allocated, Allocated-cons}

module _ (d : SectorDevice) (size : ℕ) (content : d.Dev → ℕ → Bytes)
    (rel : IsReliable d size content) where
  -- How the loop ends from the cluster `prev`, whose entry is a mark.
  abbrev Ends : Geometry → (ℕ → Bytes) → ℕ → ℕ → Bytes → ℕ → ℕ → Option ((Code × ℕ) × Fs d) → Type 0
  Ends g disk prev n src from first none = ⊥
  Ends g disk prev n src from first (some ((r, f), s)) =
      (f ≡ first)
      × (s.geo ≡ g)
      × Allocated g disk prev n src from (fat_entry g (content s.dev) prev) r (content s.dev)

  -- The end of a round, from that of the rounds behind it.
  Ends-round :
      (g : Geometry) (disk disk1 : ℕ → Bytes) (prev c n from first : ℕ) (src old : Bytes)
      → IsVolume g size
      → 0 < n
      → IsCluster g prev
      → Linked g disk disk1 prev c
      → ((i : ℕ)
          → i < g.sec_per_clus * 512
          → cluster_byte g disk1 c i
            ≡ fill_cluster old (g.sec_per_clus * 512) src from (min n (g.sec_per_clus * 512)) i)
      → (o : Option ((Code × ℕ) × Fs d))
      → Ends g disk1 c
          (n - min n (g.sec_per_clus * 512))
          src
          (from + min n (g.sec_per_clus * 512))
          first
          o
      → Ends g disk prev n src from first o
  Ends-round g disk disk1 prev c n from first src old vol pos kp l bytes none h = h
  Ends-round g disk disk1 prev c n from first src old vol pos kp l bytes (some ((r, f), s))
        (e, p, a) =
      let (below, t) = cluster_below_marks d size content rel g c vol l.is_new in
      let head = Grown-head g disk disk1 (content s.dev) prev c a.clusters kp l a.grown in
      (
        e,
        p,
        rw head (
            Allocated-cons g disk disk1 (content s.dev) prev c n src old from r t pos vol.spc_pos l
              bytes a),
      )

  -- A loop that ends with no round left has the contents as they were.
  unchanged :
      (g : Geometry) (disk : ℕ → Bytes) (prev n from head : ℕ) (src : Bytes) (r : Code)
      → is_data head ≡ false
      → ((r ≡ ok) × (n ≡ 0)) ⊎ ((r ≡ nospace) × ((b : ℕ) → IsCluster g b → fat_entry g disk b ≢ 0))
      → Allocated g disk prev n src from head r disk
  unchanged g disk prev n from head src r mark why = record {
    clusters = [];
    grown = Grown-nil g disk prev head mark;
    few = omega arith;
    ending = elim why [
      | inl (e, z) ↦ inl (e, omega (arith, z), λ i h. absurd (omega (arith, z)))
      | inr full ↦ inr full
    ];
  }

  kept :
      (g : Geometry) (disk disk' : ℕ → Bytes) (prev n from : ℕ) (src : Bytes) (r : Code)
      → disk' ≡ disk
      → is_data (fat_entry g disk prev) ≡ false
      → ((r ≡ ok) × (n ≡ 0)) ⊎ ((r ≡ nospace) × ((b : ℕ) → IsCluster g b → fat_entry g disk b ≢ 0))
      → Allocated g disk prev n src from (fat_entry g disk' prev) r disk'
  kept g disk disk' prev n from src r q mark why =
      subst (λ (t : ℕ → Bytes). Allocated g disk prev n src from (fat_entry g t prev) r t) (sym q)
        (unchanged g disk prev n from (fat_entry g disk prev) src r mark why)

  -- From a cluster in use whose entry is a mark, with more fuel than bytes to write.
  pub alloc_loop-Ends :
      (fuel n prev from first : ℕ) (src : Bytes) (s : Fs d) {g : Geometry} {disk : ℕ → Bytes}
      → IsVolume g size
      → s.geo ≡ g
      → content s.dev ≡ disk
      → IsCluster g prev
      → is_data (fat_entry g disk prev) ≡ false
      → fat_entry g disk prev ≢ 0
      → first ≢ 0
      → n < fuel
      → Ends g disk prev n src from first (alloc_loop d fuel prev src from n first s)
  alloc_loop-Ends zero n prev from first src s vol p q kp mark used nz few = absurd (omega arith)
  alloc_loop-Ends (suc fuel) zero prev from first src s {g} {disk} vol p q kp mark used nz few =
      rw (alloc_loop-stop d size content rel fuel prev from first src s)
        (refl, p, kept g disk (content s.dev) prev 0 from src ok q mark (inl (refl, refl)))
  alloc_loop-Ends (suc fuel) (suc n) prev from first src s {g} {disk} vol p q kp mark used nz few =
      let (low, fp, fq) = find_free_cluster-Finds d size content rel s p q vol in
      elim low [
        | inr (e, full) ↦
            rw
              (alloc_loop-full d size content rel fuel prev from (suc n) first src s (omega arith)
                e)
              (
                refl,
                fp,
                kept g disk _ prev (suc n) from src nospace fq mark
                    (inr (refl, λ b kb. full b (omega arith) kb.0 kb.1)),
              )
        | inl (z, two, top, free, lowest) ↦
            let k : IsCluster g (found d size content rel s) = (two, top) in
            let (below, t) =
              cluster_below_marks d size content rel g (found d size content rel s) vol k in
            let (r0, r1, r2, r3, r4) =
              round_lem d size content rel prev from (suc n) src s vol p q (inr (kp, used)) k
                free in
            let cb : cluster_size s.geo ≡ g.sec_per_clus * 512 =
              ap cluster_size p ∙ cluster_size_lem g size vol in
            let keeps_first : (first == 0) ≡ false = ground arith in
            let end : fat_entry g (content (stored d size content rel prev src from (suc n) s).dev)
                  (found d size content rel s)
                ≡ no_cluster =
              r3.ends in
            let step =
              alloc_loop-round d size content rel fuel prev from (suc n) first src s (omega arith)
                (omega arith) r0 r1 in
            rw step (
              rw (cb, keeps_first)
                (Ends-round g disk _ prev (found d size content rel s) (suc n) from first src
                  (linked d size content rel prev s).io_buf vol (omega arith) kp r3
                  (λ i h. r4 i h ∙ rw cb refl) _
                  (alloc_loop-Ends fuel _ (found d size content rel s) _ first src
                    (stored d size content rel prev src from (suc n) s) vol r2 refl k (rw end refl)
                    (omega (arith, end)) nz (omega (arith, vol.spc_pos)))))
      ]

  nothing :
      (g : Geometry) (disk disk' : ℕ → Bytes) (n : ℕ) (src : Bytes) (r : Code)
      → disk' ≡ disk
      → ((r ≡ ok) × (n ≡ 0)) ⊎ ((r ≡ nospace) × ((b : ℕ) → IsCluster g b → fat_entry g disk b ≢ 0))
      → Allocated g disk 0 n src 0 0 r disk'
  nothing g disk disk' n src r q why =
      subst (λ (t : ℕ → Bytes). Allocated g disk 0 n src 0 0 r t) (sym q)
        (unchanged g disk 0 n 0 0 src r refl why)

  -- How alloc_and_write ends when it begins a chain: `first` is its head, or 0 for none.
  abbrev pub Begins : Geometry → (ℕ → Bytes) → ℕ → Bytes → Option ((Code × ℕ) × Fs d) → Type 0
  Begins g disk n src none = ⊥
  Begins g disk n src (some ((r, f), s)) =
      (s.geo ≡ g) × Allocated g disk 0 n src 0 f r (content s.dev)

  Begins-round :
      (g : Geometry) (disk disk1 : ℕ → Bytes) (c n : ℕ) (src old : Bytes)
      → IsVolume g size
      → 0 < n
      → Linked g disk disk1 0 c
      → ((i : ℕ)
          → i < g.sec_per_clus * 512
          → cluster_byte g disk1 c i
            ≡ fill_cluster old (g.sec_per_clus * 512) src 0 (min n (g.sec_per_clus * 512)) i)
      → (o : Option ((Code × ℕ) × Fs d))
      → Ends g disk1 c (n - min n (g.sec_per_clus * 512)) src (0 + min n (g.sec_per_clus * 512)) c o
      → Begins g disk n src o
  Begins-round g disk disk1 c n src old vol pos l bytes none h = h
  Begins-round g disk disk1 c n src old vol pos l bytes (some ((r, f), s)) (e, p, a) =
      let (below, t) = cluster_below_marks d size content rel g c vol l.is_new in
      (
        p,
        rw e (
            Allocated-cons g disk disk1 (content s.dev) 0 c n src old 0 r t pos vol.spc_pos l bytes
              a),
      )

  -- On a well-formed volume and a working device, with more fuel than bytes to write,
  -- alloc_and_write with no chain to extend ends. It answers FS_OK, with the bytes in a new chain of
  -- clusters that were free, or FS_ERR_NOSPACE with no free cluster left; either way it changes no
  -- entry of the table and no byte but those of the new chain.
  pub alloc_loop-Begins :
      (fuel n : ℕ) (src : Bytes) (s : Fs d) {g : Geometry} {disk : ℕ → Bytes}
      → IsVolume g size
      → s.geo ≡ g
      → content s.dev ≡ disk
      → n < fuel
      → Begins g disk n src (alloc_loop d fuel 0 src 0 n 0 s)
  alloc_loop-Begins zero n src s vol p q few = absurd (omega arith)
  alloc_loop-Begins (suc fuel) zero src s {g} {disk} vol p q few =
      rw (alloc_loop-stop d size content rel fuel 0 0 0 src s)
        (p, nothing g disk (content s.dev) 0 src ok q (inl (refl, refl)))
  alloc_loop-Begins (suc fuel) (suc n) src s {g} {disk} vol p q few =
      let (low, fp, fq) = find_free_cluster-Finds d size content rel s p q vol in
      elim low [
        | inr (e, full) ↦
            rw (alloc_loop-full d size content rel fuel 0 0 (suc n) 0 src s (omega arith) e) (
              fp,
              nothing g disk _ (suc n) src nospace fq
                  (inr (refl, λ b kb. full b (omega arith) kb.0 kb.1)),
            )
        | inl (z, two, top, free, lowest) ↦
            let k : IsCluster g (found d size content rel s) = (two, top) in
            let (below, t) =
              cluster_below_marks d size content rel g (found d size content rel s) vol k in
            let (r0, r1, r2, r3, r4) =
              round_lem d size content rel 0 0 (suc n) src s vol p q (inl refl) k free in
            let cb : cluster_size s.geo ≡ g.sec_per_clus * 512 =
              ap cluster_size p ∙ cluster_size_lem g size vol in
            let end : fat_entry g (content (stored d size content rel 0 src 0 (suc n) s).dev)
                  (found d size content rel s)
                ≡ no_cluster =
              r3.ends in
            let step =
              alloc_loop-round d size content rel fuel 0 0 (suc n) 0 src s (omega arith)
                (omega arith) r0 r1 in
            rw step (
              rw cb (
                Begins-round g disk _ (found d size content rel s) (suc n) src
                  (linked d size content rel 0 s).io_buf vol (omega arith) r3
                  (λ i h. r4 i h ∙ rw cb refl) _
                  (alloc_loop-Ends fuel _ (found d size content rel s) _
                    (found d size content rel s) src (stored d size content rel 0 src 0 (suc n) s)
                    vol r2 refl k (rw end refl) (omega (arith, end)) (omega arith)
                    (omega (arith, vol.spc_pos)))))
      ]
