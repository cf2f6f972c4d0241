-- ===== src/Fs/Fat/Free.antt =====
-- find_free_cluster: the lowest free cluster, or none if the table has none.
use zareboon_os.Prelude.{
  ℕ, zero, suc, ◌+◌, ◌*◌, ◌%◌, ◌^◌, ◌<◌, ◌≤◌, ◌≡◌, ◌≢◌, refl, ◌∙◌, fun_ext, false, not, ◌||◌,
  Option, none, some, ◌==◌, leb, ltb, arith, Bool-cases, inl, inr, ◌⊎◌, ltb→lt, ==_iff,
}
use zareboon_os.Fs.Device.{SectorDevice, Bytes, IsReliable}
use zareboon_os.Fs.Bytes.{get32}
use zareboon_os.Fs.Volume.{Geometry, Fs}
use zareboon_os.Fs.Volume.Laws.{IsVolume, rows_fit, count_fits}
use zareboon_os.Fs.Fat.{
  no_cluster, free_in_sector, free_in_read, found_or, free_from_sector, find_free_cluster,
}
use zareboon_os.Fs.Fat.Laws.{fat_entry, entry_lba}

module _ (ent : ℕ → ℕ) (top : ℕ) where
  -- The search from cluster `lo` on gave `c`: the lowest cluster with entry 0, or no_cluster when
  -- no cluster's entry is 0.
  abbrev pub IsLowest : ℕ → ℕ → Type 0
  IsLowest lo c =
      ((lo ≤ c)
        × (2 ≤ c)
        × (c < top)
        × (ent c ≡ 0)
        × ((b : ℕ) → lo ≤ b → 2 ≤ b → b < c → ent b ≢ 0))
      ⊎ ((c ≡ no_cluster) × ((b : ℕ) → lo ≤ b → 2 ≤ b → b < top → ent b ≢ 0))

  -- The same for a search of the clusters below `hi` that may go on.
  abbrev Searched : ℕ → ℕ → Option ℕ → Type 0
  Searched lo hi none = (b : ℕ) → lo ≤ b → b < hi → 2 ≤ b → (b < top) × (ent b ≢ 0)
  Searched lo hi (some c) = IsLowest lo c

  Searched-cons :
      (lo hi : ℕ) (r : Option ℕ)
      → ((2 ≤ lo) → (lo < top) × (ent lo ≢ 0))
      → Searched (lo + 1) hi r
      → Searched lo hi r
  Searched-cons lo hi none first rest = λ b p q two. elim (Bool-cases (b == lo)) [
    | inl e ↦ let at : b ≡ lo = (==_iff _ _).0 e in rw at (first (rw (← at) two))
    | inr e ↦ rest b (ground arith) q two
  ]
  Searched-cons lo hi (some c) first (inl (p0, p1, p2, p3, p4)) = inl (
    omega arith,
    p1,
    p2,
    p3,
    λ b p two q. elim (Bool-cases (b == lo)) [
      | inl e ↦ let at : b ≡ lo = (==_iff _ _).0 e in rw at (first (rw (← at) two)).1
      | inr e ↦ p4 b (ground arith) two q
    ],
  )
  Searched-cons lo hi (some c) first (inr (p0, p1)) = inr (
    p0,
    λ b p two q. elim (Bool-cases (b == lo)) [
      | inl e ↦ let at : b ≡ lo = (==_iff _ _).0 e in rw at (first (rw (← at) two)).1
      | inr e ↦ p1 b (ground arith) two q
    ],
  )

  free_in_sector-Searched :
      (left i lo : ℕ) (fat : Bytes)
      → ((k : ℕ) → k < left → get32 fat ((i + k) * 4) % 2 ^ 28 ≡ ent (lo + k))
      → Searched lo (lo + left) (free_in_sector left i lo top fat)
  unfolding free_in_sector
  free_in_sector-Searched zero i lo fat h = λ b p q two. absurd (omega arith)
  free_in_sector-Searched (suc left) i lo fat h =
      let rest = free_in_sector-Searched left (i + 1) (lo + 1) fat λ k small.
        let at : (i + 1 + k) * 4 ≡ (i + suc k) * 4 = omega arith in
        let to : lo + 1 + k ≡ lo + suc k = omega arith in rw (at, to) (h (suc k) (omega arith)) in
      let next : Searched (lo + 1) (lo + suc left) (free_in_sector left (i + 1) (lo + 1) top fat) =
        let e : lo + 1 + left ≡ lo + suc left = omega arith in rw e at rest in
      let here : get32 fat (i * 4) % 2 ^ 28 ≡ ent lo =
        let at : (i + 0) * 4 ≡ i * 4 = omega arith in
        let to : lo + 0 ≡ lo = omega arith in rw (at, to) at (h 0 (omega arith)) in
      elim (Bool-cases (ltb lo 2)) [
        | inl e ↦ rw e (Searched-cons lo (lo + suc left) _ (λ two. absurd (ground arith)) next)
        | inr e ↦ elim (Bool-cases (leb top lo)) [
          | inl f ↦ rw (e, f) (inr (refl, λ b p two q. absurd (ground arith)))
          | inr f ↦ elim (Bool-cases (get32 fat (i * 4) % 2 ^ 28 == 0)) [
            | inl z ↦
                rw (e, f, z)
                  (inl (
                    omega arith,
                    ground arith,
                    ground arith,
                    ground arith,
                    λ b p two q. absurd (omega arith),
                  ))
            | inr z ↦
                rw (e, f, z)
                  (Searched-cons lo (lo + suc left) _ (λ two. (ground arith, ground arith)) next)
          ]
        ]
      ]

  IsLowest-from : (lo hi c : ℕ) → lo ≤ hi → Searched lo hi none → IsLowest hi c → IsLowest lo c
  IsLowest-from lo hi c le s (inl (p0, p1, p2, p3, p4)) = inl (
    omega arith,
    p1,
    p2,
    p3,
    λ b p two q. elim (Bool-cases (ltb b hi)) [
      | inl e ↦ (s b p (ltb→lt _ _ e) two).1
      | inr e ↦ p4 b (ground arith) two q
    ],
  )
  IsLowest-from lo hi c le s (inr (p0, p1)) = inr (
    p0,
    λ b p two q. elim (Bool-cases (ltb b hi)) [
      | inl e ↦ (s b p (ltb→lt _ _ e) two).1
      | inr e ↦ p1 b (ground arith) two q
    ],
  )

module _ (d : SectorDevice) (size : ℕ) (content : d.Dev → ℕ → Bytes)
    (rel : IsReliable d size content) where
  abbrev top_of : Geometry → ℕ
  top_of g = g.total_clusters + 2

  free_in_read-Searched :
      (g : Geometry) (disk : ℕ → Bytes) (sec : ℕ)
      → IsVolume g size
      → sec < g.fat_size
      → Searched
          (fat_entry g disk)
          (top_of g)
          (sec * 128)
          (sec * 128 + 128)
          (free_in_read sec g (some (disk (g.partition_lba + g.reserved_sectors + sec))))
  unfolding free_in_read
  free_in_read-Searched g disk sec vol small =
      let few = count_fits g.total_clusters g.sec_per_clus vol.spc_pos in
      let many = rows_fit 0 g.num_fats g.fat_size vol.fats_pos in
      let top : (g.total_clusters + 2) % 2 ^ 32 ≡ g.total_clusters + 2 =
        omega (arith, rel.lba28, few) in
      let from : sec * 128 % 2 ^ 32 ≡ sec * 128 = omega (arith, vol.table_small) in
      simp (vol.sector_bytes, top, from)
        (free_in_sector-Searched (fat_entry g disk) (top_of g) 128 0 (sec * 128)
          (disk (g.partition_lba + g.reserved_sectors + sec))
          λ k below.
            let row : entry_lba g 0 (sec * 128 + k) ≡ g.partition_lba + g.reserved_sectors + sec =
              omega arith in
            let col : (sec * 128 + k) * 4 % 512 ≡ (0 + k) * 4 = omega arith in rw (row, col))

  free_from_sector-IsLowest :
      (g : Geometry) (disk : ℕ → Bytes) (left sec : ℕ) (dev : d.Dev)
      → IsVolume g size
      → content dev ≡ disk
      → sec + left ≡ g.fat_size
      → IsLowest (fat_entry g disk) (top_of g) (sec * 128) (free_from_sector d left sec g dev).0
        × (content (free_from_sector d left sec g dev).1 ≡ disk)
  unfolding free_from_sector
  free_from_sector-IsLowest g disk zero sec dev vol e h =
      (inr (refl, λ b p two q. absurd (omega arith)), e)
  free_from_sector-IsLowest g disk (suc left) sec dev vol e h =
      let many = rows_fit 0 g.num_fats g.fat_size vol.fats_pos in
      let lba : ℕ = g.partition_lba + g.reserved_sectors + sec in
      let at : (g.partition_lba + g.reserved_sectors + sec) % 2 ^ 32 ≡ lba =
        omega (arith, rel.lba28) in
      let keep : content (d.read dev lba).1 ≡ disk = fun_ext (λ l. rel.read_keeps dev lba l) ∙ e in
      let rest =
        free_from_sector-IsLowest g disk left (sec + 1) (d.read dev lba).1 vol keep (omega arith) in
      rw (at, rel.read_value dev lba (omega arith), e)
        (next (free_in_read sec g (some (disk lba)))
          (free_in_read-Searched g disk sec vol (omega arith)) keep rest)
    where
      next :
          (r : Option ℕ) {out : ℕ × d.Dev} {dev' : d.Dev}
          → Searched (fat_entry g disk) (top_of g) (sec * 128) (sec * 128 + 128) r
          → content dev' ≡ disk
          → IsLowest (fat_entry g disk) (top_of g) ((sec + 1) * 128) out.0 × (content out.1 ≡ disk)
          → IsLowest (fat_entry g disk) (top_of g) (sec * 128) (found_or d r out dev').0
            × (content (found_or d r out dev').1 ≡ disk)
      next none {out} {dev'} s keep rest =
          let end : (sec + 1) * 128 ≡ sec * 128 + 128 = omega arith in
          (
            IsLowest-from (fat_entry g disk) (top_of g) (sec * 128) (sec * 128 + 128) out.0
                (omega arith) s (rw end at rest.0),
            rest.1,
          )
      next (some c) s keep rest = (s, keep)

  -- On a well-formed volume and a working device find_free_cluster returns the lowest cluster whose
  -- entry is 0, or 0x0FFFFFFF when the entry of every cluster is in use, and changes nothing but
  -- the device's own state, whose contents stay.
  pub find_free_cluster-IsLowest :
      (s : Fs d)
      → IsVolume s.geo size
      → IsLowest
          (fat_entry s.geo (content s.dev))
          (s.geo.total_clusters + 2)
          0
          (find_free_cluster d s).0
        × (content (find_free_cluster d s).1.dev ≡ content s.dev)
        × ((find_free_cluster d s).1 ≡ record s { dev = (find_free_cluster d s).1.dev })
  unfolding find_free_cluster
  find_free_cluster-IsLowest s vol =
      let (low, keep) =
        free_from_sector-IsLowest s.geo (content s.dev) s.geo.fat_size 0 s.dev vol refl
          (omega arith) in
      let test : (not s.geo.ready || (s.geo.bytes_per_sec == 0)) ≡ false =
        rw (vol.is_ready, vol.sector_bytes) refl in
      rw test (low, keep, refl)
