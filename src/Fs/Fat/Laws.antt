-- ===== src/Fs/Fat/Laws.antt =====
-- The table on a device that works: an entry set is the entry read, in every copy, and no other
-- entry and no other sector changes.
use zareboon_os.Prelude.{
  ℕ, zero, suc, ◌+◌, ◌*◌, ◌/◌, ◌%◌, ◌^◌, ◌<◌, ◌≤◌, ◌≡◌, ◌≢◌, refl, ap, ◌∙◌, fun_ext, Bool, true,
  false, ◌==◌, if◌then◌else◌, ltb, arith, Bool-cases, inl, inr, ◌⊎◌, ltb→lt, ==_iff,
}
use zareboon_os.Fs.Device.{SectorDevice, Bytes, IsReliable}
use zareboon_os.Fs.Bytes.{get32, put32, get32-put32_self, get32-put32_ne}
use zareboon_os.Fs.Volume.{Geometry, Fs}
use zareboon_os.Fs.Volume.Laws.{IsVolume, IsCluster, rows_fit, count_fits}
use zareboon_os.Fs.Fat.{merge_entry, get_next_cluster, write_back, set_copy, set_copies}

-- The sector of copy `f` of the table that holds the entry of cluster `c`, and that entry.
abbrev pub entry_lba : Geometry → ℕ → ℕ → ℕ
entry_lba g f c = g.partition_lba + g.reserved_sectors + f * g.fat_size + c * 4 / 512

abbrev pub copy_entry : Geometry → (ℕ → Bytes) → ℕ → ℕ → ℕ
copy_entry g disk f c = get32 (disk (entry_lba g f c)) (c * 4 % 512) % 2 ^ 28

-- The entry that the walks along a chain read, of the first copy.
abbrev pub fat_entry : Geometry → (ℕ → Bytes) → ℕ → ℕ
fat_entry g disk c = copy_entry g disk 0 c

pub get32_ext :
    (a b : Bytes) (i : ℕ) → ((j : ℕ) → j < 512 → a j ≡ b j) → i + 4 ≤ 512 → get32 a i ≡ get32 b i
unfolding get32
get32_ext a b i h small = ground (
  arith,
  h i (omega arith),
  h (i + 1) (omega arith),
  h (i + 2) (omega arith),
  h (i + 3) (omega arith),
)

-- Two copies of the table share no sector.
copies_apart : (f k n s t : ℕ) → s < n → t < n → f * n + s ≡ k * n + t → f ≡ k
copies_apart f k n s t hs ht e = elim (Bool-cases (ltb f k)) [
  | inl p ↦ absurd (omega (arith, rows_fit f k n (ltb→lt _ _ p)))
  | inr p ↦ elim (Bool-cases (ltb k f)) [
    | inl q ↦ absurd (omega (arith, rows_fit k f n (ltb→lt _ _ q)))
    | inr q ↦ ground arith
  ]
]

module _ (d : SectorDevice) (size : ℕ) (content : d.Dev → ℕ → Bytes)
    (rel : IsReliable d size content) where
  pub entry_lba_fits :
      (g : Geometry) (f c : ℕ)
      → IsVolume g size
      → IsCluster g c
      → f < g.num_fats
      → (c * 4 / 512 < g.fat_size)
        × (entry_lba g f c < g.partition_lba + g.data_sec)
        × (g.partition_lba + g.data_sec ≤ size)
        × (c * 4 < 2 ^ 32)
  entry_lba_fits g f c v (lo, hi) h =
      let few = count_fits g.total_clusters g.sec_per_clus v.spc_pos in
      let room = rows_fit f g.num_fats g.fat_size h in
      (omega arith, omega (arith, room), omega arith, omega (arith, rel.lba28, few))

  -- On a well-formed volume and a working device, for a cluster of the data area, get_next_cluster
  -- reads its entry, and changes neither the contents of the device
  -- nor any of the state but its own buffer.
  pub get_next_cluster_lem :
      (c : ℕ) (s : Fs d)
      → IsVolume s.geo size
      → IsCluster s.geo c
      → ((get_next_cluster d c s).0 ≡ fat_entry s.geo (content s.dev) c)
        × (content (get_next_cluster d c s).1.dev ≡ content s.dev)
        × ((get_next_cluster d c s).1 ≡ record s {
          dev = (get_next_cluster d c s).1.dev;
          fat_buffer = (get_next_cluster d c s).1.fat_buffer;
        })
  unfolding get_next_cluster
  get_next_cluster_lem c s v k =
      let (t0, t1, t2, t3) = entry_lba_fits s.geo 0 c v k v.fats_pos in
      let at : (s.geo.partition_lba + s.geo.reserved_sectors + c * 4 % 2 ^ 32 / 512) % 2 ^ 32
          ≡ entry_lba s.geo 0 c =
        omega (arith, rel.lba28) in
      let small : c * 4 % 2 ^ 32 ≡ c * 4 = omega arith in
      rw
        (
          v.is_ready,
          v.sector_bytes,
          at,
          rel.read_value s.dev (entry_lba s.geo 0 c) (omega arith),
          small,
        )
        (refl, fun_ext (λ l. rel.read_keeps s.dev (entry_lba s.geo 0 c) l), refl)

  -- What copies `f` to `f + left - 1` of the table hold after the entry of `c` was set to `v`.
  pub record Updated (g : Geometry) (left f c v : ℕ) (dev : d.Dev) (out : Bool × d.Dev)
      : Type 0 where
    pub done : out.0 ≡ true
    pub set : (k : ℕ) → f ≤ k → k < f + left → copy_entry g (content out.1) k c ≡ v % 2 ^ 28
    pub others :
        (k c' : ℕ)
        → c' * 4 / 512 < g.fat_size
        → (c' ≢ c) ⊎ ((k < f) ⊎ (f + left ≤ k))
        → copy_entry g (content out.1) k c' ≡ copy_entry g (content dev) k c'
    pub outside :
        (l i : ℕ)
        → (l < g.partition_lba + g.reserved_sectors)
          ⊎ (g.partition_lba + g.reserved_sectors + g.num_fats * g.fat_size ≤ l)
        → i < 512
        → content out.1 l i ≡ content dev l i

  -- The sectors after one copy was changed.
  module _ (g : Geometry) (f c v : ℕ) (dev : d.Dev) (vol : IsVolume g size) (k : IsCluster g c)
      (here : f < g.num_fats) where
    abbrev lba : ℕ
    lba = entry_lba g f c

    abbrev changed : Bytes
    changed =
        put32 (content dev lba) (c * 4 % 512)
          (merge_entry (get32 (content dev lba) (c * 4 % 512)) v)

    abbrev after : d.Dev
    after = (set_copy d f (c * 4 % 2 ^ 32) v g dev).1

    set_copy_writes : set_copy d f (c * 4 % 2 ^ 32) v g dev ≡ d.write (d.read dev lba).1 lba changed
    unfolding set_copy write_back
    set_copy_writes =
        let (t0, t1, t2, t3) = entry_lba_fits g f c vol k here in
        let at : (g.partition_lba
                + g.reserved_sectors
                + f * g.fat_size % 2 ^ 32
                + c * 4 % 2 ^ 32 / g.bytes_per_sec)
              % 2 ^ 32
            ≡ lba =
          rw vol.sector_bytes (omega (arith, rel.lba28)) in
        let off : c * 4 % 2 ^ 32 % g.bytes_per_sec ≡ c * 4 % 512 =
          rw vol.sector_bytes (omega arith) in
        rw (at, off, rel.read_value dev lba (omega arith))

    set_copy-sector :
        (l i : ℕ) → i < 512 → content after l i ≡ (if l == lba then changed i else content dev l i)
    set_copy-sector l i small =
        let (t0, t1, t2, t3) = entry_lba_fits g f c vol k here in
        ap (λ (o : Bool × d.Dev). content o.1 l i) set_copy_writes
        ∙ rel.write_stores (d.read dev lba).1 lba changed l i (omega arith) small
        ∙ rw (rel.read_keeps dev lba l)

    set_copy-done : (set_copy d f (c * 4 % 2 ^ 32) v g dev).0 ≡ true
    set_copy-done =
        let (t0, t1, t2, t3) = entry_lba_fits g f c vol k here in
        rw (set_copy_writes, rel.write_done (d.read dev lba).1 lba changed (omega arith))

    set_copy-set : copy_entry g (content after) f c ≡ v % 2 ^ 28
    set_copy-set =
        get_entry (content after lba) (λ i small. set_copy-sector lba i small ∙ ground arith)
      where
        get_entry :
            (b : Bytes)
            → ((i : ℕ) → i < 512 → b i ≡ changed i)
            → get32 b (c * 4 % 512) % 2 ^ 28 ≡ v % 2 ^ 28
        get_entry b h = omega (
          arith,
          get32_ext b changed (c * 4 % 512) h (omega arith),
          get32-put32_self (content dev lba) (c * 4 % 512)
              (merge_entry (get32 (content dev lba) (c * 4 % 512)) v) (omega arith),
        )

    set_copy-others :
        (j c' : ℕ)
        → c' * 4 / 512 < g.fat_size
        → (c' ≢ c) ⊎ (j ≢ f)
        → copy_entry g (content after) j c' ≡ copy_entry g (content dev) j c'
    set_copy-others j c' small ne = elim (Bool-cases (entry_lba g j c' == lba)) [
      | inl e ↦
          let same : entry_lba g j c' ≡ lba = (==_iff _ _).0 e in
          let copy_eq : j ≡ f =
            copies_apart j f g.fat_size (c' * 4 / 512) (c * 4 / 512) small
              (entry_lba_fits g f c vol k here).0 (omega arith) in
          let apart : c' ≢ c = ground arith in
          let row : c' * 4 / 512 ≡ c * 4 / 512 =
            omega (arith, ap (λ (n : ℕ). n * g.fat_size) copy_eq) in
          omega (
            arith,
            get32_ext (content after (entry_lba g j c')) changed (c' * 4 % 512)
                (λ i p. set_copy-sector (entry_lba g j c') i p ∙ rw e) (omega arith),
            get32-put32_ne (content dev lba) (c * 4 % 512) (c' * 4 % 512)
                (merge_entry (get32 (content dev lba) (c * 4 % 512)) v) (omega arith),
            ap (λ (l : ℕ). get32 (content dev l) (c' * 4 % 512)) same,
          )
      | inr e ↦
          ap (λ (n : ℕ). n % 2 ^ 28)
            (get32_ext _ _ (c' * 4 % 512) (λ i p. set_copy-sector (entry_lba g j c') i p ∙ rw e)
              (omega arith))
    ]

  pub set_copies-Updated :
      (g : Geometry) (left f c v : ℕ) (dev : d.Dev)
      → IsVolume g size
      → IsCluster g c
      → f + left ≤ g.num_fats
      → Updated g left f c v dev (set_copies d left f (c * 4 % 2 ^ 32) v g dev)
  unfolding set_copies
  set_copies-Updated g zero f c v dev vol k h = record {
    done = refl;
    set = λ j p q. absurd (omega arith);
    others = λ j c' small ne. refl;
    outside = λ l i p small. refl;
  }
  set_copies-Updated g (suc left) f c v dev vol k h =
      let here : f < g.num_fats = omega arith in
      let (t0, t1, t2, t3) = entry_lba_fits g f c vol k here in
      let rest =
        set_copies-Updated g left (f + 1) c v (after g f c v dev vol k here) vol k (omega arith) in
      rw (set_copy-done g f c v dev vol k here) (record {
        done = rest.done;
        set = λ j p q. elim (Bool-cases (j == f)) [
          | inl e ↦
              let at : j ≡ f = (==_iff _ _).0 e in
              rest.others j c t0 (inr (inl (omega arith)))
              ∙ rw at (set_copy-set g f c v dev vol k here)
          | inr e ↦ rest.set j (ground arith) (omega arith)
        ];
        others = λ j c' small ne.
            rest.others j c' small (ground arith)
            ∙ set_copy-others g f c v dev vol k here j c' small (ground arith);
        outside = λ l i p small.
            let other : (l == entry_lba g f c) ≡ false = ground arith in
            rest.outside l i p small ∙ set_copy-sector g f c v dev vol k here l i small ∙ rw other;
      })
