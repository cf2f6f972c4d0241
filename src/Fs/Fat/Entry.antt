-- ===== src/Fs/Fat/Entry.antt =====
-- fat_set_entry against get_next_cluster, and the table against the clusters' bytes.
use mathlib.Core.Path.{subst}
use zareboon_os.Prelude.{
  ℕ, ◌+◌, ◌*◌, ◌/◌, ◌%◌, ◌^◌, ◌<◌, ◌≤◌, ◌≡◌, ◌≢◌, refl, ap, sym, ◌∙◌, Bool, true, ◌==◌,
  if◌then◌else◌, arith, Bool-cases, inl, inr, ◌⊎◌, ==_iff,
}
use zareboon_os.Fs.Device.{SectorDevice, Bytes, IsReliable}
use zareboon_os.Fs.Volume.{Geometry, Fs}
use zareboon_os.Fs.Volume.Laws.{IsVolume, IsCluster, cluster_byte, cluster_lba}
use zareboon_os.Fs.Fat.{get_next_cluster, fat_set_entry}
use zareboon_os.Fs.Fat.Laws.{copy_entry, fat_entry, get_next_cluster_lem, set_copies-Updated}

module _ (d : SectorDevice) (size : ℕ) (content : d.Dev → ℕ → Bytes)
    (rel : IsReliable d size content) where
  -- The entry of a cluster set on a working device: the call succeeds, every copy of the table
  -- holds the low 28 bits of the value, no other entry of any copy changes, no byte outside the
  -- table changes, and of the state only the device does.
  pub record EntrySet (c v : ℕ) (s : Fs d) (out : Bool × Fs d) : Type 0 where
    pub done : out.0 ≡ true
    pub set : (k : ℕ) → k < s.geo.num_fats → copy_entry s.geo (content out.1.dev) k c ≡ v % 2 ^ 28
    pub others :
        (k c' : ℕ)
        → IsCluster s.geo c'
        → c' ≢ c
        → copy_entry s.geo (content out.1.dev) k c' ≡ copy_entry s.geo (content s.dev) k c'
    pub outside :
        (l i : ℕ)
        → (l < s.geo.partition_lba + s.geo.reserved_sectors)
          ⊎ (s.geo.partition_lba + s.geo.data_sec ≤ l)
        → i < 512
        → content out.1.dev l i ≡ content s.dev l i
    pub frame : out.1 ≡ record s { dev = out.1.dev }

  -- On a well-formed volume and a working device fat_set_entry succeeds, sets the entry of a cluster
  -- of the data area in every copy of the table to the low 28 bits of the value, and changes no
  -- other entry, no byte outside the table, and of the state only the device.
  pub fat_set_entry-EntrySet :
      (c v : ℕ) (s : Fs d)
      → IsVolume s.geo size
      → IsCluster s.geo c
      → EntrySet c v s (fat_set_entry d c v s)
  unfolding fat_set_entry
  fat_set_entry-EntrySet c v s vol k =
      let u =
        set_copies-Updated d size content rel s.geo s.geo.num_fats 0 c v s.dev vol k
          (omega arith) in
      simp vol.is_ready (record {
        done = u.done;
        set = λ j h. u.set j (omega arith) (omega arith);
        others = λ j c' k' ne. u.others j c' (omega (arith, vol.entries)) (inl ne);
        outside = λ l i p small. u.outside l i (omega arith) small;
        frame = refl;
      })

  pub next_value :
      (c : ℕ) (s : Fs d) (g : Geometry)
      → s.geo ≡ g
      → IsVolume g size
      → IsCluster g c
      → (get_next_cluster d c s).0 ≡ fat_entry g (content s.dev) c
  next_value c s g e =
      subst
        (λ (h : Geometry).
          IsVolume h size
          → IsCluster h c
          → (get_next_cluster d c s).0 ≡ fat_entry h (content s.dev) c)
        e (λ v k. (get_next_cluster_lem d size content rel c s v k).0)

  -- On a well-formed volume and a working device, for clusters of the data area: what was set is
  -- read back, modulo 2 ^ 28; every other cluster's successor stays.
  pub get_next_cluster-fat_set_entry :
      (c v c' : ℕ) (s : Fs d)
      → IsVolume s.geo size
      → IsCluster s.geo c
      → IsCluster s.geo c'
      → (get_next_cluster d c' (fat_set_entry d c v s).1).0
        ≡ (if c' == c then v % 2 ^ 28 else (get_next_cluster d c' s).0)
  get_next_cluster-fat_set_entry c v c' s vol k k' =
      let e = fat_set_entry-EntrySet c v s vol k in
      let s1 = (fat_set_entry d c v s).1 in
      let same : s1.geo ≡ s.geo = ap (λ (t : Fs d). t.geo) e.frame in
      next_value c' s1 s.geo same vol k' ∙ elim (Bool-cases (c' == c)) [
        | inl h ↦ let at : c' ≡ c = (==_iff _ _).0 h in rw h (rw at (e.set 0 vol.fats_pos))
        | inr h ↦ rw h (e.others 0 c' k' (ground arith) ∙ sym (next_value c' s s.geo refl vol k'))
      ]

  -- On a well-formed volume and a working device the bytes of a cluster of the data area are the
  -- same after the entry of one was set.
  pub cluster_byte-fat_set_entry :
      (c v c' i : ℕ) (s : Fs d)
      → IsVolume s.geo size
      → IsCluster s.geo c
      → IsCluster s.geo c'
      → i < s.geo.sec_per_clus * 512
      → cluster_byte s.geo (content (fat_set_entry d c v s).1.dev) c' i
        ≡ cluster_byte s.geo (content s.dev) c' i
  cluster_byte-fat_set_entry c v c' i s vol k k' small =
      (fat_set_entry-EntrySet c v s vol k).outside (cluster_lba s.geo c' + i / 512) (i % 512)
        (inr (omega arith)) (omega arith)
