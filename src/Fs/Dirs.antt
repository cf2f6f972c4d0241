-- ===== src/Fs/Dirs.antt =====
-- Directories made and removed: make_dir and remove_dir.
use zareboon_os.Prelude.{
  ℕ, zero, suc, ◌*◌, ◌/◌, Bool, true, false, not, none, some, ◌==◌, if◌then◌else◌, ltb, List,
}
use zareboon_os.Fs.Device.{SectorDevice, Bytes}
use zareboon_os.Fs.Bytes.{copy, put8}
use zareboon_os.Fs.Names.{name_bytes}
use zareboon_os.Fs.Volume.{
  Fs, Run, ◌>>=◌, ◌>>◌, pure, lift, cluster_size, read_cluster, write_cluster,
}
use zareboon_os.Fs.Fat.{
  is_data, no_cluster, get_next_cluster, find_free_cluster, fat_set_entry, free_cluster_chain,
}
use zareboon_os.Fs.Entries.{
  ended, at, further, attributes, entry_cluster, is_dir, find_any, find_slot, find_used, zero_entry,
  put_name, put_attributes, put_cluster, put_size,
}

-- How make_dir ends: without a word, with one of its three notices, or with the directory made.
pub data Made : Type 0 where
  unavailable no_free_clusters fat_write_failed directory_full made : Made

-- How remove_dir ends.
pub data Removed : Type 0 where
  unavailable not_found not_a_directory not_empty removed : Removed

-- A name of blanks but for the dots that it begins with.
abbrev pub dots : ℕ → Bytes
dots n i = if ltb i n then b'.' else b' '

-- The first cluster of a new directory, over what the buffer held.
unfoldable pub new_directory : Bytes → ℕ → ℕ → Bytes
unfolding copy put_name put_attributes put_cluster
new_directory old cluster_bytes new_clus =
    let zeroed = copy old 0 (λ _. 0) 0 cluster_bytes in
    let named = put_name (put_name zeroed 0 (dots 1)) 1 (dots 2) in
    let first = put_cluster (put_attributes named 0 0x10) 0 new_clus in
    put_cluster (put_attributes first 1 0x10) 1 0

-- Entry `i` made the directory `name` at `new_clus`.
unfoldable pub directory_entry : Bytes → ℕ → Bytes → ℕ → Bytes
unfolding zero_entry put_name put_attributes put_cluster put_size
directory_entry b i name new_clus =
    put_size (put_cluster (put_attributes (put_name (zero_entry b i) i name) i 0x10) i new_clus) i 0

module _ (d : SectorDevice) where
  unfoldable pub read_mkdir : ℕ → Fs d → Bytes × Fs d
  unfolding read_cluster
  read_mkdir c s = let (b, s') = read_cluster d c s.mkdir_buf s in (b, record s' { mkdir_buf = b })

  -- A static buffer is set, and written to a cluster.
  unfoldable pub write_mkdir : ℕ → Bytes → Fs d → Bool × Fs d
  unfolding write_cluster
  write_mkdir c b s = write_cluster d c b (record s { mkdir_buf = b })

  -- The walk of make_dir along the root directory.
  unfoldable pub mkdir_loop : ℕ → Bytes → ℕ → ℕ → Run d Made
  unfolding read_mkdir write_mkdir find_slot directory_entry get_next_cluster fat_set_entry
      cluster_size
  mkdir_loop zero name new_clus c s = none
  mkdir_loop (suc fuel) name new_clus c s = elim (is_data c) [
    | false ↦ let (cleared, s1) = fat_set_entry d new_clus 0 s in some (directory_full, s1)
    | true ↦
        let (b, s1) = read_mkdir c s in
        elim (find_slot (cluster_size s.geo / 32) 0 b) [
          | some i ↦
              let (written, s2) = write_mkdir c (directory_entry b i name new_clus) s1 in
              some (made, s2)
          | none ↦ let (next, s2) = get_next_cluster d c s1 in mkdir_loop fuel name new_clus next s2
        ]
  ]

  -- make_dir from the cluster found: it is marked as an end, filled, and entered in the root.
  unfoldable pub mkdir_at : ℕ → Bytes → ℕ → Run d Made
  unfolding mkdir_loop new_directory fat_set_entry write_mkdir cluster_size
  mkdir_at fuel name new_clus s =
      let (marked, s1) = fat_set_entry d new_clus no_cluster s in
      elim marked [
        | false ↦ some (fat_write_failed, s1)
        | true ↦
            let b = new_directory s1.mkdir_buf (cluster_size s1.geo) new_clus in
            let (written, s2) = write_mkdir new_clus b s1 in
            mkdir_loop fuel name new_clus s2.geo.root_cluster s2
      ]

  unfoldable pub make_dir : ℕ → List ℕ → Run d Made
  unfolding mkdir_at find_free_cluster
  make_dir fuel name s =
      let (c, s1) = find_free_cluster d s in
      let run = mkdir_at fuel (name_bytes name) c s1 in
      if not s.geo.ready
      then some (unavailable, s)
      else if c == no_cluster
      then some (no_free_clusters, s1)
      else run

  unfoldable pub read_dir : ℕ → Fs d → Bytes × Fs d
  unfolding read_cluster
  read_dir c s = let (b, s') = read_cluster d c s.dir_buf s in (b, record s' { dir_buf = b })

  unfoldable pub dir_is_empty : ℕ → ℕ → Run d Bool
  unfolding read_dir get_next_cluster find_used cluster_size
  dir_is_empty zero c s = none
  dir_is_empty (suc fuel) c s = elim (is_data c) [
    | false ↦ some (true, s)
    | true ↦
        let (b, s1) = read_dir c s in
        elim (find_used (cluster_size s.geo / 32) 0 b) [
          | ended ↦ some (true, s1)
          | at i ↦ some (false, s1)
          | further ↦ let (next, s2) = get_next_cluster d c s1 in dir_is_empty fuel next s2
        ]
  ]

  unfoldable pub read_rmdir : ℕ → Fs d → Bytes × Fs d
  unfolding read_cluster
  read_rmdir c s = let (b, s') = read_cluster d c s.rmdir_buf s in (b, record s' { rmdir_buf = b })

  unfoldable pub write_rmdir : ℕ → Bytes → Fs d → Bool × Fs d
  unfolding write_cluster
  write_rmdir c b s = write_cluster d c b (record s { rmdir_buf = b })

  -- remove_dir at the entry `i` that bears the name, of the directory's cluster `c` in `b`.
  unfoldable pub rmdir_at : ℕ → ℕ → ℕ → Bytes → Run d Removed
  unfolding dir_is_empty write_rmdir free_cluster_chain put8 entry_cluster
  rmdir_at fuel c i b =
      if is_dir (attributes b i)
      then (dir_is_empty fuel (entry_cluster b i) >>= λ empty.
          if empty
          then (lift (write_rmdir c (put8 b (i * 32) 0xE5))
              >> free_cluster_chain d fuel (entry_cluster b i)
              >> pure removed)
          else pure not_empty)
      else pure not_a_directory

  unfoldable pub rmdir_loop : ℕ → Bytes → ℕ → Run d Removed
  unfolding rmdir_at read_rmdir find_any get_next_cluster cluster_size
  rmdir_loop zero target c s = none
  rmdir_loop (suc fuel) target c s = elim (is_data c) [
    | false ↦ some (not_found, s)
    | true ↦
        let (b, s1) = read_rmdir c s in
        elim (find_any (cluster_size s.geo / 32) 0 b target) [
          | ended ↦ some (not_found, s1)
          | at i ↦ rmdir_at fuel c i b s1
          | further ↦ let (next, s2) = get_next_cluster d c s1 in rmdir_loop fuel target next s2
        ]
  ]

  unfoldable pub remove_dir : ℕ → List ℕ → Run d Removed
  unfolding rmdir_loop
  remove_dir fuel name s =
      let run = rmdir_loop fuel (name_bytes name) s.geo.root_cluster s in
      if s.geo.ready then run else some (unavailable, s)
