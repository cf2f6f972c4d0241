-- ===== src/Fs/Read.antt =====
-- Files found, read, printed and listed: fs_find_file, fs_read_file, fs_cat and fat32_list_files.
pub mod Laws
use zareboon_os.Prelude.{
  ℕ, zero, suc, ◌+◌, ◌-◌, ◌*◌, ◌/◌, ◌%◌, ◌^◌, Bool, true, false, not, ◌&&◌, ◌||◌, Option, none,
  some, ◌==◌, if◌then◌else◌, leb, ltb, List, [], ◌∷◌, ◌++◌, min,
}
use zareboon_os.Fs.Device.{SectorDevice, Bytes}
use zareboon_os.Fs.Bytes.{copy}
use zareboon_os.Fs.Names.{name_bytes}
use zareboon_os.Fs.Volume.{Geometry, Fs, Run, ◌>>=◌, ◌>>◌, pure, lift, cluster_size, read_cluster}
use zareboon_os.Fs.Fat.{is_data, get_next_cluster}
use zareboon_os.Fs.Entries.{
  FileInfo, Code, ok, nofs, notfound, Scan, ended, at, further, find_entry, list_entries,
  entry_cluster, entry_size,
}

-- What fs_cat prints for one byte.
unfoldable pub shown : ℕ → List ℕ
shown c =
    if c == 13
    then []
    else if c == 9
    then b' ' ∷ []
    else if not (c == 10) && (ltb c 32 || ltb 126 c)
    then b'.' ∷ []
    else c ∷ []

-- The inner loop of fs_cat: `n` bytes from `i` on. What is printed, and the last byte seen.
unfoldable pub show_bytes : ℕ → ℕ → Bytes → ℕ → List ℕ × ℕ
unfolding shown
show_bytes zero i b last = ([], last)
show_bytes (suc n) i b last =
    let (out, last') = show_bytes n (i + 1) b (b i) in (shown (b i) ++ out, last')

module _ (d : SectorDevice) where
  -- read_cluster into a static buffer, which the result names as well.
  unfoldable pub read_root : ℕ → Fs d → Bytes × Fs d
  unfolding read_cluster
  read_root c s =
      let (b, s') = read_cluster d c s.root_buffer s in (b, record s' { root_buffer = b })

  unfoldable pub read_file_cluster : ℕ → Fs d → Bytes × Fs d
  unfolding read_cluster
  read_file_cluster c s =
      let (b, s') = read_cluster d c s.cluster_buf s in (b, record s' { cluster_buf = b })

  unfoldable pub read_list : ℕ → Fs d → Bytes × Fs d
  unfolding read_cluster
  read_list c s =
      let (b, s') = read_cluster d c s.list_buffer s in (b, record s' { list_buffer = b })

  unfoldable pub read_io : ℕ → Fs d → Bytes × Fs d
  unfolding read_cluster
  read_io c s = let (b, s') = read_cluster d c s.io_buf s in (b, record s' { io_buf = b })

  -- The outer loop of fs_find_file; `none` inside is its `false`.
  unfoldable pub find_loop : ℕ → Bytes → ℕ → Run d (Option FileInfo)
  unfolding read_root get_next_cluster find_entry entry_cluster entry_size cluster_size
  find_loop zero target c s = none
  find_loop (suc fuel) target c s = elim (is_data c) [
    | false ↦ some (none, s)
    | true ↦
        let per_cluster = cluster_size s.geo / 32 in
        let (b, s1) = read_root c s in
        elim (per_cluster == 0) [
          | true ↦ some (none, s1)
          | false ↦ elim (find_entry per_cluster 0 b target) [
            | ended ↦ some (none, s1)
            | at i ↦ some (
              some (record { start_cluster = entry_cluster b i; file_size = entry_size b i }),
              s1,
            )
            | further ↦ let (next, s2) = get_next_cluster d c s1 in find_loop fuel target next s2
          ]
        ]
  ]

  unfoldable pub fs_find_file : ℕ → List ℕ → Run d (Option FileInfo)
  unfolding find_loop
  fs_find_file fuel filename s =
      let found = find_loop fuel (name_bytes filename) s.geo.root_cluster s in
      if s.geo.ready then found else some (none, s)

  -- The loop of fs_read_file: what is in `dest`, and the number of bytes read.
  unfoldable pub read_loop : ℕ → ℕ → ℕ → ℕ → Bytes → Run d (Bytes × ℕ)
  unfolding read_file_cluster get_next_cluster cluster_size copy
  read_loop zero c left total dest s = none
  read_loop (suc fuel) c left total dest s = elim (is_data c && ltb 0 left) [
    | false ↦ some ((dest, total), s)
    | true ↦
        let (b, s1) = read_file_cluster c s in
        let to_copy = min left (cluster_size s.geo) in
        let (next, s2) = get_next_cluster d c s1 in
        read_loop fuel next (left - to_copy) (total + to_copy) (copy dest total b 0 to_copy) s2
  ]

  unfoldable pub fs_read_file : ℕ → FileInfo → Bytes → ℕ → Run d (Bytes × ℕ)
  unfolding read_loop
  fs_read_file fuel info dest max_size s =
      let run = read_loop fuel info.start_cluster (min info.file_size max_size) 0 dest s in
      if s.geo.ready then run else some ((dest, 0), s)

  unfoldable pub list_loop : ℕ → ℕ → Run d (List ℕ)
  unfolding read_list get_next_cluster list_entries cluster_size
  list_loop zero c s = none
  list_loop (suc fuel) c s = elim (is_data c) [
    | false ↦ some ([], s)
    | true ↦
        let per_cluster = cluster_size s.geo / 32 in
        let (b, s1) = read_list c s in
        elim (per_cluster == 0) [
          | true ↦ some ([], s1)
          | false ↦
              let (out, end) = list_entries per_cluster 0 b in
              elim end [
                | true ↦ some (out, s1)
                | false ↦
                    let (next, s2) = get_next_cluster d c s1 in
                    (list_loop fuel next >>= λ more. pure (out ++ more)) s2
              ]
        ]
  ]

  -- What is printed; `none` inside for the notice that there is no file system.
  unfoldable pub fat32_list_files : ℕ → Run d (Option (List ℕ))
  unfolding list_loop
  fat32_list_files fuel s =
      let run = (list_loop fuel s.geo.root_cluster >>= λ out. pure (some out)) s in
      if s.geo.ready then run else some (none, s)

  -- The loop of fs_cat: what is printed, and the last byte.
  unfoldable pub cat_loop : ℕ → ℕ → ℕ → ℕ → Run d (List ℕ × ℕ)
  unfolding read_io get_next_cluster show_bytes cluster_size
  cat_loop zero c left last s = none
  cat_loop (suc fuel) c left last s = elim (is_data c && ltb 0 left) [
    | false ↦ some (([], last), s)
    | true ↦
        let (b, s1) = read_io c s in
        let n = min left (cluster_size s.geo) in
        let (out, last') = show_bytes n 0 b last in
        let (next, s2) = get_next_cluster d c s1 in
        (cat_loop fuel next (left - n) last' >>= λ (more, end). pure (out ++ more, end)) s2
  ]

  -- The code returned, and what is printed.
  unfoldable pub fs_cat : ℕ → List ℕ → Run d (Code × List ℕ)
  unfolding fs_find_file cat_loop
  fs_cat fuel name s =
      let run =
        (fs_find_file fuel name >>= λ found. elim found [
          | none ↦ pure (notfound, [])
          | some info ↦ cat_loop fuel info.start_cluster info.file_size 10 >>= λ (out, last).
              pure (ok, out ++ (if last == 10 then [] else 10 ∷ []))
        ])
          s in
      if s.geo.ready then run else some ((nofs, []), s)
