-- ===== src/Fs/Write.antt =====
-- Files created, written and appended to: scan_root, store_entry, alloc_and_write and the three
-- calls over them.
pub mod Effects
pub mod Grown
pub mod Alloc
pub mod Rounds
pub mod Chains
pub mod Stored
pub mod Written
pub mod RoundTrip
use zareboon_os.Prelude.{
  ℕ, zero, suc, ◌+◌, ◌-◌, ◌*◌, ◌/◌, ◌%◌, ◌^◌, Bool, true, false, ◌||◌, Option, none, some, ◌==◌,
  if◌then◌else◌, ltb, List, min,
}
use zareboon_os.Fs.Device.{SectorDevice, Bytes}
use zareboon_os.Fs.Bytes.{copy}
use zareboon_os.Fs.Names.{name_bytes, fat_name_equal}
use zareboon_os.Fs.Volume.{Fs, Run, ◌>>=◌, ◌>>◌, pure, lift, cluster_size, write_cluster}
use zareboon_os.Fs.Fat.{
  is_data, no_cluster, get_next_cluster, find_free_cluster, fat_set_entry, free_cluster_chain,
}
use zareboon_os.Fs.Entries.{
  Code, ok, nofs, exists, nospace, io_error, is_directory, dirfull, Scan, ended, at, further,
  attributes, entry_cluster, entry_size, is_dir, is_label, zero_entry, put_name, put_attributes,
  put_cluster, put_size,
}
use zareboon_os.Fs.Read.{read_io}

-- dir_pos_t of an entry that was found, and what the copy of a found entry says.
pub record Pos : Type 0 where
  pub clus : ℕ
  pub idx : ℕ

pub record Hit : Type 0 where
  pub pos : Pos
  pub attr : ℕ
  pub first : ℕ
  pub size : ℕ

abbrev pub or_else : Option Pos → Pos → Option Pos
or_else none p = some p
or_else (some q) p = some q

-- The inner loop of scan_root: the first free entry so far, and where the scan stops.
unfoldable pub scan_entries : ℕ → ℕ → ℕ → Bytes → Bytes → Option Pos → Option Pos × Scan
unfolding fat_name_equal
scan_entries zero i c b target slot = (slot, further)
scan_entries (suc left) i c b target slot =
    let first = b (i * 32) in
    let free = (first == 0) || (first == 0xE5) in
    let slot' = if free then or_else slot (record { clus = c; idx = i }) else slot in
    let next = scan_entries left (i + 1) c b target slot' in
    if first == 0
    then (slot', ended)
    else if first == 0xE5
    then next
    else if attributes b i == 0x0F
    then next
    else if is_label (attributes b i)
    then next
    else if fat_name_equal (λ n. b (i * 32 + n)) target
    then (slot', at i)
    else next

-- The bytes of a new chain's cluster: `n` bytes of `data` from `from` on, and zeros behind them.
unfoldable pub fill_cluster : Bytes → ℕ → Bytes → ℕ → ℕ → Bytes
fill_cluster old cb src from n j =
    if ltb j cb then (if ltb j n then src (from + j) else 0) else old j

-- The stores of store_entry; a name makes the entry anew.
unfoldable pub stored_entry : Bytes → ℕ → Option Bytes → ℕ → ℕ → Bytes
unfolding zero_entry put_name put_attributes put_cluster put_size
stored_entry b i none first size = put_size (put_cluster b i first) i size
stored_entry b i (some name) first size =
    put_size (put_cluster (put_attributes (put_name (zero_entry b i) i name) i 0x20) i first) i size

module _ (d : SectorDevice) where
  unfoldable pub scan_loop : ℕ → Bytes → ℕ → Option Pos → Run d (Option Hit × Option Pos)
  unfolding read_io get_next_cluster scan_entries cluster_size entry_cluster entry_size
  scan_loop zero target c slot s = none
  scan_loop (suc fuel) target c slot s = elim (is_data c) [
    | false ↦ some ((none, slot), s)
    | true ↦
        let (b, s1) = read_io d c s in
        let (slot', stop) = scan_entries (cluster_size s.geo / 32) 0 c b target slot in
        elim stop [
          | ended ↦ some ((none, slot'), s1)
          | at i ↦ some (
            (
              some (record {
                pos = record { clus = c; idx = i };
                attr = attributes b i;
                first = entry_cluster b i;
                size = entry_size b i;
              }),
              slot',
            ),
            s1,
          )
          | further ↦
              let (next, s2) = get_next_cluster d c s1 in scan_loop fuel target next slot' s2
        ]
  ]

  unfoldable pub scan_root : ℕ → Bytes → Run d (Option Hit × Option Pos)
  unfolding scan_loop
  scan_root fuel target s = scan_loop fuel target s.geo.root_cluster none s

  -- A cluster is written from io_buf, filled anew.
  unfoldable pub write_io : ℕ → Bytes → Fs d → Bool × Fs d
  unfolding write_cluster
  write_io c b s = write_cluster d c b (record s { io_buf = b })

  unfoldable pub store_entry : Pos → Option Bytes → ℕ → ℕ → Fs d → Bool × Fs d
  unfolding read_io write_io stored_entry
  store_entry pos name first size s =
      let (b, s1) = read_io d pos.clus s in
      write_io pos.clus (stored_entry b pos.idx name first size) s1

  -- The body of alloc_and_write's loop behind find_free_cluster: the new cluster `c` is marked as
  -- an end and linked behind `prev`. The flag is false for FS_ERR_IO.
  unfoldable pub link_cluster : ℕ → ℕ → Fs d → Bool × Fs d
  unfolding fat_set_entry
  link_cluster prev c s =
      let (marked, s1) = fat_set_entry d c no_cluster s in
      elim marked [
        | false ↦ (false, s1)
        | true ↦ elim (prev == 0) [
          | true ↦ (true, s1)
          | false ↦
              let (linked, s2) = fat_set_entry d prev c s1 in
              elim linked [
                | true ↦ (true, s2)
                | false ↦ let (undone, s3) = fat_set_entry d c 0 s2 in (false, s3)
              ]
        ]
      ]

  -- alloc_and_write with `size` bytes left, from index `from` of the data on: the code, and
  -- *first_out, which `first` is so far.
  unfoldable pub alloc_loop : ℕ → ℕ → Bytes → ℕ → ℕ → ℕ → Run d (Code × ℕ)
  unfolding find_free_cluster link_cluster write_io fill_cluster cluster_size
  alloc_loop zero prev src from size first s = none
  alloc_loop (suc fuel) prev src from size first s = elim (ltb 0 size) [
    | false ↦ some ((ok, first), s)
    | true ↦
        let (c, s1) = find_free_cluster d s in
        elim (c == no_cluster) [
          | true ↦ some ((nospace, first), s1)
          | false ↦
              let (linked, s2) = link_cluster prev c s1 in
              elim linked [
                | false ↦ some ((io_error, first), s2)
                | true ↦
                    let first' = if first == 0 then c else first in
                    let cb = cluster_size s.geo in
                    let n = min size cb in
                    let (written, s3) = write_io c (fill_cluster s2.io_buf cb src from n) s2 in
                    elim written [
                      | false ↦ some ((io_error, first'), s3)
                      | true ↦ alloc_loop fuel c src (from + n) (size - n) first' s3
                    ]
              ]
        ]
  ]

  abbrev pub code_of : Bool → Code
  code_of true = ok
  code_of false = io_error

  unfoldable pub fs_create_file : ℕ → List ℕ → Run d Code
  unfolding scan_root store_entry
  fs_create_file fuel name s =
      let target = name_bytes name in
      let run =
        (scan_root fuel target >>= λ (hit, slot). elim hit [
          | some h ↦ pure exists
          | none ↦ elim slot [
            | none ↦ pure dirfull
            | some pos ↦
                lift (store_entry pos (some target) 0 0) >>= λ stored. pure (code_of stored)
          ]
        ])
          s in
      if s.geo.ready then run else some (nofs, s)

  -- fs_write_file behind alloc_and_write: the entry is stored, or the new clusters given back.
  unfoldable pub finish_write : ℕ → Pos → ℕ → Code × ℕ → Run d Code
  unfolding store_entry free_cluster_chain
  finish_write fuel pos size (r, first) = elim r [
    | ok ↦ lift (store_entry pos none first size) >>= λ stored. pure (code_of stored)
    | other ↦ free_cluster_chain d fuel first >> pure other
  ]

  -- fs_write_file once the entry at `pos` stands empty.
  unfoldable pub write_at : ℕ → Pos → Bytes → ℕ → Run d Code
  unfolding alloc_loop finish_write
  write_at fuel pos src size = alloc_loop fuel 0 src 0 size 0 >>= finish_write fuel pos size

  -- The entry of a file that exists is emptied, and its chain freed.
  unfoldable pub empty_entry : ℕ → Hit → Run d Bool
  unfolding store_entry free_cluster_chain
  empty_entry fuel h = lift (store_entry h.pos none 0 0) >>= λ stored. elim stored [
    | false ↦ pure false
    | true ↦ free_cluster_chain d fuel h.first >> pure true
  ]

  unfoldable pub fs_write_file : ℕ → List ℕ → Bytes → ℕ → Run d Code
  unfolding scan_root store_entry write_at empty_entry
  fs_write_file fuel name src size s =
      let target = name_bytes name in
      let run =
        (scan_root fuel target >>= λ (hit, slot). elim hit [
          | some h ↦ elim (is_dir h.attr) [
            | true ↦ pure is_directory
            | false ↦ empty_entry fuel h >>= λ done. elim done [
              | false ↦ pure io_error
              | true ↦ write_at fuel h.pos src size
            ]
          ]
          | none ↦ elim slot [
            | none ↦ pure dirfull
            | some pos ↦ lift (store_entry pos (some target) 0 0) >>= λ stored. elim stored [
              | false ↦ pure io_error
              | true ↦ write_at fuel pos src size
            ]
          ]
        ])
          s in
      if s.geo.ready then run else some (nofs, s)

  -- The walk of fs_append_file to the last cluster of a chain, with the clusters counted.
  unfoldable pub last_loop : ℕ → ℕ → ℕ → Run d (ℕ × ℕ)
  unfolding get_next_cluster
  last_loop zero last count s = none
  last_loop (suc fuel) last count s =
      let (next, s1) = get_next_cluster d last s in
      elim (is_data next) [
        | false ↦ some ((last, count), s1)
        | true ↦ last_loop fuel next ((count + 1) % 2 ^ 32) s1
      ]

  -- The bytes of the last cluster in use: what the file's size leaves for it, at most a cluster.
  unfoldable pub used_in_last : ℕ → ℕ → ℕ → ℕ
  used_in_last old_size count cb =
      let before = (count + 2 ^ 32 - 1) % 2 ^ 32 * cb % 2 ^ 32 in
      min (if ltb before old_size then old_size - before else 0) cb

  -- The gap of the last cluster is filled with the first `fill` bytes of the data.
  unfoldable pub fill_last : ℕ → ℕ → ℕ → Bytes → Fs d → Bool × Fs d
  unfolding read_io write_io copy
  fill_last last used fill src s =
      let (b, s1) = read_io d last s in
      let filled = write_io last (copy b used src 0 fill) s1 in
      if ltb 0 fill then filled else (true, s)

  -- The rest goes to new clusters behind `last`; on an error they are given back.
  unfoldable pub append_rest : ℕ → ℕ → Bytes → ℕ → ℕ → Run d Code
  unfolding alloc_loop fat_set_entry free_cluster_chain
  append_rest fuel last src from rest = elim (ltb 0 rest) [
    | false ↦ pure ok
    | true ↦ alloc_loop fuel last src from rest 0 >>= λ (r, first). elim r [
      | ok ↦ pure ok
      | other ↦
          lift (fat_set_entry d last no_cluster) >> free_cluster_chain d fuel first >> pure other
    ]
  ]

  -- fs_append_file to a file that has clusters.
  unfoldable pub append_to : ℕ → Hit → Bytes → ℕ → Run d Code
  unfolding last_loop used_in_last fill_last append_rest store_entry cluster_size
  append_to fuel h src size s =
      (last_loop fuel h.first 1 >>= λ (last, count).
      let cb = cluster_size s.geo in
      let used = used_in_last h.size count cb in
      let fill = min (cb - used) size in
      lift (fill_last last used fill src) >>= λ filled. elim filled [
        | false ↦ pure io_error
        | true ↦ append_rest fuel last src fill (size - fill) >>= λ r. elim r [
          | ok ↦ lift (store_entry h.pos none h.first ((h.size + size) % 2 ^ 32)) >>= λ stored.
              pure (code_of stored)
          | other ↦ pure other
        ]
      ])
        s

  unfoldable pub fs_append_file : ℕ → List ℕ → Bytes → ℕ → Run d Code
  unfolding scan_root fs_write_file append_to
  fs_append_file fuel name src size s =
      let run =
        (scan_root fuel (name_bytes name) >>= λ (hit, slot). elim hit [
          | none ↦ fs_write_file fuel name src size
          | some h ↦ elim (is_dir h.attr) [
            | true ↦ pure is_directory
            | false ↦ elim (size == 0) [
              | true ↦ pure ok
              | false ↦ elim (h.first == 0) [
                | true ↦ fs_write_file fuel name src size
                | false ↦ append_to fuel h src size
              ]
            ]
          ]
        ])
          s in
      if s.geo.ready then run else some (nofs, s)
