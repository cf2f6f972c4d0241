-- ===== src/Fs/Volume.antt =====
-- The state of fs.c, fs_init, and whole clusters read and written. Integers are uint32_t with their
-- wrap written out; an array is its bytes by index.
pub mod Laws
use zareboon_os.Prelude.{
  ℕ, zero, suc, ◌+◌, ◌-◌, ◌*◌, ◌/◌, ◌%◌, ◌^◌, Bool, true, false, not, ◌&&◌, ◌||◌, Option, none,
  some, ◌==◌, if◌then◌else◌,
}
use zareboon_os.Fs.Device.{SectorDevice, Bytes}
use zareboon_os.Fs.Bytes.{get16, get32, copy}

-- The static variables that describe the volume.
pub record Geometry : Type 0 where
  pub ready : Bool
  pub bytes_per_sec : ℕ
  pub sec_per_clus : ℕ
  pub reserved_sectors : ℕ
  pub num_fats : ℕ
  pub fat_size : ℕ
  pub root_cluster : ℕ
  pub data_sec : ℕ
  pub total_clusters : ℕ
  pub partition_lba : ℕ

-- The volume, the device, and the static buffers whose old bytes a failed read leaves in place:
-- those of get_next_cluster, fs_find_file, fs_read_file, fat32_list_files, make_dir, remove_dir
-- and dir_is_empty, and io_buf.
pub record Fs (d : SectorDevice) : Type 0 where
  pub geo : Geometry
  pub dev : d.Dev
  pub fat_buffer : Bytes
  pub root_buffer : Bytes
  pub cluster_buf : Bytes
  pub list_buffer : Bytes
  pub mkdir_buf : Bytes
  pub rmdir_buf : Bytes
  pub dir_buf : Bytes
  pub io_buf : Bytes

-- A run of code whose loops take fuel: `none` when the fuel runs out.
abbrev pub Run : SectorDevice → Type 0 → Type 0
Run d A = Fs d → Option (A × Fs d)

module _ {d : SectorDevice} where
  abbrev pub pure : {A : Type 0} → A → Run d A
  pure a s = some (a, s)

  -- Code with no loop that needs fuel.
  abbrev pub lift : {A : Type 0} → (Fs d → A × Fs d) → Run d A
  lift f s = some (f s)

  infixl 5 ◌>>=◌ ◌>>◌
  abbrev pub ◌>>=◌ : {A B : Type 0} → Run d A → (A → Run d B) → Run d B
  ◌>>=◌ m k s = elim (m s) [ none ↦ none | some (a, s') ↦ k a s' ]

  abbrev pub ◌>>◌ : {A B : Type 0} → Run d A → Run d B → Run d B
  m >> k = m >>= λ _. k

abbrev pub fs_partition_lba : ℕ
fs_partition_lba = 64

-- What fs_init reads out of the boot sector, and computes from it.
unfoldable pub parse_boot : Bytes → Geometry → Geometry
unfolding get16 get32
parse_boot b g =
    let spc = b 0x0D in
    let parsed : Geometry = record g {
      bytes_per_sec = get16 b 0x0B;
      sec_per_clus = spc;
      reserved_sectors = get16 b 0x0E;
      num_fats = b 0x10;
      fat_size = get32 b 0x24;
      root_cluster = get32 b 0x2C;
    } in
    if not (get16 b 0x0B == 512) || (spc == 0)
    then record parsed { ready = false }
    else (let total = if get16 b 0x13 == 0 then get32 b 0x20 else get16 b 0x13 in
        let data_start = (get16 b 0x0E + b 0x10 * get32 b 0x24 % 2 ^ 32) % 2 ^ 32 in
        record parsed {
          ready = true;
          data_sec = data_start;
          total_clusters = (total + 2 ^ 32 - data_start) % 2 ^ 32 / spc;
        })

module _ (d : SectorDevice) where
  unfoldable pub fs_init : Fs d → Fs d
  unfolding parse_boot
  fs_init s =
      let g = record s.geo { partition_lba = fs_partition_lba } in
      let (r, dev') = d.read (d.init s.dev) fs_partition_lba in
      elim r [
        | none ↦ record s { geo = record g { ready = false }; dev = dev' }
        | some b ↦ record s { geo = parse_boot b g; dev = dev' }
      ]

unfoldable pub cluster_size : Geometry → ℕ
cluster_size g = g.bytes_per_sec * g.sec_per_clus % 2 ^ 32

unfoldable pub calculate_lba : Geometry → ℕ → ℕ
calculate_lba g cluster =
    (g.partition_lba + g.data_sec + (cluster + 2 ^ 32 - 2) % 2 ^ 32 * g.sec_per_clus) % 2 ^ 32

-- A buffer that a sector is read into whole, and one that it is read into at an offset.
abbrev pub refill : Bytes → Option Bytes → Bytes
refill old none = old
refill old (some b) = b

abbrev pub receive : Bytes → ℕ → Option Bytes → Bytes
receive old at none = old
receive old at (some b) = copy old at b 0 512

module _ (d : SectorDevice) where
  -- The loop of read_cluster with `left` rounds left, at sector `i`. The
  -- arrays that the code reads clusters into have 16384 bytes, 32 sectors; more rounds than that run
  -- past their end, where C leaves all undefined, and what they do here is no part of the model.
  unfoldable pub read_sectors : ℕ → ℕ → ℕ → d.Dev → Bytes → Bytes × d.Dev
  unfolding copy
  read_sectors zero i lba dev buffer = (buffer, dev)
  read_sectors (suc left) i lba dev buffer =
      let (r, dev') = d.read dev ((lba + i) % 2 ^ 32) in
      read_sectors left (i + 1) lba dev' (receive buffer (i * 512) r)

  unfoldable pub read_cluster : ℕ → Bytes → Fs d → Bytes × Fs d
  unfolding read_sectors calculate_lba
  read_cluster cluster buffer s =
      let g = s.geo in
      let (buffer', dev') = read_sectors g.sec_per_clus 0 (calculate_lba g cluster) s.dev buffer in
      if g.ready then (buffer', record s { dev = dev' }) else (buffer, s)

  -- The loop of write_cluster, which stops at the first sector that fails.
  unfoldable pub write_sectors : ℕ → ℕ → ℕ → Bytes → d.Dev → Bool × d.Dev
  write_sectors zero i lba buffer dev = (true, dev)
  write_sectors (suc left) i lba buffer dev =
      let (done, dev') = d.write dev ((lba + i) % 2 ^ 32) (λ k. buffer (i * 512 + k)) in
      let rest = write_sectors left (i + 1) lba buffer dev' in if done then rest else (false, dev')

  unfoldable pub write_cluster : ℕ → Bytes → Fs d → Bool × Fs d
  unfolding write_sectors calculate_lba
  write_cluster cluster buffer s =
      let g = s.geo in
      let (done, dev') = write_sectors g.sec_per_clus 0 (calculate_lba g cluster) buffer s.dev in
      if g.ready then (done, record s { dev = dev' }) else (false, s)
