-- ===== src/Fs/Fat.antt =====
-- The file allocation table: the successor of a cluster, the first free cluster, and an entry set.
pub mod Laws
pub mod Free
pub mod Chain
pub mod Entry
use zareboon_os.Prelude.{
  ℕ, zero, suc, ◌+◌, ◌-◌, ◌*◌, ◌/◌, ◌%◌, ◌^◌, Bool, true, false, not, ◌&&◌, ◌||◌, Option, none,
  some, ◌==◌, if◌then◌else◌, leb, ltb,
}
use zareboon_os.Fs.Device.{SectorDevice, Bytes}
use zareboon_os.Fs.Bytes.{get32, put32}
use zareboon_os.Fs.Volume.{Geometry, Fs, Run, ◌>>=◌, ◌>>◌, pure, lift, refill}

-- 0x0FFFFFFF: the end of a chain, and what find_free_cluster returns for none.
abbrev pub no_cluster : ℕ
no_cluster = 0x0FFFFFFF

-- `cluster >= 2 && cluster < 0x0FFFFFF8`, the test of every walk along a chain.
abbrev pub is_data : ℕ → Bool
is_data cluster = leb 2 cluster && ltb cluster 0x0FFFFFF8

-- `(*entry & 0xF0000000) | (value & 0x0FFFFFFF)`
abbrev pub merge_entry : ℕ → ℕ → ℕ
merge_entry old value = old / 2 ^ 28 % 16 * 2 ^ 28 + value % 2 ^ 28

-- The inner loop of find_free_cluster: `left` entries of the sector left, at entry `i`, for
-- cluster number `cluster`. `none` goes on with the next sector.
unfoldable pub free_in_sector : ℕ → ℕ → ℕ → ℕ → Bytes → Option ℕ
free_in_sector zero i cluster max_cluster fat = none
free_in_sector (suc left) i cluster max_cluster fat =
    let next = free_in_sector left (i + 1) (cluster + 1) max_cluster fat in
    if ltb cluster 2
    then next
    else if leb max_cluster cluster
    then some no_cluster
    else if get32 fat (i * 4) % 2 ^ 28 == 0
    then some cluster
    else next

-- One sector of the table: a read that fails ends the search with none found.
unfoldable pub free_in_read : ℕ → Geometry → Option Bytes → Option ℕ
unfolding free_in_sector get32
free_in_read sec g none = some no_cluster
free_in_read sec g (some fat) =
    let entries = g.bytes_per_sec / 4 in
    free_in_sector entries 0 (sec * entries % 2 ^ 32) ((g.total_clusters + 2) % 2 ^ 32) fat

module _ (d : SectorDevice) where
  unfoldable pub get_next_cluster : ℕ → Fs d → ℕ × Fs d
  unfolding get32
  get_next_cluster cluster s =
      let g = s.geo in
      let fat_offset = cluster * 4 % 2 ^ 32 in
      let fat_sector =
        (g.partition_lba + g.reserved_sectors + fat_offset / g.bytes_per_sec) % 2 ^ 32 in
      let ent_offset = fat_offset % g.bytes_per_sec in
      let (r, dev') = d.read s.dev fat_sector in
      let buffer = refill s.fat_buffer r in
      if not g.ready || (g.bytes_per_sec == 0)
      then (no_cluster, s)
      else (get32 buffer ent_offset % 2 ^ 28, record s { dev = dev'; fat_buffer = buffer })

  abbrev pub found_or : Option ℕ → ℕ × d.Dev → d.Dev → ℕ × d.Dev
  found_or none rest dev = rest
  found_or (some c) rest dev = (c, dev)

  -- The outer loop: `left` sectors left, at sector `sec` of the table.
  unfoldable pub free_from_sector : ℕ → ℕ → Geometry → d.Dev → ℕ × d.Dev
  unfolding free_in_read
  free_from_sector zero sec g dev = (no_cluster, dev)
  free_from_sector (suc left) sec g dev =
      let (r, dev') = d.read dev ((g.partition_lba + g.reserved_sectors + sec) % 2 ^ 32) in
      let rest = free_from_sector left (sec + 1) g dev' in found_or (free_in_read sec g r) rest dev'

  unfoldable pub find_free_cluster : Fs d → ℕ × Fs d
  unfolding free_from_sector
  find_free_cluster s =
      let g = s.geo in
      let (c, dev') = free_from_sector g.fat_size 0 g s.dev in
      if not g.ready || (g.bytes_per_sec == 0)
      then (no_cluster, s)
      else (c, record s { dev = dev' })

  -- The sector read is written back with the entry at `at` merged, if the read succeeded.
  unfoldable pub write_back : Option Bytes → d.Dev → ℕ → ℕ → ℕ → Bool × d.Dev
  unfolding get32 put32
  write_back none dev lba at value = (false, dev)
  write_back (some fat) dev lba at value =
      d.write dev lba (put32 fat at (merge_entry (get32 fat at) value))

  -- The body of fat_set_entry's loop: copy `f` of the table is read, changed and written back.
  unfoldable pub set_copy : ℕ → ℕ → ℕ → Geometry → d.Dev → Bool × d.Dev
  unfolding write_back
  set_copy f fat_offset value g dev =
      let at = fat_offset % g.bytes_per_sec in
      let lba =
        (g.partition_lba
          + g.reserved_sectors
          + f * g.fat_size % 2 ^ 32
          + fat_offset / g.bytes_per_sec)
        % 2 ^ 32 in
      let (r, dev') = d.read dev lba in write_back r dev' lba at value

  -- The loop, with `left` copies left, at copy `f`.
  unfoldable pub set_copies : ℕ → ℕ → ℕ → ℕ → Geometry → d.Dev → Bool × d.Dev
  unfolding set_copy
  set_copies zero f fat_offset value g dev = (true, dev)
  set_copies (suc left) f fat_offset value g dev =
      let (done, dev') = set_copy f fat_offset value g dev in
      let rest = set_copies left (f + 1) fat_offset value g dev' in
      if done then rest else (false, dev')

  unfoldable pub fat_set_entry : ℕ → ℕ → Fs d → Bool × Fs d
  unfolding set_copies
  fat_set_entry cluster value s =
      let g = s.geo in
      let (done, dev') = set_copies g.num_fats 0 (cluster * 4 % 2 ^ 32) value g s.dev in
      if g.ready then (done, record s { dev = dev' }) else (false, s)

  -- free_cluster_chain, with a round of fuel for each cluster of the chain and one for its end.
  unfoldable pub free_cluster_chain : ℕ → ℕ → Run d (Unit {0})
  unfolding get_next_cluster fat_set_entry
  free_cluster_chain zero cluster = λ s. none
  free_cluster_chain (suc fuel) cluster = elim (is_data cluster) [
    | true ↦ do
      next ← lift (get_next_cluster cluster)
      lift (fat_set_entry cluster 0)
      free_cluster_chain fuel next
    | false ↦ pure tt
  ]
