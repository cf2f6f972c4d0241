-- ===== src/Fs/Tests.antt =====
-- Runs of the file system on a small volume in memory, and its theorems there.
use zareboon_os.Prelude.{
  ℕ, ◌+◌, ◌%◌, ◌^◌, ◌≡◌, refl, true, false, Option, none, some, List, [], ◌∷◌, arith, ◌==◌,
  if◌then◌else◌, get_or, min,
}
use zareboon_os.Fs.Device.{SectorDevice, Bytes, IsReliable}
use zareboon_os.Fs.Bytes.{get32}
use zareboon_os.Fs.Names.{format_fat_name}
use zareboon_os.Fs.Volume.{Fs, Run, fs_init, ◌>>=◌, ◌>>◌, pure}
use zareboon_os.Fs.Volume.Laws.{IsVolume, IsCluster}
use zareboon_os.Fs.Fat.{get_next_cluster, find_free_cluster, fat_set_entry, free_cluster_chain}
use zareboon_os.Fs.Fat.Laws.{fat_entry}
use zareboon_os.Fs.Fat.Entry.{EntrySet, fat_set_entry-EntrySet, get_next_cluster-fat_set_entry}
use zareboon_os.Fs.Fat.Free.{IsLowest, find_free_cluster-IsLowest}
use zareboon_os.Fs.Fat.Chain.{Chain, Freed, free_cluster_chain-Freed}
use zareboon_os.Fs.Entries.{FileInfo, ok}
use zareboon_os.Fs.Read.{fs_find_file, fs_read_file, fs_cat, fat32_list_files}
use zareboon_os.Fs.Read.Laws.{Reads, fs_read_file-Reads}
use zareboon_os.Fs.Dirs.{removed, make_dir, remove_dir}
use zareboon_os.Fs.Write.{fs_create_file, fs_write_file, fs_append_file}
use zareboon_os.Programs.{not_found, load_program, exec_program}
use zareboon_os.Programs.Laws.{Loaded, load_program-Loaded}

-- Sectors in memory, none of which fails.
abbrev pub ram : SectorDevice
ram = record {
  Dev = ℕ → Bytes;
  init = λ s. s;
  read = λ s lba. (some (s lba), s);
  write = λ s lba b. (true, λ l i. if l == lba then b i else s l i);
}

-- One sector a cluster, one reserved sector, two tables of one sector, ten clusters.
abbrev boot_bytes : List ℕ
boot_bytes =
    0 ∷ 0 ∷ 0 ∷ 0 ∷ 0 ∷ 0 ∷ 0 ∷ 0 ∷ 0 ∷ 0 ∷ 0 ∷ 0x00 ∷ 0x02 ∷ 1 ∷ 1 ∷ 0 ∷ 2 ∷ 0 ∷ 0 ∷ 13 ∷ 0 ∷ 0 ∷ 0
    ∷ 0 ∷ 0 ∷ 0 ∷ 0 ∷ 0 ∷ 0 ∷ 0 ∷ 0 ∷ 0 ∷ 0 ∷ 0 ∷ 0 ∷ 0 ∷ 1 ∷ 0 ∷ 0 ∷ 0 ∷ 0 ∷ 0 ∷ 0 ∷ 0 ∷ 2 ∷ 0 ∷ 0
    ∷ 0 ∷ []

abbrev fat_bytes : List ℕ
fat_bytes = 0xF8 ∷ 0xFF ∷ 0xFF ∷ 0x0F ∷ 0xFF ∷ 0xFF ∷ 0xFF ∷ 0x0F ∷ 0xFF ∷ 0xFF ∷ 0xFF ∷ 0x0F ∷ []

abbrev disk : ℕ → Bytes
disk lba i =
    if lba == 64
    then get_or boot_bytes i 0
    else if (lba == 65)
    then get_or fat_bytes i 0
    else if (lba == 66)
    then get_or fat_bytes i 0
    else 0

abbrev pub empty : Bytes
empty i = 0

abbrev off : Fs ram
off = record {
  geo = record {
    ready = false;
    bytes_per_sec = 0;
    sec_per_clus = 0;
    reserved_sectors = 0;
    num_fats = 0;
    fat_size = 0;
    root_cluster = 0;
    data_sec = 0;
    total_clusters = 0;
    partition_lba = 0;
  };
  dev = disk;
  fat_buffer = empty;
  root_buffer = empty;
  cluster_buf = empty;
  list_buffer = empty;
  mkdir_buf = empty;
  rmdir_buf = empty;
  dir_buf = empty;
  io_buf = empty;
}

unfoldable pub booted : Fs ram
unfolding fs_init
booted = fs_init ram off

pub booted_geo : booted.geo ≡ record {
  ready = true;
  bytes_per_sec = 512;
  sec_per_clus = 1;
  reserved_sectors = 1;
  num_fats = 2;
  fat_size = 1;
  root_cluster = 2;
  data_sec = 3;
  total_clusters = 10;
  partition_lba = 64;
}
unfolding booted
booted_geo = refl

abbrev name : List ℕ
name = b'a' ∷ []

pub ram_reliable : IsReliable ram 77 (λ s. s)
ram_reliable = record {
  lba28 = omega arith;
  read_value = λ s lba h. refl;
  read_keeps = λ s lba l. refl;
  write_done = λ s lba b h. refl;
  write_stores = λ s lba b l i h small. ground arith;
}

pub booted-IsVolume : IsVolume booted.geo 77
booted-IsVolume = rw booted_geo (record {
  is_ready = refl;
  sector_bytes = refl;
  spc_pos = omega arith;
  spc_small = omega arith;
  fats_pos = omega arith;
  data_start = refl;
  table_small = omega arith;
  entries = omega arith;
  fits = omega arith;
})

pub second-IsCluster : IsCluster booted.geo 2
second-IsCluster = rw booted_geo (omega arith, omega arith)

third-IsCluster : IsCluster booted.geo 3
third-IsCluster = rw booted_geo (omega arith, omega arith)

-- What is left in a run: its value alone.
abbrev value_of : {A : Type 0} → Option (A × Fs ram) → Option A
value_of none = none
value_of (some (a, s)) = some a

abbrev pub pattern_bytes : Bytes
pattern_bytes i = i % 251

-- A file is written, found and read back: bytes 0, 511, 512 and 599, and the count.
abbrev read_back : List ℕ → Run ram (Option (FileInfo × List ℕ))
unfolding fs_find_file fs_read_file
read_back file = fs_find_file ram 20 file >>= λ found. elim found [
  | none ↦ pure none
  | some info ↦ fs_read_file ram 20 info empty 1000 >>= λ (dest, total).
      pure (some (info, total ∷ dest 0 ∷ dest 511 ∷ dest 512 ∷ dest 599 ∷ dest 600 ∷ []))
]

written_back :
    value_of ((fs_write_file ram 20 name pattern_bytes 600 >> read_back name) booted)
    ≡ some (some (record { start_cluster = 3; file_size = 600 }, 600 ∷ 0 ∷ 9 ∷ 10 ∷ 97 ∷ 0 ∷ []))
unfolding booted fs_write_file format_fat_name read_back
written_back = refl

appended :
    value_of (
      (fs_create_file ram 20 name
          >> fs_append_file ram 20 name pattern_bytes 300
          >> fs_append_file ram 20 name pattern_bytes 300
          >> read_back name)
        booted)
    ≡ some (some (record { start_cluster = 3; file_size = 600 }, 600 ∷ 0 ∷ 211 ∷ 212 ∷ 48 ∷ 0 ∷ []))
unfolding booted fs_create_file fs_append_file format_fat_name read_back
appended = refl

listed :
    value_of ((make_dir ram 20 name >> fat32_list_files ram 20) booted)
    ≡ some (some (b'A' ∷ b'/' ∷ 10 ∷ []))
unfolding booted make_dir fat32_list_files format_fat_name
listed = refl

made_and_removed : value_of ((make_dir ram 20 name >> remove_dir ram 20 name) booted) ≡ some removed
unfolding booted make_dir remove_dir format_fat_name
made_and_removed = refl

printed :
    value_of ((fs_write_file ram 20 name (λ i. b'a' + i) 3 >> fs_cat ram 20 name) booted)
    ≡ some (ok, b'a' ∷ b'b' ∷ b'c' ∷ 10 ∷ [])
unfolding booted fs_write_file fs_cat format_fat_name
printed = refl

fat_set_entry-EntrySet_example :
    EntrySet ram 77 (λ s. s) ram_reliable 3 7 booted (fat_set_entry ram 3 7 booted)
fat_set_entry-EntrySet_example =
    fat_set_entry-EntrySet ram 77 (λ s. s) ram_reliable 3 7 booted booted-IsVolume third-IsCluster

get_next_cluster-fat_set_entry_example :
    (get_next_cluster ram 3 (fat_set_entry ram 3 7 booted).1).0
    ≡ (if 3 == 3 then 7 % 2 ^ 28 else (get_next_cluster ram 3 booted).0)
get_next_cluster-fat_set_entry_example =
    get_next_cluster-fat_set_entry ram 77 (λ s. s) ram_reliable 3 7 3 booted booted-IsVolume
      third-IsCluster third-IsCluster

find_free_cluster-IsLowest_example :
    IsLowest
      (fat_entry booted.geo booted.dev)
      (booted.geo.total_clusters + 2)
      0
      (find_free_cluster ram booted).0
    × ((find_free_cluster ram booted).1.dev ≡ booted.dev)
    × ((find_free_cluster ram booted).1
        ≡ record booted { dev = (find_free_cluster ram booted).1.dev })
find_free_cluster-IsLowest_example =
    find_free_cluster-IsLowest ram 77 (λ s. s) ram_reliable booted booted-IsVolume

root-Chain : Chain booted.geo booted.dev 2 (2 ∷ [])
unfolding booted get32
root-Chain = (refl, second-IsCluster, refl, refl)

free_cluster_chain-Freed_example :
    Freed ram 77
      (λ s. s)
      ram_reliable
      booted.geo
      booted.dev
      (2 ∷ [])
      (free_cluster_chain ram 2 2 booted)
free_cluster_chain-Freed_example =
    free_cluster_chain-Freed ram 77 (λ s. s) ram_reliable (2 ∷ []) 2 2 booted booted-IsVolume refl
      refl root-Chain (tt, tt) (omega arith)

abbrev root_file : FileInfo
root_file = record { start_cluster = 2; file_size = 100 }

fs_read_file-Reads_example :
    Reads ram 77
      (λ s. s)
      ram_reliable
      booted.geo
      booted.dev
      (2 ∷ [])
      (min 100 60)
      0
      empty
      (fs_read_file ram 2 root_file empty 60 booted)
fs_read_file-Reads_example =
    fs_read_file-Reads ram 77 (λ s. s) ram_reliable (2 ∷ []) 2 60 root_file empty booted
      booted-IsVolume root-Chain (omega arith)

-- No program of that name is on the empty volume.
no_program : value_of (exec_program ram 20 false name empty booted) ≡ some (not_found, empty)
unfolding booted exec_program format_fat_name
no_program = refl

load_program-Loaded_example :
    Loaded ram 77
      (λ s. s)
      ram_reliable
      booted.geo
      booted.dev
      (2 ∷ [])
      false
      root_file
      empty
      (load_program ram 2 false root_file empty booted)
load_program-Loaded_example =
    load_program-Loaded ram 77 (λ s. s) ram_reliable (2 ∷ []) 2 false root_file empty booted
      booted-IsVolume root-Chain (omega arith)
