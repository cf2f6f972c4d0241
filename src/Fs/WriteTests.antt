-- ===== src/Fs/WriteTests.antt =====
-- A file written to the small volume in memory, and read back.
use zareboon_os.Prelude.{◌≡◌, ◌≢◌, refl, min, arith, Option, some, none}
use zareboon_os.Fs.Bytes.{get32}
use zareboon_os.Fs.Volume.{Fs}
use zareboon_os.Fs.Fat.Laws.{fat_entry}
use zareboon_os.Fs.Entries.{Code, ok}
use zareboon_os.Fs.Read.{fs_read_file}
use zareboon_os.Fs.Write.{Pos, write_at}
use zareboon_os.Fs.Write.Written.{Written, write_at-Written}
use zareboon_os.Fs.Write.RoundTrip.{file_at, ReadsBack, fs_read_file-write_at}
use zareboon_os.Fs.Tests.{
  ram, empty, pattern_bytes, ram_reliable, booted, booted_geo, booted-IsVolume, second-IsCluster,
}

-- The first entry of the root directory.
abbrev first_entry : Pos
first_entry = record { clus = 2; idx = 0 }

second_used : fat_entry booted.geo booted.dev 2 ≢ 0
unfolding booted get32
second_used e = cc

written : Option (Code × Fs ram)
unfolding write_at booted
written = write_at ram 601 first_entry pattern_bytes 600 booted

state_of : Option (Code × Fs ram) → Fs ram
state_of none = booted
state_of (some (r, s)) = s

written_ok : write_at ram 601 first_entry pattern_bytes 600 booted ≡ some (ok, state_of written)
unfolding written state_of
written_ok = refl

write_at-Written_example :
    Written ram 77
      (λ s. s)
      ram_reliable
      booted.geo
      booted.dev
      first_entry
      pattern_bytes
      600
      (write_at ram 601 first_entry pattern_bytes 600 booted)
write_at-Written_example =
    write_at-Written ram 77 (λ s. s) ram_reliable 601 600 first_entry pattern_bytes booted
      booted-IsVolume refl refl second-IsCluster second_used (rw booted_geo (omega arith))
      (omega arith) (omega arith)

fs_read_file-write_at_example : ReadsBack pattern_bytes (min 600 1000) empty (
    fs_read_file ram 601
      (file_at (state_of written).geo (state_of written).dev first_entry)
      empty
      1000
      (state_of written))
fs_read_file-write_at_example =
    fs_read_file-write_at ram 77 (λ s. s) ram_reliable 601 601 600 1000 first_entry pattern_bytes
      empty booted (state_of written) booted-IsVolume second-IsCluster second_used
      (rw booted_geo (omega arith)) (omega arith) (omega arith) (omega arith) written_ok
