-- ===== src/Fs/Device.antt =====
-- The sector device below the file system: what fs.c calls of ata.c, and what a device that works
-- promises. A sector is its 512 bytes by their offset.
use zareboon_os.Prelude.{ℕ, ◌<◌, ◌≤◌, ◌^◌, ◌≡◌, Bool, true, Option, some, ◌==◌, if◌then◌else◌}

-- An array of bytes, by index.
abbrev pub Bytes : Type 0
Bytes = ℕ → ℕ

-- `init`, `read` and `write` are ata_init, ata_read_sector and ata_write_sector. A read that fails
-- gives `none`: it leaves the caller's buffer as it was.
pub record SectorDevice : Type 1 where
  pub Dev : Type 0
  pub init : Dev → Dev
  pub read : Dev → ℕ → Option Bytes × Dev
  pub write : Dev → ℕ → Bytes → Bool × Dev

-- A device of `size` sectors on which every transfer within its size succeeds. LBA28 addresses at
-- most 2 ^ 28 sectors.
pub record IsReliable (d : SectorDevice) (size : ℕ) (content : d.Dev → ℕ → Bytes) : Type 0 where
  pub lba28 : size ≤ 2 ^ 28
  pub read_value : (s : d.Dev) (lba : ℕ) → lba < size → (d.read s lba).0 ≡ some (content s lba)
  pub read_keeps : (s : d.Dev) (lba l : ℕ) → content (d.read s lba).1 l ≡ content s l
  pub write_done : (s : d.Dev) (lba : ℕ) (b : Bytes) → lba < size → (d.write s lba b).0 ≡ true
  pub write_stores :
      (s : d.Dev) (lba : ℕ) (b : Bytes) (l i : ℕ)
      → lba < size
      → i < 512
      → content (d.write s lba b).1 l i ≡ (if l == lba then b i else content s l i)
