-- ===== src/Ata/Reads.antt =====
-- The driver on a drive that works: ata_read_sector reads, and ata_write_sector writes, the sector
-- that is asked for.
use zareboon_os.Prelude.{
  ℕ, ◌+◌, ◌-◌, ◌*◌, ◌%◌, ◌^◌, ◌<◌, ◌≤◌, ◌≡◌, ◌⊎◌, true, false, ◌==◌, ltb, if◌then◌else◌,
}
use zareboon_os.Fs.Device.{Bytes}
use zareboon_os.Ata.{Ports, Ata, is_busy, has_data, has_failed, ata_timeout}

-- The sector that the registers of a command name.
abbrev pub sector_of : (ℕ → ℕ) → ℕ
sector_of regs = regs 3 + 2 ^ 8 * regs 4 + 2 ^ 16 * regs 5 + 2 ^ 24 * (regs 6 % 16)

-- What the ATA standard says of a drive that works, at the ports from `base` on: its sectors with
-- the data that it has taken for them, the registers as they were written last, the command that it
-- executes, and for how many readings of the status it stays busy, which are fewer than the driver
-- waits for. Only while it is not busy do its registers take a value, does it take a command and move
-- data; what is written to the registers of a busy drive it ignores, as far as its sectors go.
pub record IsDrive (p : Ports) (base : ℕ) (content : p.Dev → ℕ → Bytes) (regs : p.Dev → ℕ → ℕ)
    (command busy : p.Dev → ℕ) : Type 0 where
  pub brief : (s : p.Dev) → busy s < ata_timeout
  pub inb_content : (s : p.Dev) (port : ℕ) → content (p.inb s port).1 ≡ content s
  pub inb_regs : (s : p.Dev) (port : ℕ) → regs (p.inb s port).1 ≡ regs s
  pub inb_command : (s : p.Dev) (port : ℕ) → command (p.inb s port).1 ≡ command s
  pub inb_idle : (s : p.Dev) (port : ℕ) → busy s ≡ 0 → busy (p.inb s port).1 ≡ 0
  pub inb_busy : (s : p.Dev) → busy (p.inb s (base + 7)).1 ≡ busy s - 1
  pub status_busy : (s : p.Dev) → is_busy (p.inb s (base + 7)).0 ≡ ltb 0 (busy s)
  pub status_fine : (s : p.Dev) → has_failed (p.inb s (base + 7)).0 ≡ false
  pub status_data :
      (s : p.Dev)
      → busy s ≡ 0
      → (command s ≡ 0x20) ⊎ (command s ≡ 0x30)
      → has_data (p.inb s (base + 7)).0 ≡ true
  pub outb_content :
      (s : p.Dev) (r v : ℕ)
      → 2 ≤ r
      → r ≤ 6
      → busy s ≡ 0
      → content (p.outb s (base + r) v) ≡ content s
  pub outb_idle :
      (s : p.Dev) (r v : ℕ) → 2 ≤ r → r ≤ 6 → busy s ≡ 0 → busy (p.outb s (base + r) v) ≡ 0
  pub outb_regs :
      (s : p.Dev) (r v n : ℕ)
      → 2 ≤ r
      → r ≤ 7
      → busy s ≡ 0
      → regs (p.outb s (base + r) v) n ≡ (if n == r then v else regs s n)
  pub outb_command : (s : p.Dev) (v : ℕ) → busy s ≡ 0 → command (p.outb s (base + 7) v) ≡ v
  pub command_content :
      (s : p.Dev) (v : ℕ)
      → (v ≡ 0x20) ⊎ (v ≡ 0x30)
      → busy s ≡ 0
      → content (p.outb s (base + 7) v) ≡ content s
  pub flush_content : (s : p.Dev) → busy s ≡ 0 → content (p.outb s (base + 7) 0xE7) ≡ content s
  pub ignored :
      (s : p.Dev) (r v : ℕ)
      → 2 ≤ r
      → r ≤ 7
      → 0 < busy s
      → content (p.outb s (base + r) v) ≡ content s
  pub insw_value :
      (s : p.Dev)
      → command s ≡ 0x20
      → busy s ≡ 0
      → (p.insw s base).0 ≡ content s (sector_of (regs s))
  pub insw_content : (s : p.Dev) → content (p.insw s base).1 ≡ content s
  pub outsw_stores :
      (s : p.Dev) (b : Bytes) (l i : ℕ)
      → command s ≡ 0x30
      → busy s ≡ 0
      → i < 512
      → content (p.outsw s base b) l i ≡ (if l == sector_of (regs s) then b i else content s l i)

module _ (p : Ports) (a : Ata p) (content : p.Dev → ℕ → Bytes) (regs : p.Dev → ℕ → ℕ)
    (command busy : p.Dev → ℕ) (d : IsDrive p a.io_base content regs command busy) where
  -- A reading leaves the sectors, the registers and the command as they are.
  record Same (s s' : p.Dev) : Type 0 where
    content' : content s' ≡ content s
    regs' : regs s' ≡ regs s
    command' : command s' ≡ command s

  -- The command has arrived, and its registers name the sector.
  record Sent (s : p.Dev) (lba c : ℕ) (s' : p.Dev) : Type 0 where
    content' : content s' ≡ content s
    command' : command s' ≡ c
    sector : sector_of (regs s') ≡ lba
