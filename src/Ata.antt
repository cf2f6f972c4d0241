-- ===== src/Ata.antt =====
-- src/ata.c: the driver of the disk, over the ports of the machine. A uint8_t is a number below 256;
-- `|` and `&` on its bits are sums and tests of them.
pub mod Reads
mod Tests
use zareboon_os.Prelude.{
  ℕ, zero, suc, ◌+◌, ◌-◌, ◌*◌, ◌/◌, ◌%◌, ◌^◌, Bool, true, false, not, ◌&&◌, ◌||◌, Option, none,
  some, ◌==◌, if◌then◌else◌,
}
use zareboon_os.Fs.Device.{Bytes}

-- The instructions inb, outb, and `rep insw` and `rep outsw` of 256 words, on a state of the machine's
-- devices.
pub record Ports : Type 1 where
  pub Dev : Type 0
  pub inb : Dev → ℕ → ℕ × Dev
  pub outb : Dev → ℕ → ℕ → Dev
  pub insw : Dev → ℕ → Bytes × Dev
  pub outsw : Dev → ℕ → Bytes → Dev

-- The static variables. ata_found_index is an int.
pub record Ata (p : Ports) : Type 0 where
  pub dev : p.Dev
  pub last_status : ℕ
  pub last_error : ℕ
  pub found_index : ℕ
  pub io_base : ℕ
  pub ctrl_base : ℕ
  pub drive_bit : ℕ
  pub present : Bool

-- The bits ATA_SR_BSY, ATA_SR_DRQ, and ATA_SR_ERR or ATA_SR_DF.
abbrev pub is_busy : ℕ → Bool
is_busy status = status / 128 % 2 == 1

abbrev pub has_data : ℕ → Bool
has_data status = status / 8 % 2 == 1

abbrev pub has_failed : ℕ → Bool
has_failed status = (status % 2 == 1) || (status / 32 % 2 == 1)

abbrev pub ata_timeout : ℕ
ata_timeout = 1000000

module _ (p : Ports) where
  -- Four readings.
  abbrev pub ata_delay_400ns : ℕ → p.Dev → p.Dev
  ata_delay_400ns ctrl s = (p.inb (p.inb (p.inb (p.inb s ctrl).1 ctrl).1 ctrl).1 ctrl).1

  -- `while ((ata_inb(port) & ATA_SR_BSY) && --timeout)`: the flag is false for a timeout of 0.
  unfoldable pub wait_idle : ℕ → ℕ → p.Dev → Bool × p.Dev
  wait_idle zero port s = (false, s)
  wait_idle (suc timeout) port s =
      let (status, s1) = p.inb s port in
      let rest = wait_idle timeout port s1 in if is_busy status then rest else (true, s1)

  -- The loop that waits for the data of a command, with the last status read. The flag is false for an
  -- error and for a timeout of 0.
  unfoldable pub wait_data : ℕ → ℕ → ℕ → p.Dev → (Bool × ℕ) × p.Dev
  wait_data zero status port s = ((false, status), s)
  wait_data (suc timeout) status port s =
      let (status', s1) = p.inb s port in
      let rest = wait_data timeout status' port s1 in
      if has_failed status'
      then ((false, status'), s1)
      else if not (is_busy status') && has_data status'
      then ((true, status'), s1)
      else rest

  -- The same loop in ata_probe, which does not look at ATA_SR_BSY.
  unfoldable pub wait_identity : ℕ → ℕ → p.Dev → Bool × p.Dev
  wait_identity zero port s = (false, s)
  wait_identity (suc timeout) port s =
      let (status, s1) = p.inb s port in
      let rest = wait_identity timeout port s1 in
      if has_failed status then (false, s1) else if has_data status then (true, s1) else rest

  -- ata_probe up to the first reading of the status.
  abbrev pub identify : ℕ → ℕ → ℕ → p.Dev → p.Dev
  identify base ctrl slave s =
      let s1 = ata_delay_400ns ctrl (p.outb s (base + 6) (0xA0 + slave * 16)) in
      let s2 =
        p.outb (p.outb (p.outb (p.outb s1 (base + 2) 0) (base + 3) 0) (base + 4) 0) (base + 5) 0 in
      ata_delay_400ns ctrl (p.outb s2 (base + 7) 0xEC)

  unfoldable pub ata_probe : ℕ → ℕ → ℕ → p.Dev → Bool × p.Dev
  ata_probe base ctrl slave s =
      let (status, s1) = p.inb (identify base ctrl slave s) (base + 7) in
      let (idle, s2) = wait_idle ata_timeout (base + 7) s1 in
      let (low, s3) = p.inb s2 (base + 4) in
      let (high, s4) = p.inb s3 (base + 5) in
      let (ready, s5) = wait_identity ata_timeout (base + 7) s4 in
      if (status == 0) || (status == 0xFF)
      then (false, s1)
      else if not idle
      then (false, s2)
      else if not (low == 0)
      then (false, s3)
      else if not (high == 0)
      then (false, s4)
      else if not ready
      then (false, s5)
      else (true, (p.insw s5 base).1)

  -- One round of the inner loop of ata_init.
  unfoldable pub try_drive : ℕ → ℕ → ℕ → ℕ → Ata p → Ata p
  unfolding ata_probe
  try_drive bus slave base ctrl a =
      let (found, s) = ata_probe base ctrl slave a.dev in
      if a.present
      then a
      else if found
      then record a {
        dev = s;
        io_base = base;
        ctrl_base = ctrl;
        drive_bit = slave;
        found_index = bus * 2 + slave;
        present = true;
      }
      else record a { dev = s }

  unfoldable pub ata_init : Ata p → Ata p
  unfolding try_drive
  ata_init a =
      let a1 = record a {
        dev = p.outb (p.outb a.dev 0x3F6 0x02) 0x376 0x02;
        present = false;
        found_index = 2 ^ 32 - 1;
      } in
      let a2 = try_drive 0 1 0x1F0 0x3F6 (try_drive 0 0 0x1F0 0x3F6 a1) in
      try_drive 1 1 0x170 0x376 (try_drive 1 0 0x170 0x376 a2)

  -- ata_last_status and ata_last_error after a failure.
  abbrev pub failed : ℕ → p.Dev → Ata p → Ata p
  failed status s a =
      let (error, s1) = p.inb s (a.io_base + 1) in
      record a { dev = s1; last_status = status; last_error = error }

  abbrev pub absent : Ata p → Ata p
  absent a = record a { last_status = 0xEE; last_error = 0 }

  -- The registers of a command on one sector, and the command.
  abbrev pub send_command : ℕ → ℕ → Ata p → p.Dev → p.Dev
  send_command lba command a s =
      let s1 = p.outb s (a.io_base + 6) (0xE0 + a.drive_bit * 16 + lba / 2 ^ 24 % 16) in
      let s2 = p.outb (ata_delay_400ns a.ctrl_base s1) (a.io_base + 2) 1 in
      let s3 = p.outb s2 (a.io_base + 3) (lba % 256) in
      let s4 = p.outb s3 (a.io_base + 4) (lba / 2 ^ 8 % 256) in
      let s5 = p.outb s4 (a.io_base + 5) (lba / 2 ^ 16 % 256) in
      ata_delay_400ns a.ctrl_base (p.outb s5 (a.io_base + 7) command)

  unfoldable pub ata_read_sector : Ata p → ℕ → Option Bytes × Ata p
  ata_read_sector a lba =
      let (idle, s1) = wait_idle ata_timeout (a.io_base + 7) a.dev in
      let (status, s2) = p.inb s1 (a.io_base + 7) in
      let ((ready, last), s3) =
        wait_data ata_timeout 0 (a.io_base + 7) (send_command lba 0x20 a s1) in
      let (bytes, s4) = p.insw s3 a.io_base in
      if not a.present
      then (none, absent a)
      else if not idle
      then (none, failed status s2 a)
      else if not ready
      then (none, failed last s3 a)
      else (some bytes, record a { dev = s4 })

  unfoldable pub ata_write_sector : Ata p → ℕ → Bytes → Bool × Ata p
  ata_write_sector a lba buffer =
      let (idle, s1) = wait_idle ata_timeout (a.io_base + 7) a.dev in
      let (status, s2) = p.inb s1 (a.io_base + 7) in
      let ((ready, last), s3) =
        wait_data ata_timeout 0 (a.io_base + 7) (send_command lba 0x30 a s1) in
      let s4 = p.outb (p.outsw s3 a.io_base buffer) (a.io_base + 7) 0xE7 in
      let (flushed, s5) = wait_idle ata_timeout (a.io_base + 7) s4 in
      let (end, s6) = p.inb s5 (a.io_base + 7) in
      if not a.present
      then (false, absent a)
      else if not idle
      then (false, failed status s2 a)
      else if not ready
      then (false, failed last s3 a)
      else if not flushed || has_failed end
      then (false, failed end s6 a)
      else (true, record a { dev = s6 })
