-- ===== src/Ata/Tests.antt =====
-- A drive in memory. It is busy for two readings of the status after each command and each sector
-- written; while it is busy it ignores what is written to it, and gives no data.
use zareboon_os.Prelude.{ℕ, ◌+◌, ◌-◌, ◌%◌, true, ◌==◌, if◌then◌else◌, not, ◌&&◌, ltb}
use zareboon_os.Fs.Device.{Bytes}
use zareboon_os.Ata.{Ports, Ata}
use zareboon_os.Ata.Reads.{sector_of}

record Drive : Type 0 where
  sectors : ℕ → Bytes
  regs : ℕ → ℕ
  left : ℕ

abbrev status_port : ℕ
status_port = 0x1F7

abbrev busy : Drive → ℕ
busy s = if ltb s.left 2 then s.left else 2

-- While the drive is busy no bit of the status but that one is set; then data is there.
abbrev ports : Ports
ports = record {
  Dev = Drive;
  inb = λ s port. (
    if ltb 0 s.left then 0x80 else 8,
    record s { left = if port == status_port then busy s - 1 else s.left },
  );
  outb = λ s port v. record s {
    regs = if ltb 0 s.left then s.regs else (λ n. if n + 0x1F0 == port then v else s.regs n);
    left = if not (ltb 0 s.left) && (port == status_port) then 2 else s.left;
  };
  insw = λ s port. (if ltb 0 s.left then (λ i. 0xFF) else s.sectors (sector_of s.regs), s);
  outsw = λ s port b. record s {
    sectors =
        if ltb 0 s.left
        then s.sectors
        else (λ l i. if l == sector_of s.regs then b i else s.sectors l i);
    left = 2;
  };
}

abbrev found : Ata ports
found = record {
  dev = record { sectors = λ l i. (l + i) % 256; regs = λ n. 0; left = 1 };
  last_status = 0;
  last_error = 0;
  found_index = 0;
  io_base = 0x1F0;
  ctrl_base = 0x3F6;
  drive_bit = 0;
  present = true;
}
