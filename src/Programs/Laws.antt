-- ===== src/Programs/Laws.antt =====
-- What exec_program runs, and which system calls are installed.
use zareboon_os.Prelude.{
  ℕ, ◌<◌, ◌≤◌, ◌≡◌, refl, ap, ◌∙◌, Bool, true, false, not, ◌||◌, Option, none, some, ◌==◌,
  if◌then◌else◌, ltb, arith, Bool-cases, inl, inr, List, length, min, tested, tested_at,
}
use zareboon_os.Fs.Device.{SectorDevice, Bytes, IsReliable}
use zareboon_os.Fs.Volume.{Geometry, Fs}
use zareboon_os.Fs.Volume.Laws.{IsVolume}
use zareboon_os.Fs.Fat.Chain.{Chain}
use zareboon_os.Fs.Entries.{FileInfo}
use zareboon_os.Fs.Read.{fs_read_file}
use zareboon_os.Fs.Read.Laws.{Reads, chain_byte, capacity, fs_read_file-Reads}
use zareboon_os.Programs.{
  Exec, bad_size, short_read, finished, aborted, program_max_size, run_loaded, load_program,
  Handler, unsupported, syscalls_init,
}

-- How a program whose file's clusters hold `room` bytes ends.
abbrev pub ending : Bool → ℕ → ℕ → Exec
ending abort size room =
    if (size == 0) || ltb program_max_size size
    then bad_size
    else if ltb room size
    then short_read
    else if abort
    then aborted
    else finished

abbrev pub is_unsupported : Handler → Bool
is_unsupported unsupported = true
is_unsupported other = false

module _ (d : SectorDevice) (size : ℕ) (content : d.Dev → ℕ → Bytes)
    (rel : IsReliable d size content) where
  -- How a load ends: as `ending` says, with the program's bytes in place when it is run, no byte
  -- past the file's size changed, and the contents of the device as they were.
  abbrev pub Loaded :
      Geometry
      → (ℕ → Bytes)
      → List ℕ
      → Bool
      → FileInfo
      → Bytes
      → Option ((Exec × Bytes) × Fs d)
      → Type 0
  Loaded g disk cs abort info memory none = ⊥
  Loaded g disk cs abort info memory (some ((e, out), s)) =
      (e ≡ ending abort info.file_size (capacity g cs))
      × ((i : ℕ)
          → 0 < info.file_size
          → info.file_size ≤ program_max_size
          → i < min info.file_size (capacity g cs)
          → out i ≡ chain_byte g disk cs i)
      × ((j : ℕ) → info.file_size ≤ j → out j ≡ memory j)
      × (content s.dev ≡ disk)

  Reads-Loaded :
      (g : Geometry) (disk : ℕ → Bytes) (cs : List ℕ) (abort : Bool) (info : FileInfo)
      (memory : Bytes)
      → 0 < info.file_size
      → info.file_size ≤ program_max_size
      → (o : Option ((Bytes × ℕ) × Fs d))
      → Reads d size content rel g disk cs (min info.file_size program_max_size) 0 memory o
      → Loaded g disk cs abort info memory
          (elim o [ none ↦ none | some (r, s) ↦ some (run_loaded abort info r, s) ])
  unfolding run_loaded
  Reads-Loaded g disk cs abort info memory pos fits none r = r
  Reads-Loaded g disk cs abort info memory pos fits (some ((out, n), s))
        (count, bytes, rest, keeps) =
      elim (Bool-cases (ltb (capacity g cs) info.file_size)) [
        | inl e ↦
            let short : (n == info.file_size) ≡ false = ground arith in
            rw short (rw e (ground arith), first, λ j p. rest j (omega arith), keeps)
        | inr e ↦
            let whole : (n == info.file_size) ≡ true = ground arith in
            rw whole (rw e (ground arith), first, λ j p. rest j (omega arith), keeps)
      ]
    where
      first :
          (i : ℕ)
          → 0 < info.file_size
          → info.file_size ≤ program_max_size
          → i < min info.file_size (capacity g cs)
          → out i ≡ chain_byte g disk cs i
      first i p q small = ap out (omega arith) ∙ bytes i (omega arith)

  -- On a well-formed volume, of at most 32 sectors a cluster, and a working device, when the clusters
  -- of the file form a chain and the fuel exceeds its length, exec_program, once
  -- the file is found, ends: a file that is empty or larger than 0x3F000 bytes is refused, one
  -- whose chain is shorter than its size is not run, and any other is run with the bytes of its
  -- clusters in memory and nothing changed behind them.
  pub load_program-Loaded :
      (cs : List ℕ) (fuel : ℕ) (abort : Bool) (info : FileInfo) (memory : Bytes) (s : Fs d)
      → IsVolume s.geo size
      → Chain s.geo (content s.dev) info.start_cluster cs
      → length cs < fuel
      → Loaded s.geo (content s.dev) cs abort info memory (load_program d fuel abort info memory s)
  unfolding load_program
  load_program-Loaded cs fuel abort info memory s vol h few =
      elim (Bool-cases ((info.file_size == 0) || ltb program_max_size info.file_size)) [
        | inl e ↦ rw e (rw e refl, λ i p q small. absurd (ground arith), λ j p. refl, refl)
        | inr e ↦ rw e (
            Reads-Loaded s.geo (content s.dev) cs abort info memory (ground arith) (ground arith)
              (fs_read_file d fuel info memory program_max_size s)
              (fs_read_file-Reads d size content rel cs fuel program_max_size info memory s vol h
                few))
      ]

all_tested :
    tested
      (λ i.
        if i == 15
        then is_unsupported (syscalls_init i)
        else not (is_unsupported (syscalls_init i)))
      17
    ≡ true
unfolding tested syscalls_init
all_tested = refl

-- Of the system calls that the interface numbers, from 0 to 16, syscalls_init installs a function
-- for every one but SYS_READ_FILE, which is 15.
pub syscalls_init-unsupported : (id : ℕ) → id < 17 → is_unsupported (syscalls_init id) ≡ (id == 15)
syscalls_init-unsupported id small = ground (arith, tested_at _ 17 all_tested id small)
