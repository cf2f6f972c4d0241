-- ===== src/Fs/Bytes.antt =====
-- Little-endian fields of a byte array, as the casts `*(uint16_t*)` and `*(uint32_t*)` read and
-- write them on x86.
use zareboon_os.Prelude.{
  ℕ, ◌+◌, ◌-◌, ◌*◌, ◌/◌, ◌%◌, ◌^◌, ◌<◌, ◌≤◌, ◌≡◌, ◌⊎◌, arith, ltb, leb, ◌&&◌, ◌==◌, if◌then◌else◌,
}
use zareboon_os.Fs.Device.{Bytes}

unfoldable pub get16 : Bytes → ℕ → ℕ
get16 b i = b i + 256 * b (i + 1)

unfoldable pub get32 : Bytes → ℕ → ℕ
get32 b i = b i + 256 * b (i + 1) + 65536 * b (i + 2) + 16777216 * b (i + 3)

unfoldable pub put8 : Bytes → ℕ → ℕ → Bytes
put8 b i v j = if j == i then v % 256 else b j

unfoldable pub put16 : Bytes → ℕ → ℕ → Bytes
put16 b i v j = if j == i then v % 256 else if j == i + 1 then v / 256 % 256 else b j

unfoldable pub put32 : Bytes → ℕ → ℕ → Bytes
put32 b i v j =
    if j == i
    then v % 256
    else if j == i + 1
    then v / 256 % 256
    else if j == i + 2
    then v / 65536 % 256
    else if j == i + 3
    then v / 16777216 % 256
    else b j

pub get32-put32_self : (b : Bytes) (i v : ℕ) → v < 2 ^ 32 → get32 (put32 b i v) i ≡ v
unfolding get32 put32
get32-put32_self b i v h = ground arith

pub get32-put32_ne :
    (b : Bytes) (i j v : ℕ) → (i + 4 ≤ j) ⊎ (j + 4 ≤ i) → get32 (put32 b i v) j ≡ get32 b j
unfolding get32 put32
get32-put32_ne b i j v h = ground arith

-- `dest[at + k] = src[from + k]` for k from 0 to n - 1.
unfoldable pub copy : Bytes → ℕ → Bytes → ℕ → ℕ → Bytes
copy dest at src from n j = if leb at j && ltb j (at + n) then src (from + (j - at)) else dest j
