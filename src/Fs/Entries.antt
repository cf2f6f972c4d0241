-- ===== src/Fs/Entries.antt =====
-- Directory entries of 32 bytes in a cluster's buffer, and the scans of one cluster.
use zareboon_os.Prelude.{
  ℕ, zero, suc, ◌+◌, ◌*◌, ◌/◌, ◌%◌, Bool, true, false, not, ◌&&◌, ◌||◌, Option, none, some, ◌==◌,
  if◌then◌else◌, List, [], ◌∷◌, ◌++◌,
}
use zareboon_os.Fs.Device.{Bytes}
use zareboon_os.Fs.Bytes.{get16, get32, put8, put16, put32, copy}
use zareboon_os.Fs.Names.{fat_name_equal}

-- file_info_t
pub record FileInfo : Type 0 where
  pub start_cluster : ℕ
  pub file_size : ℕ

-- FS_OK and the codes FS_ERR_... that the functions return.
pub data Code : Type 0 where
  ok nofs exists notfound nospace io_error is_directory dirfull : Code

-- The fields of fat_entry_t that the code reads, of entry `i` of a buffer.
abbrev pub entry_name : Bytes → ℕ → Bytes
entry_name b i n = b (i * 32 + n)

abbrev pub attributes : Bytes → ℕ → ℕ
attributes b i = b (i * 32 + 11)

-- `((uint32_t)cluster_high << 16) | cluster_low`
unfoldable pub entry_cluster : Bytes → ℕ → ℕ
unfolding get16
entry_cluster b i = get16 b (i * 32 + 20) * 65536 + get16 b (i * 32 + 26)

unfoldable pub entry_size : Bytes → ℕ → ℕ
unfolding get32
entry_size b i = get32 b (i * 32 + 28)

-- `attributes & 0x08` and `attributes & 0x10`
abbrev pub is_label : ℕ → Bool
is_label a = a / 8 % 2 == 1

abbrev pub is_dir : ℕ → Bool
is_dir a = a / 16 % 2 == 1

-- What a scan of one cluster's entries finds: the end mark, entry `i`, or nothing yet.
pub data Scan : Type 0 where
  ended : Scan
  at : ℕ → Scan
  further : Scan

-- The inner loop of fs_find_file: `left` entries left, at entry `i`.
unfoldable pub find_entry : ℕ → ℕ → Bytes → Bytes → Scan
unfolding fat_name_equal
find_entry zero i b target = further
find_entry (suc left) i b target =
    let next = find_entry left (i + 1) b target in
    let attr = attributes b i in
    if b (i * 32) == 0
    then ended
    else if b (i * 32) == 0xE5
    then next
    else if attr == 0x0F
    then next
    else if is_label attr
    then next
    else if is_dir attr
    then next
    else if fat_name_equal (entry_name b i) target
    then at i
    else next

-- The same loop in remove_dir, which stops at a directory too.
unfoldable pub find_any : ℕ → ℕ → Bytes → Bytes → Scan
unfolding fat_name_equal
find_any zero i b target = further
find_any (suc left) i b target =
    let next = find_any left (i + 1) b target in
    let attr = attributes b i in
    if b (i * 32) == 0
    then ended
    else if b (i * 32) == 0xE5
    then next
    else if attr == 0x0F
    then next
    else if is_label attr
    then next
    else if fat_name_equal (entry_name b i) target
    then at i
    else next

-- The loop of make_dir for an entry that is free.
unfoldable pub find_slot : ℕ → ℕ → Bytes → Option ℕ
find_slot zero i b = none
find_slot (suc left) i b =
    let next = find_slot left (i + 1) b in
    if (b (i * 32) == 0) || (b (i * 32) == 0xE5) then some i else next

unfoldable pub is_dot_entry : Bytes → Bool
is_dot_entry name =
    if not (name 0 == b'.')
    then false
    else if name 1 == b' '
    then true
    else (name 1 == b'.') && (name 2 == b' ')

-- The inner loop of dir_is_empty: `ended` for true, `at i` for false, `further` for the next cluster.
unfoldable pub find_used : ℕ → ℕ → Bytes → Scan
unfolding is_dot_entry
find_used zero i b = further
find_used (suc left) i b =
    let next = find_used left (i + 1) b in
    if b (i * 32) == 0
    then ended
    else if b (i * 32) == 0xE5
    then next
    else if attributes b i == 0x0F
    then next
    else if is_dot_entry (entry_name b i)
    then next
    else at i

-- What print_char is given for the bytes `from` to `from + left - 1` of a name that are not blank.
unfoldable pub name_part : ℕ → ℕ → Bytes → List ℕ
name_part zero from name = []
name_part (suc left) from name =
    let rest = name_part left (from + 1) name in
    if name from == b' ' then rest else name from ∷ rest

-- One line of fat32_list_files.
unfoldable pub list_entry : Bytes → ℕ → List ℕ
unfolding name_part
list_entry name attr =
    let extension =
      if (name 8 == b' ') && (name 9 == b' ') && (name 10 == b' ')
      then []
      else b'.' ∷ name_part 3 8 name in
    let mark = if is_dir attr then b'/' ∷ [] else [] in
    name_part 8 0 name ++ extension ++ mark ++ (10 ∷ [])

-- The inner loop of fat32_list_files: what it prints, and whether it met the end mark.
unfoldable pub list_entries : ℕ → ℕ → Bytes → List ℕ × Bool
unfolding list_entry
list_entries zero i b = ([], false)
list_entries (suc left) i b =
    let (out, end) = list_entries left (i + 1) b in
    let attr = attributes b i in
    if b (i * 32) == 0
    then ([], true)
    else if (b (i * 32) == 0xE5) || (attr == 0x0F) || is_label attr
    then (out, end)
    else (list_entry (entry_name b i) attr ++ out, end)

-- `for (b = 0; b < 32; b++) raw[b] = 0` and the stores of a new entry's fields.
unfoldable pub zero_entry : Bytes → ℕ → Bytes
unfolding copy
zero_entry b i = copy b (i * 32) (λ _. 0) 0 32

unfoldable pub put_name : Bytes → ℕ → Bytes → Bytes
unfolding copy
put_name b i name = copy b (i * 32) name 0 11

unfoldable pub put_attributes : Bytes → ℕ → ℕ → Bytes
unfolding put8
put_attributes b i a = put8 b (i * 32 + 11) a

unfoldable pub put_cluster : Bytes → ℕ → ℕ → Bytes
unfolding put16
put_cluster b i c = put16 (put16 b (i * 32 + 20) (c / 65536)) (i * 32 + 26) (c % 65536)

unfoldable pub put_size : Bytes → ℕ → ℕ → Bytes
unfolding put32
put_size b i n = put32 b (i * 32 + 28) n
