-- ===== src/Console/Font.antt =====
-- src/font.c: the glyphs, eight rows of eight pixels each.
use zareboon_os.Prelude.{ℕ, ◌==◌, if◌then◌else◌, List, [], ◌∷◌, get_or}

-- vbe_font, an array that is zero where nothing is given: the character, and its rows.
abbrev pub vbe_font : List (ℕ × List ℕ)
vbe_font =
    (97, 0x00 ∷ 0x00 ∷ 0x3C ∷ 0x06 ∷ 0x3E ∷ 0x66 ∷ 0x3E ∷ 0x00 ∷ [])
    ∷ (98, 0x60 ∷ 0x60 ∷ 0x7C ∷ 0x66 ∷ 0x66 ∷ 0x66 ∷ 0x7C ∷ 0x00 ∷ [])
    ∷ (99, 0x00 ∷ 0x00 ∷ 0x3C ∷ 0x60 ∷ 0x60 ∷ 0x60 ∷ 0x3C ∷ 0x00 ∷ [])
    ∷ (100, 0x06 ∷ 0x06 ∷ 0x3E ∷ 0x66 ∷ 0x66 ∷ 0x66 ∷ 0x3E ∷ 0x00 ∷ [])
    ∷ (101, 0x00 ∷ 0x00 ∷ 0x3C ∷ 0x66 ∷ 0x7E ∷ 0x60 ∷ 0x3C ∷ 0x00 ∷ [])
    ∷ (102, 0x1C ∷ 0x30 ∷ 0x7C ∷ 0x30 ∷ 0x30 ∷ 0x30 ∷ 0x30 ∷ 0x00 ∷ [])
    ∷ (103, 0x00 ∷ 0x00 ∷ 0x3E ∷ 0x66 ∷ 0x66 ∷ 0x3E ∷ 0x06 ∷ 0x7C ∷ [])
    ∷ (104, 0x60 ∷ 0x60 ∷ 0x7C ∷ 0x66 ∷ 0x66 ∷ 0x66 ∷ 0x66 ∷ 0x00 ∷ [])
    ∷ (105, 0x18 ∷ 0x00 ∷ 0x38 ∷ 0x18 ∷ 0x18 ∷ 0x18 ∷ 0x3C ∷ 0x00 ∷ [])
    ∷ (106, 0x06 ∷ 0x00 ∷ 0x0E ∷ 0x06 ∷ 0x06 ∷ 0x06 ∷ 0x66 ∷ 0x3C ∷ [])
    ∷ (107, 0x60 ∷ 0x60 ∷ 0x66 ∷ 0x6C ∷ 0x78 ∷ 0x6C ∷ 0x66 ∷ 0x00 ∷ [])
    ∷ (108, 0x38 ∷ 0x18 ∷ 0x18 ∷ 0x18 ∷ 0x18 ∷ 0x18 ∷ 0x3C ∷ 0x00 ∷ [])
    ∷ (109, 0x00 ∷ 0x00 ∷ 0x6C ∷ 0xFE ∷ 0xD6 ∷ 0xD6 ∷ 0xC6 ∷ 0x00 ∷ [])
    ∷ (110, 0x00 ∷ 0x00 ∷ 0x7C ∷ 0x66 ∷ 0x66 ∷ 0x66 ∷ 0x66 ∷ 0x00 ∷ [])
    ∷ (111, 0x00 ∷ 0x00 ∷ 0x3C ∷ 0x66 ∷ 0x66 ∷ 0x66 ∷ 0x3C ∷ 0x00 ∷ [])
    ∷ (112, 0x00 ∷ 0x00 ∷ 0x7C ∷ 0x66 ∷ 0x66 ∷ 0x7C ∷ 0x60 ∷ 0x60 ∷ [])
    ∷ (113, 0x00 ∷ 0x00 ∷ 0x3E ∷ 0x66 ∷ 0x66 ∷ 0x3E ∷ 0x06 ∷ 0x06 ∷ [])
    ∷ (114, 0x00 ∷ 0x00 ∷ 0x6C ∷ 0x76 ∷ 0x60 ∷ 0x60 ∷ 0x60 ∷ 0x00 ∷ [])
    ∷ (115, 0x00 ∷ 0x00 ∷ 0x3E ∷ 0x60 ∷ 0x3C ∷ 0x06 ∷ 0x7C ∷ 0x00 ∷ [])
    ∷ (116, 0x18 ∷ 0x18 ∷ 0x7E ∷ 0x18 ∷ 0x18 ∷ 0x18 ∷ 0x0E ∷ 0x00 ∷ [])
    ∷ (117, 0x00 ∷ 0x00 ∷ 0x66 ∷ 0x66 ∷ 0x66 ∷ 0x66 ∷ 0x3E ∷ 0x00 ∷ [])
    ∷ (118, 0x00 ∷ 0x00 ∷ 0x66 ∷ 0x66 ∷ 0x66 ∷ 0x3C ∷ 0x18 ∷ 0x00 ∷ [])
    ∷ (119, 0x00 ∷ 0x00 ∷ 0x63 ∷ 0x63 ∷ 0x6B ∷ 0x7F ∷ 0x36 ∷ 0x00 ∷ [])
    ∷ (120, 0x00 ∷ 0x00 ∷ 0x66 ∷ 0x3C ∷ 0x18 ∷ 0x3C ∷ 0x66 ∷ 0x00 ∷ [])
    ∷ (121, 0x00 ∷ 0x00 ∷ 0x66 ∷ 0x66 ∷ 0x66 ∷ 0x3E ∷ 0x06 ∷ 0x7C ∷ [])
    ∷ (122, 0x00 ∷ 0x00 ∷ 0x7E ∷ 0x0C ∷ 0x18 ∷ 0x30 ∷ 0x7E ∷ 0x00 ∷ [])
    ∷ (65, 0x18 ∷ 0x3C ∷ 0x66 ∷ 0x66 ∷ 0x7E ∷ 0x66 ∷ 0x66 ∷ 0x00 ∷ [])
    ∷ (66, 0x7C ∷ 0x66 ∷ 0x66 ∷ 0x7C ∷ 0x66 ∷ 0x66 ∷ 0x7C ∷ 0x00 ∷ [])
    ∷ (67, 0x3C ∷ 0x66 ∷ 0x60 ∷ 0x60 ∷ 0x60 ∷ 0x66 ∷ 0x3C ∷ 0x00 ∷ [])
    ∷ (68, 0x78 ∷ 0x6C ∷ 0x66 ∷ 0x66 ∷ 0x66 ∷ 0x6C ∷ 0x78 ∷ 0x00 ∷ [])
    ∷ (69, 0x7E ∷ 0x60 ∷ 0x60 ∷ 0x7C ∷ 0x60 ∷ 0x60 ∷ 0x7E ∷ 0x00 ∷ [])
    ∷ (70, 0x7E ∷ 0x60 ∷ 0x60 ∷ 0x7C ∷ 0x60 ∷ 0x60 ∷ 0x60 ∷ 0x00 ∷ [])
    ∷ (71, 0x3C ∷ 0x66 ∷ 0x60 ∷ 0x6E ∷ 0x66 ∷ 0x66 ∷ 0x3B ∷ 0x00 ∷ [])
    ∷ (72, 0x66 ∷ 0x66 ∷ 0x66 ∷ 0x7E ∷ 0x66 ∷ 0x66 ∷ 0x66 ∷ 0x00 ∷ [])
    ∷ (73, 0x3C ∷ 0x18 ∷ 0x18 ∷ 0x18 ∷ 0x18 ∷ 0x18 ∷ 0x3C ∷ 0x00 ∷ [])
    ∷ (74, 0x1E ∷ 0x0C ∷ 0x0C ∷ 0x0C ∷ 0x0C ∷ 0x6C ∷ 0x38 ∷ 0x00 ∷ [])
    ∷ (75, 0x66 ∷ 0x6C ∷ 0x78 ∷ 0x70 ∷ 0x78 ∷ 0x6C ∷ 0x66 ∷ 0x00 ∷ [])
    ∷ (76, 0x60 ∷ 0x60 ∷ 0x60 ∷ 0x60 ∷ 0x60 ∷ 0x60 ∷ 0x7E ∷ 0x00 ∷ [])
    ∷ (77, 0x63 ∷ 0x77 ∷ 0x7F ∷ 0x6B ∷ 0x63 ∷ 0x63 ∷ 0x63 ∷ 0x00 ∷ [])
    ∷ (78, 0x66 ∷ 0x76 ∷ 0x7E ∷ 0x7E ∷ 0x6E ∷ 0x66 ∷ 0x66 ∷ 0x00 ∷ [])
    ∷ (79, 0x3C ∷ 0x66 ∷ 0x66 ∷ 0x66 ∷ 0x66 ∷ 0x66 ∷ 0x3C ∷ 0x00 ∷ [])
    ∷ (80, 0x7C ∷ 0x66 ∷ 0x66 ∷ 0x7C ∷ 0x60 ∷ 0x60 ∷ 0x60 ∷ 0x00 ∷ [])
    ∷ (81, 0x3C ∷ 0x66 ∷ 0x66 ∷ 0x66 ∷ 0x66 ∷ 0x3C ∷ 0x0E ∷ 0x00 ∷ [])
    ∷ (82, 0x7C ∷ 0x66 ∷ 0x66 ∷ 0x7C ∷ 0x70 ∷ 0x68 ∷ 0x66 ∷ 0x00 ∷ [])
    ∷ (83, 0x3C ∷ 0x66 ∷ 0x60 ∷ 0x3C ∷ 0x06 ∷ 0x66 ∷ 0x3C ∷ 0x00 ∷ [])
    ∷ (84, 0x7E ∷ 0x18 ∷ 0x18 ∷ 0x18 ∷ 0x18 ∷ 0x18 ∷ 0x18 ∷ 0x00 ∷ [])
    ∷ (85, 0x66 ∷ 0x66 ∷ 0x66 ∷ 0x66 ∷ 0x66 ∷ 0x66 ∷ 0x3C ∷ 0x00 ∷ [])
    ∷ (86, 0x66 ∷ 0x66 ∷ 0x66 ∷ 0x66 ∷ 0x66 ∷ 0x3C ∷ 0x18 ∷ 0x00 ∷ [])
    ∷ (87, 0x63 ∷ 0x63 ∷ 0x63 ∷ 0x6B ∷ 0x7F ∷ 0x77 ∷ 0x63 ∷ 0x00 ∷ [])
    ∷ (88, 0x66 ∷ 0x66 ∷ 0x3C ∷ 0x18 ∷ 0x3C ∷ 0x66 ∷ 0x66 ∷ 0x00 ∷ [])
    ∷ (89, 0x66 ∷ 0x66 ∷ 0x66 ∷ 0x3C ∷ 0x18 ∷ 0x18 ∷ 0x18 ∷ 0x00 ∷ [])
    ∷ (90, 0x7E ∷ 0x06 ∷ 0x0C ∷ 0x18 ∷ 0x30 ∷ 0x60 ∷ 0x7E ∷ 0x00 ∷ [])
    ∷ (48, 0x3C ∷ 0x66 ∷ 0x6E ∷ 0x76 ∷ 0x66 ∷ 0x66 ∷ 0x3C ∷ 0x00 ∷ [])
    ∷ (49, 0x18 ∷ 0x38 ∷ 0x18 ∷ 0x18 ∷ 0x18 ∷ 0x18 ∷ 0x7E ∷ 0x00 ∷ [])
    ∷ (50, 0x3C ∷ 0x66 ∷ 0x06 ∷ 0x0C ∷ 0x18 ∷ 0x30 ∷ 0x7E ∷ 0x00 ∷ [])
    ∷ (51, 0x3C ∷ 0x66 ∷ 0x06 ∷ 0x1C ∷ 0x06 ∷ 0x66 ∷ 0x3C ∷ 0x00 ∷ [])
    ∷ (52, 0x0C ∷ 0x1C ∷ 0x3C ∷ 0x6C ∷ 0x7E ∷ 0x0C ∷ 0x0C ∷ 0x00 ∷ [])
    ∷ (53, 0x7E ∷ 0x60 ∷ 0x7C ∷ 0x06 ∷ 0x06 ∷ 0x66 ∷ 0x3C ∷ 0x00 ∷ [])
    ∷ (54, 0x3C ∷ 0x60 ∷ 0x7C ∷ 0x66 ∷ 0x66 ∷ 0x66 ∷ 0x3C ∷ 0x00 ∷ [])
    ∷ (55, 0x7E ∷ 0x06 ∷ 0x0C ∷ 0x18 ∷ 0x30 ∷ 0x30 ∷ 0x30 ∷ 0x00 ∷ [])
    ∷ (56, 0x3C ∷ 0x66 ∷ 0x66 ∷ 0x3C ∷ 0x66 ∷ 0x66 ∷ 0x3C ∷ 0x00 ∷ [])
    ∷ (57, 0x3C ∷ 0x66 ∷ 0x66 ∷ 0x3E ∷ 0x06 ∷ 0x0C ∷ 0x38 ∷ 0x00 ∷ [])
    ∷ (32, 0x00 ∷ 0x00 ∷ 0x00 ∷ 0x00 ∷ 0x00 ∷ 0x00 ∷ 0x00 ∷ 0x00 ∷ [])
    ∷ (46, 0x00 ∷ 0x00 ∷ 0x00 ∷ 0x00 ∷ 0x00 ∷ 0x18 ∷ 0x18 ∷ 0x00 ∷ [])
    ∷ (44, 0x00 ∷ 0x00 ∷ 0x00 ∷ 0x00 ∷ 0x00 ∷ 0x18 ∷ 0x18 ∷ 0x30 ∷ [])
    ∷ (33, 0x18 ∷ 0x18 ∷ 0x18 ∷ 0x18 ∷ 0x18 ∷ 0x00 ∷ 0x18 ∷ 0x00 ∷ [])
    ∷ (63, 0x3C ∷ 0x66 ∷ 0x06 ∷ 0x0C ∷ 0x18 ∷ 0x00 ∷ 0x18 ∷ 0x00 ∷ [])
    ∷ (58, 0x00 ∷ 0x18 ∷ 0x18 ∷ 0x00 ∷ 0x18 ∷ 0x18 ∷ 0x00 ∷ 0x00 ∷ [])
    ∷ (45, 0x00 ∷ 0x00 ∷ 0x00 ∷ 0x7E ∷ 0x00 ∷ 0x00 ∷ 0x00 ∷ 0x00 ∷ [])
    ∷ (95, 0x00 ∷ 0x00 ∷ 0x00 ∷ 0x00 ∷ 0x00 ∷ 0x00 ∷ 0x7E ∷ 0x00 ∷ [])
    ∷ (47, 0x06 ∷ 0x0C ∷ 0x18 ∷ 0x30 ∷ 0x60 ∷ 0x40 ∷ 0x00 ∷ 0x00 ∷ [])
    ∷ (43, 0x00 ∷ 0x18 ∷ 0x18 ∷ 0x7E ∷ 0x18 ∷ 0x18 ∷ 0x00 ∷ 0x00 ∷ [])
    ∷ (61, 0x00 ∷ 0x7E ∷ 0x00 ∷ 0x7E ∷ 0x00 ∷ 0x00 ∷ 0x00 ∷ 0x00 ∷ [])
    ∷ (62, 0x00 ∷ 0x40 ∷ 0x20 ∷ 0x10 ∷ 0x08 ∷ 0x10 ∷ 0x20 ∷ 0x40 ∷ [])
    ∷ (60, 0x00 ∷ 0x04 ∷ 0x08 ∷ 0x10 ∷ 0x20 ∷ 0x10 ∷ 0x08 ∷ 0x04 ∷ [])
    ∷ (35, 0x00 ∷ 0x24 ∷ 0x24 ∷ 0x7E ∷ 0x24 ∷ 0x7E ∷ 0x24 ∷ 0x24 ∷ [])
    ∷ (37, 0x00 ∷ 0x62 ∷ 0x64 ∷ 0x08 ∷ 0x10 ∷ 0x26 ∷ 0x46 ∷ 0x00 ∷ [])
    ∷ (38, 0x00 ∷ 0x18 ∷ 0x24 ∷ 0x18 ∷ 0x3A ∷ 0x64 ∷ 0x64 ∷ 0x3A ∷ [])
    ∷ (42, 0x00 ∷ 0x00 ∷ 0x24 ∷ 0x18 ∷ 0x7E ∷ 0x18 ∷ 0x24 ∷ 0x00 ∷ [])
    ∷ (40, 0x00 ∷ 0x08 ∷ 0x10 ∷ 0x20 ∷ 0x20 ∷ 0x20 ∷ 0x10 ∷ 0x08 ∷ [])
    ∷ (41, 0x00 ∷ 0x10 ∷ 0x08 ∷ 0x04 ∷ 0x04 ∷ 0x04 ∷ 0x08 ∷ 0x10 ∷ [])
    ∷ (91, 0x00 ∷ 0x1C ∷ 0x10 ∷ 0x10 ∷ 0x10 ∷ 0x10 ∷ 0x10 ∷ 0x1C ∷ [])
    ∷ (93, 0x00 ∷ 0x1C ∷ 0x04 ∷ 0x04 ∷ 0x04 ∷ 0x04 ∷ 0x04 ∷ 0x1C ∷ [])
    ∷ (123, 0x00 ∷ 0x0C ∷ 0x10 ∷ 0x10 ∷ 0x20 ∷ 0x10 ∷ 0x10 ∷ 0x0C ∷ [])
    ∷ (125, 0x00 ∷ 0x30 ∷ 0x08 ∷ 0x08 ∷ 0x04 ∷ 0x08 ∷ 0x08 ∷ 0x30 ∷ [])
    ∷ (34, 0x00 ∷ 0x24 ∷ 0x24 ∷ 0x00 ∷ 0x00 ∷ 0x00 ∷ 0x00 ∷ 0x00 ∷ [])
    ∷ (39, 0x00 ∷ 0x10 ∷ 0x10 ∷ 0x00 ∷ 0x00 ∷ 0x00 ∷ 0x00 ∷ 0x00 ∷ [])
    ∷ (59, 0x00 ∷ 0x00 ∷ 0x18 ∷ 0x18 ∷ 0x00 ∷ 0x18 ∷ 0x18 ∷ 0x30 ∷ [])
    ∷ (64, 0x00 ∷ 0x3C ∷ 0x42 ∷ 0x5A ∷ 0x5A ∷ 0x5E ∷ 0x40 ∷ 0x3C ∷ [])
    ∷ (94, 0x00 ∷ 0x10 ∷ 0x28 ∷ 0x44 ∷ 0x00 ∷ 0x00 ∷ 0x00 ∷ 0x00 ∷ [])
    ∷ (126, 0x00 ∷ 0x00 ∷ 0x00 ∷ 0x32 ∷ 0x4C ∷ 0x00 ∷ 0x00 ∷ 0x00 ∷ [])
    ∷ (92, 0x00 ∷ 0x40 ∷ 0x20 ∷ 0x10 ∷ 0x08 ∷ 0x04 ∷ 0x02 ∷ 0x00 ∷ [])
    ∷ (124, 0x00 ∷ 0x10 ∷ 0x10 ∷ 0x10 ∷ 0x10 ∷ 0x10 ∷ 0x10 ∷ 0x10 ∷ [])
    ∷ (36, 0x00 ∷ 0x10 ∷ 0x3C ∷ 0x50 ∷ 0x38 ∷ 0x14 ∷ 0x78 ∷ 0x10 ∷ [])
    ∷ (149, 0xFF ∷ 0xFF ∷ 0xFF ∷ 0xFF ∷ 0xFF ∷ 0xFF ∷ 0xFF ∷ 0xFF ∷ [])
    ∷ []

abbrev glyph : List (ℕ × List ℕ) → ℕ → List ℕ
glyph [] c = []
glyph ((k, rows) ∷ more) c = if k == c then rows else glyph more c

-- Row `i` of get_font(c).
unfoldable pub font_row : ℕ → ℕ → ℕ
font_row c i = get_or (glyph vbe_font c) i 0
