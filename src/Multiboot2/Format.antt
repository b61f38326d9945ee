-- ===== src/Multiboot2/Format.antt =====
-- The multiboot2 format, as a boot loader writes it: the bytes of a table from its tags.
use tmos.Base.{
  ℕ, zero, suc, ◌+◌, ◌-◌, ◌%◌, ◌^◌, ◌<◌, ◌≢◌, List, [], ◌∷◌, ◌++◌, ◌==◌, if◌then◌else◌, length,
}
use tmos.Base.Bytes.{bytes32, bytes64}
use tmos.Multiboot2.{Mb2MmapRegion}

pub record Tag : Type 0 where
  pub type : ℕ
  pub body : List ℕ

abbrev pub zeros : ℕ → List ℕ
zeros zero = []
zeros (suc n) = 0 ∷ zeros n

-- The unused bytes up to the next tag.
abbrev pub padding : Tag → List ℕ
padding t = zeros ((8 - length t.body % 8) % 8)

abbrev pub tag_header : Tag → List ℕ
tag_header t = bytes32 t.type ++ bytes32 (8 + length t.body)

abbrev pub tag_bytes : Tag → List ℕ
tag_bytes t = tag_header t ++ (t.body ++ padding t)

-- The tags, and behind them the one that ends the table.
abbrev pub tags_bytes : List Tag → List ℕ
tags_bytes [] = bytes32 0 ++ bytes32 8
tags_bytes (t ∷ ts) = tag_bytes t ++ tags_bytes ts

abbrev pub table_bytes : List Tag → List ℕ
table_bytes ts = (bytes32 (8 + length (tags_bytes ts)) ++ bytes32 0) ++ tags_bytes ts

-- The types and sizes that the fields can hold.
abbrev pub IsTag : Tag → Type 0
IsTag t = (t.type ≢ 0) × (t.type < 2 ^ 32) × (length t.body + 15 < 2 ^ 32)

abbrev pub AreTags : List Tag → Type 0
AreTags [] = Unit
AreTags (t ∷ ts) = IsTag t × AreTags ts

-- The address of the first tag of a type in tags from `a` on, or 0.
abbrev pub find_tag : (type a : ℕ) → List Tag → ℕ
find_tag type a [] = 0
find_tag type a (t ∷ ts) = if t.type == type then a else find_tag type (a + length (tag_bytes t)) ts

-- No tag has the type.
abbrev pub Lacks : ℕ → List Tag → Type 0
Lacks type [] = Unit
Lacks type (t ∷ ts) = (t.type ≢ type) × Lacks type ts

-- An entry of the memory map, with 0 in its reserved field.
abbrev pub entry_bytes : Mb2MmapRegion → List ℕ
entry_bytes e = (bytes64 e.start ++ bytes64 e.len) ++ (bytes32 e.type ++ bytes32 0)

abbrev pub entries_bytes : List Mb2MmapRegion → List ℕ
entries_bytes [] = []
entries_bytes (e ∷ es) = entry_bytes e ++ entries_bytes es

-- The tag of a memory map, of entries of 24 bytes and version 0.
abbrev pub mmap_tag : List Mb2MmapRegion → Tag
mmap_tag es = record { type = 6; body = (bytes32 24 ++ bytes32 0) ++ entries_bytes es }

-- The region does not reach the end of the address space.
abbrev pub IsEntry : Mb2MmapRegion → Type 0
IsEntry e = (e.start + e.len + 4095 < 2 ^ 64) × (e.type < 2 ^ 32)

abbrev pub AreEntries : List Mb2MmapRegion → Type 0
AreEntries [] = Unit
AreEntries (e ∷ es) = IsEntry e × AreEntries es
