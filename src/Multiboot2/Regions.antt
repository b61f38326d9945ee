-- ===== src/Multiboot2/Regions.antt =====
-- `mem_load_mb2_mmap` on a table that has a memory map.
use mathlib.Core.Path.{subst}
use tmos.Base.{
  ℕ, ◌+◌, ◌-◌, ◌*◌, ◌/◌, ◌^◌, ◌<◌, ◌≤◌, ◌≡◌, ◌≢◌, refl, ap, ap₂, ◌∙◌, List, [], ◌∷◌, ◌++◌, arith,
  ◌==◌, if◌then◌else◌, false, length, length-append,
}
use tmos.Base.Bytes.{load32, bytes32, bytes64, Holds, Holds-append, load64-Holds}
use tmos.Base.Outcome.{Outcome, done, ◌>>=◌}
use tmos.Base.Store.{Store, write}
use tmos.Base.Word.{u32, u64}
use tmos.System.{round_up, round_down}
use tmos.System.Rounding.{round_up-eq, round_down-eq}
use tmos.Region.{
  region_type_avail, region_type_rsvd, region_type_acpi_reclaim, region_type_acpi_nvs,
  region_type_multiboot2,
}
use tmos.Mmap.{mmap_insert_region}
use tmos.Multiboot2.{
  Mb2MmapRegion, region_at, mreg_type, mreg_end, cvt_mb2_mmap_typ, fill_entry, fill_mmap, mmap_len,
  mem_load_mb2_mmap, mb2_get_tag,
}
use tmos.Multiboot2.Format.{
  Tag, padding, tag_bytes, tags_bytes, AreTags, find_tag, Lacks, entry_bytes, entries_bytes,
  mmap_tag, IsEntry, AreEntries,
}
use tmos.Multiboot2.Tags.{IsTable, load32_pair, tag-Holds, table-Holds, mb2_get_tag-mb2_table_load}

-- The type of the kernel's map for a type of the loader's.
abbrev pub kernel_type : ℕ → ℕ
kernel_type type =
    if type == 1
    then region_type_avail
    else if type == 3
    then region_type_acpi_reclaim
    else if type == 4
    then region_type_acpi_nvs
    else region_type_rsvd

abbrev pub page_up : ℕ → ℕ
page_up x = (x + 4095) / 4096 * 4096

abbrev pub page_down : ℕ → ℕ
page_down x = x / 4096 * 4096

-- The pages that an available region covers whole, and those that any other region touches.
abbrev pub insert_entry : Mb2MmapRegion → Store → Outcome Store
insert_entry e =
    if e.type == 1
    then mmap_insert_region (page_up e.start) (page_down (e.start + e.len)) region_type_avail
    else mmap_insert_region (page_down e.start) (page_up (e.start + e.len)) (kernel_type e.type)

abbrev pub insert_entries : List Mb2MmapRegion → Store → Outcome Store
insert_entries [] r = done r
insert_entries (e ∷ es) r = insert_entry e r >>= insert_entries es

cvt_mb2_mmap_typ-mreg_type :
    (e : Mb2MmapRegion) → cvt_mb2_mmap_typ (mreg_type e) ≡ done (kernel_type e.type)
unfolding cvt_mb2_mmap_typ mreg_type
cvt_mb2_mmap_typ-mreg_type e = ground arith

avail_iff : (t : ℕ) → (kernel_type t == 1) ≡ (t == 1)
avail_iff t = ground arith

fill_entry-insert_entry :
    (e : Mb2MmapRegion) → IsEntry e → (r : Store) → fill_entry e r ≡ insert_entry e r
unfolding fill_entry mreg_end
fill_entry-insert_entry e v r =
    let end : u64 (e.start + e.len) ≡ e.start + e.len = omega (arith, v) in
    let up1 = round_up-eq 12 e.start (omega arith) (omega (arith, v)) in
    let up2 = round_up-eq 12 (e.start + e.len) (omega arith) (omega (arith, v)) in
    let down1 = round_down-eq 12 e.start (omega arith) (omega (arith, v)) in
    let down2 = round_down-eq 12 (e.start + e.len) (omega arith) (omega (arith, v)) in
    rw (cvt_mb2_mmap_typ-mreg_type e, end, up1, up2, down1, down2) (ground arith)

length-bytes64 : (x : ℕ) → length (bytes64 x) ≡ 8
length-bytes64 x = refl

region_at-Holds :
    (m : Store) (p : ℕ) (e : Mb2MmapRegion)
    → IsEntry e
    → Holds m p (entry_bytes e)
    → region_at m p ≡ e
region_at-Holds m p e v h =
    let (words, rest) =
      Holds-append m p (bytes64 e.start ++ bytes64 e.len) (bytes32 e.type ++ bytes32 0) h in
    let (start, len) = Holds-append m p (bytes64 e.start) (bytes64 e.len) words in
    let (type, _) = load32_pair m (p + 16) e.type 0 (omega (arith, v)) (omega arith) rest in
    let e1 = load64-Holds m p e.start (omega (arith, v)) start in
    let e2 = load64-Holds m (p + 8) e.len (omega (arith, v)) len in simp (e1, e2, type)

fill_mmap-insert_entries :
    (es : List Mb2MmapRegion) (m : Store) (p : ℕ) (r : Store)
    → AreEntries es
    → Holds m p (entries_bytes es)
    → fill_mmap (length es) p m r ≡ insert_entries es r
unfolding fill_mmap
fill_mmap-insert_entries [] m p r v h = refl
fill_mmap-insert_entries (e ∷ es) m p r v h =
    let (here, rest) = Holds-append m p (entry_bytes e) (entries_bytes es) h in
    ap (λ x. fill_entry x r >>= fill_mmap (length es) (p + 24) m) (region_at-Holds m p e v.0 here)
    ∙ ap₂ (λ x k. x >>= k) (fill_entry-insert_entry e v.0 r)
        (λ i r'. fill_mmap-insert_entries es m (p + 24) r' v.1 rest i)

-- The first tag of a type stands behind the tags that lack it.
find_tag-Lacks :
    (type a : ℕ) (before after : List Tag) (t : Tag) (m : Store)
    → Lacks type before
    → t.type ≡ type
    → AreTags (before ++ (t ∷ after))
    → a ≢ 0
    → Holds m a (tags_bytes (before ++ (t ∷ after)))
    → (p : ℕ) × (find_tag type a (before ++ (t ∷ after)) ≡ p)
      × (a ≤ p)
      × (p + length (tags_bytes (t ∷ after)) ≡ a + length (tags_bytes (before ++ (t ∷ after))))
      × AreTags (t ∷ after)
      × Holds m p (tags_bytes (t ∷ after))
find_tag-Lacks type a [] after t m lacks is v nonzero h =
    (a, ground (arith, is), omega arith, refl, v, h)
find_tag-Lacks type a (b ∷ before) after t m lacks is v nonzero h =
    let others = before ++ (t ∷ after) in
    let (_, rest) = Holds-append m a (tag_bytes b) (tags_bytes others) h in
    let (p, found, behind, at, v', h') =
      find_tag-Lacks type (a + length (tag_bytes b)) before after t m lacks.1 is v.1 (omega arith)
        rest in
    (
      p,
      ground (arith, lacks.0, found),
      omega (arith, behind),
      omega (arith, at, length-append (tag_bytes b) (tags_bytes others)),
      v',
      h',
    )

length-entries_bytes : (es : List Mb2MmapRegion) → length (entries_bytes es) ≡ 24 * length es
length-entries_bytes [] = refl
length-entries_bytes (e ∷ es) =
    omega (arith, length-append (entry_bytes e) (entries_bytes es), length-entries_bytes es)

-- What the memory map's tag at `p` says, and the entries behind it.
mmap_tag-Holds :
    (m : Store) (p : ℕ) (es : List Mb2MmapRegion) (after : List Tag)
    → AreTags (mmap_tag es ∷ after)
    → Holds m p (tags_bytes (mmap_tag es ∷ after))
    → (load32 m (p + 4) ≡ 16 + 24 * length es)
      × (load32 m (p + 8) ≡ 24)
      × Holds m (p + 16) (entries_bytes es)
mmap_tag-Holds m p es after v h =
    let t = mmap_tag es in
    let (_, size, _) = tag-Holds m p t after v.0 h in
    let (here, _) = Holds-append m p (tag_bytes t) (tags_bytes after) h in
    let (_, content) =
      Holds-append m p (bytes32 6 ++ bytes32 (8 + length t.body)) (t.body ++ padding t) here in
    let (body, _) = Holds-append m (p + 8) t.body (padding t) content in
    let (head, entries) =
      Holds-append m (p + 8) (bytes32 24 ++ bytes32 0) (entries_bytes es) body in
    let (entsz, _) = load32_pair m (p + 8) 24 0 (omega arith) (omega arith) head in
    let at : p + 8 + 8 ≡ p + 16 = omega arith in
    (
      omega (arith, size, length-entries_bytes es),
      entsz,
      subst (λ k. Holds m k (entries_bytes es)) at entries,
    )

mmap_len-eq : (n : ℕ) → 16 + 24 * n < 2 ^ 32 → mmap_len (16 + 24 * n) 24 ≡ done n
unfolding mmap_len
mmap_len-eq n small =
    let e : u32 (u64 (16 + 24 * n + (2 ^ 64 - 16)) / 24) ≡ n = omega arith in ap done e

-- On a table in the multiboot2 format with a memory map among its tags, `mem_load_mb2_mmap` inserts
-- the map's entries into the kernel's map, in their order, and then the pages of the table. Each entry
-- of type 1 is inserted as available memory with the pages that it covers whole; each other one as the
-- pages that it touches, reserved unless its type is 3 or 4. No entry reaches the last page of the
-- 64-bit address space, nor does the table.
pub mem_load_mb2_mmap-eq :
    (m : Store) (a : ℕ) (before after : List Tag) (es : List Mb2MmapRegion) (fuel : ℕ) (r : Store)
    → IsTable m a (before ++ (mmap_tag es ∷ after))
    → Lacks 6 before
    → AreEntries es
    → length (before ++ (mmap_tag es ∷ after)) < fuel
    → a + load32 m a + 4095 < 2 ^ 64
    → mem_load_mb2_mmap fuel m a r ≡ (
        insert_entries es (write r 0 0) >>= λ filled.
        mmap_insert_region (page_down a) (page_up (a + load32 m a)) region_type_multiboot2 filled)
unfolding mem_load_mb2_mmap
mem_load_mb2_mmap-eq m a before after es fuel r v lacks entries enough room =
    let ts = before ++ (mmap_tag es ∷ after) in
    let tag = (mb2_get_tag-mb2_table_load m a ts fuel 6 v enough).1 in
    let (_, _, tags) = table-Holds m a ts v.small v.holds in
    let (p, found, behind, _, v', h) =
      find_tag-Lacks 6 (a + 8) before after (mmap_tag es) m lacks refl v.tags (omega arith) tags in
    let (size, entsz, list) = mmap_tag-Holds m p es after v' h in
    let n = mmap_len-eq (length es) (omega (arith, v'.0, length-entries_bytes es)) in
    let get : mb2_get_tag fuel 6 m a ≡ done p = tag ∙ ap done found in
    let start : round_down a 4096 ≡ page_down a = round_down-eq 12 a (omega arith) (omega arith) in
    let wide : u64 (a + load32 m a) ≡ a + load32 m a = omega arith in
    let end : round_up (a + load32 m a) 4096 ≡ page_up (a + load32 m a) =
      round_up-eq 12 (a + load32 m a) (omega arith) room in
    let nonzero : (p == 0) ≡ false = ground (arith, behind) in
    rw
      (
        get,
        nonzero,
        size,
        entsz,
        n,
        fill_mmap-insert_entries es m (p + 16) (write r 0 0) entries list,
        wide,
        start,
        end,
      )
      refl
