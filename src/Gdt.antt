-- ===== src/Gdt.antt =====
-- The segment descriptors of kernel/arch/x86_64/cpu/gdt.c and include/tmos/arch/x86_64/gdt.h. The
-- number of task state segments (`__TMOS_CFG_MAX_NUM_TSS__`) is `tss_count`; a write behind the
-- descriptors is undefined.
pub mod Descriptors
mod Tests
use tmos.Base.{ℕ, zero, suc, ◌+◌, ◌-◌, ◌*◌, ◌^◌, bit_and, bit_or, ltb, if◌then◌else◌}
use tmos.Base.Outcome.{Outcome, done, undef, ◌>>=◌, ◌>>◌, assert}
use tmos.Base.Store.{Store, write}
use tmos.Base.Word.{u16, u64, shr, shl}

abbrev pub desc_rw : ℕ
desc_rw = 2 ^ 41

abbrev pub desc_conform : ℕ
desc_conform = 2 ^ 42

abbrev pub desc_exec : ℕ
desc_exec = 2 ^ 43

abbrev pub desc_user : ℕ
desc_user = 2 ^ 44

abbrev pub desc_present : ℕ
desc_present = 2 ^ 47

abbrev pub desc_long_mode : ℕ
desc_long_mode = 2 ^ 53

abbrev pub desc_dpl_shift : ℕ
desc_dpl_shift = 45

abbrev pub krnl_code_segment : ℕ
krnl_code_segment =
    bit_or (bit_or (bit_or (bit_or desc_long_mode desc_present) desc_user) desc_exec) desc_rw

abbrev pub krnl_data_segment : ℕ
krnl_data_segment =
    bit_or (bit_or (bit_or (bit_or desc_long_mode desc_present) desc_user) desc_conform) desc_rw

-- `(uint64_t) 3 << GDT_DESC_DPL_SHIFT`.
abbrev pub desc_dpl_3 : ℕ
desc_dpl_3 = shl 3 desc_dpl_shift

abbrev pub user_code_segment : ℕ
user_code_segment =
    bit_or
      (bit_or (bit_or (bit_or (bit_or desc_long_mode desc_dpl_3) desc_present) desc_user) desc_exec)
      desc_rw

abbrev pub user_data_segment : ℕ
user_data_segment =
    bit_or
      (bit_or (bit_or (bit_or (bit_or desc_long_mode desc_dpl_3) desc_present) desc_user)
        desc_conform)
      desc_rw

-- `sizeof(struct tss)`, and the offset of its last field.
abbrev pub tss_size : ℕ
tss_size = 104

abbrev pub ioperm_off : ℕ
ioperm_off = 102

abbrev pub bytes_per_tss : ℕ
bytes_per_tss = 128

-- `_buf`, `_next`, the limit in `_gdtr`, and the 16-bit fields of the task state segments.
pub record Gdt : Type 0 where
  pub buf : Store
  pub next : ℕ
  pub limit : ℕ
  pub tss : Store

-- The two words of the descriptor of a task state segment.
abbrev pub tss_low : ℕ → ℕ
tss_low tss =
    bit_or (bit_or (bit_or (bit_and tss_size 0xffff) (shl (bit_and tss 0xffffff) 16)) (shl 0x89 40))
      (shl (bit_and (shr tss 24) 0xff) 56)

abbrev pub tss_high : ℕ → ℕ
tss_high tss = bit_and (shr tss 32) 0xffffffff

module _ (tss_count : ℕ) where
  abbrev pub buf_size : ℕ
  buf_size = 5 + 2 * tss_count

  -- The selector of the segment comes with the new state.
  unfoldable pub gdt_add_seg : (seg : ℕ) → Gdt → Outcome (Gdt × ℕ)
  gdt_add_seg seg g =
      if ltb g.next buf_size
      then done (
        record g { buf = write g.buf g.next seg; next = u64 (g.next + 1) },
        u16 (u16 g.next * 2 ^ 3),
      )
      else undef

  unfoldable pub gdt_add_tss : (tss : ℕ) → Gdt → Outcome (Gdt × ℕ)
  gdt_add_tss tss g =
      if ltb (g.next + 1) buf_size
      then done (
        record g {
          buf = write (write g.buf g.next (tss_low tss)) (g.next + 1) (tss_high tss);
          next = u64 (g.next + 2);
        },
        u16 (u16 g.next * 2 ^ 3),
      )
      else undef

  module _ (tss_buf : ℕ) where
    unfoldable pub tss_get_n : ℕ → Outcome ℕ
    tss_get_n n = assert (ltb n tss_count) >> done (u64 (tss_buf + n * bytes_per_tss))

    -- The loop of `gdt_init`, with the rounds left.
    unfoldable pub add_all_tss : ℕ → (i : ℕ) → Gdt → Outcome Gdt
    add_all_tss zero i g = done g
    add_all_tss (suc n) i g = tss_get_n i >>= λ tss.
        gdt_add_tss tss (record g { tss = write g.tss (tss + ioperm_off) tss_size }) >>= λ r.
        add_all_tss n (i + 1) r.0

    -- The selectors that are loaded into CS and DS come with the state.
    unfoldable pub gdt_init : Gdt → Outcome (Gdt × ℕ × ℕ)
    gdt_init g = do
      cs ← gdt_add_seg krnl_code_segment (record g { next = 1 })
      ds ← gdt_add_seg krnl_data_segment cs.0
      user_cs ← gdt_add_seg user_code_segment ds.0
      user_ds ← gdt_add_seg user_data_segment user_cs.0
      filled ← add_all_tss tss_count 0 user_ds.0
      done (record filled { limit = u16 (u64 (filled.next * 2 ^ 3) + (2 ^ 64 - 1)) }, cs.1, ds.1)
