-- ===== src/Gdt/Tests.antt =====
-- One task state segment, as without several processors.
use tmos.Base.{◌≡◌, arith}
use tmos.Base.Outcome.{done}
use tmos.Gdt.{Gdt, krnl_code_segment, krnl_data_segment, gdt_init}
use tmos.Gdt.Descriptors.{desc_base, desc_limit, desc_access, gdt_init-Filled}

abbrev blank : Gdt
blank = record { buf = λ _. 0; next = 0; limit = 0; tss = λ _. 0 }

gdt_init-Filled_example :
    (t : Gdt) × (gdt_init 1 0xffffffff80105000 blank ≡ done (t, 8, 16))
    × (t.limit ≡ 55)
    × (t.buf 1 ≡ krnl_code_segment)
    × (t.buf 2 ≡ krnl_data_segment)
    × (desc_base (t.buf 5) (t.buf 6) ≡ 0xffffffff80105000)
    × (desc_limit (t.buf 5) ≡ 104)
    × (desc_access (t.buf 5) ≡ 0x89)
gdt_init-Filled_example =
    gdt_init-Filled 1 0xffffffff80105000 (omega arith) (omega arith) blank 0 (omega arith)
