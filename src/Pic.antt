-- ===== src/Pic.antt =====
-- The interrupt controller of kernel/arch/x86_64/dev/pic.c. What the code sends is the list of its
-- port writes, in order; what it reads from the two mask registers is a parameter.
pub mod Eoi
mod Tests
use tmos.Base.{ℕ, ◌+◌, List, [], ◌∷◌, ltb, leb, if◌then◌else◌}

-- The static variables `_master_base` and `_slave_base`.
pub record Pic : Type 0 where
  pub master_base : ℕ
  pub slave_base : ℕ

abbrev pub cmd_eoi : ℕ
cmd_eoi = 0x20

abbrev pub master_cmd : ℕ
master_cmd = 0x20

abbrev pub master_data : ℕ
master_data = 0x21

abbrev pub slave_cmd : ℕ
slave_cmd = 0xa0

abbrev pub slave_data : ℕ
slave_data = 0xa0

abbrev pub delay : ℕ × ℕ
delay = (0x80, 0)

unfoldable pub pic_init : (master_mask slave_mask master_base slave_base : ℕ) → Pic × List (ℕ × ℕ)
pic_init master_mask slave_mask master_base slave_base = (
  record { master_base = master_base; slave_base = slave_base },
  (master_cmd, 0x11)
      ∷ delay
      ∷ (slave_cmd, 0x11)
      ∷ delay
      ∷ (master_data, master_base)
      ∷ delay
      ∷ (slave_data, slave_base)
      ∷ delay
      ∷ (master_data, 4)
      ∷ delay
      ∷ (slave_data, 4)
      ∷ delay
      ∷ (master_data, 1)
      ∷ delay
      ∷ (slave_data, 1)
      ∷ delay
      ∷ (master_data, master_mask)
      ∷ (slave_data, slave_mask)
      ∷ [],
)

-- `int_num >- _slave_base + 8` compares with `8 - _slave_base`, in `int`.
unfoldable pub pic_send_eoi : ℕ → Pic → List (ℕ × ℕ)
pic_send_eoi int_num p =
    if leb p.slave_base int_num
    then (if ltb 8 (int_num + p.slave_base)
        then []
        else (slave_cmd, cmd_eoi) ∷ (master_cmd, cmd_eoi) ∷ [])
    else if ltb int_num p.master_base
    then []
    else (master_cmd, cmd_eoi) ∷ []
