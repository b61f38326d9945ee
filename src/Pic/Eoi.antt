-- ===== src/Pic/Eoi.antt =====
-- Which end-of-interrupt commands are sent.
use tmos.Base.{ℕ, ◌≤◌, ◌≡◌, [], ◌∷◌, arith, ltb, leb, if◌then◌else◌}
use tmos.Pic.{pic_init, pic_send_eoi}

-- After `pic_init` with a slave base of 5 or more, `pic_send_eoi` sends one command to the master for
-- an interrupt from the master base up to the slave base, and nothing for any other: an interrupt of
-- the slave is never acknowledged.
pub pic_send_eoi-pic_init :
    (master_mask slave_mask master_base slave_base int_num : ℕ)
    → 5 ≤ slave_base
    → pic_send_eoi int_num (pic_init master_mask slave_mask master_base slave_base).0 ≡ (
        if leb slave_base int_num
        then []
        else if ltb int_num master_base
        then []
        else (0x20, 0x20) ∷ [])
unfolding pic_send_eoi pic_init
pic_send_eoi-pic_init master_mask slave_mask master_base slave_base int_num h = ground arith
