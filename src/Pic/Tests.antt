-- ===== src/Pic/Tests.antt =====
-- The controller with its bases at 32 and 40.
use tmos.Base.{◌≡◌, refl, [], ◌∷◌}
use tmos.Pic.{pic_init, pic_send_eoi}

eoi-master : pic_send_eoi 33 (pic_init 0 0 32 40).0 ≡ (0x20, 0x20) ∷ []
unfolding pic_send_eoi pic_init
eoi-master = refl
