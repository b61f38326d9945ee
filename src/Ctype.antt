-- ===== src/Ctype.antt =====
-- The character classes of libc/ctype.c and include/ctype.h. A character is a byte below 128; the
-- table is not meant for others, which are negative as `char`.
pub mod Ascii
use tmos.Base.{ℕ, ◌+◌, ◌-◌, bit_and, bit_or, List, [], ◌∷◌, Bool, not, ◌==◌, get_or, if◌then◌else◌}

abbrev pub flg_u : ℕ
flg_u = 0x01

abbrev pub flg_l : ℕ
flg_l = 0x02

abbrev pub flg_d : ℕ
flg_d = 0x04

abbrev pub flg_c : ℕ
flg_c = 0x08

abbrev pub flg_p : ℕ
flg_p = 0x10

abbrev pub flg_s : ℕ
flg_s = 0x20

abbrev pub flg_x : ℕ
flg_x = 0x40

abbrev pub flg_sp : ℕ
flg_sp = 0x80

-- `_ctype`, with the class of EOF first.
unfoldable pub ctype : List ℕ
ctype =
    0
    ∷ flg_c
    ∷ flg_c
    ∷ flg_c
    ∷ flg_c
    ∷ flg_c
    ∷ flg_c
    ∷ flg_c
    ∷ flg_c
    ∷ flg_c
    ∷ (bit_or flg_c flg_s)
    ∷ (bit_or flg_c flg_s)
    ∷ (bit_or flg_c flg_s)
    ∷ (bit_or flg_c flg_s)
    ∷ (bit_or flg_c flg_s)
    ∷ flg_c
    ∷ flg_c
    ∷ flg_c
    ∷ flg_c
    ∷ flg_c
    ∷ flg_c
    ∷ flg_c
    ∷ flg_c
    ∷ flg_c
    ∷ flg_c
    ∷ flg_c
    ∷ flg_c
    ∷ flg_c
    ∷ flg_c
    ∷ flg_c
    ∷ flg_c
    ∷ flg_c
    ∷ flg_c
    ∷ (bit_or flg_s flg_sp)
    ∷ flg_p
    ∷ flg_p
    ∷ flg_p
    ∷ flg_p
    ∷ flg_p
    ∷ flg_p
    ∷ flg_p
    ∷ flg_p
    ∷ flg_p
    ∷ flg_p
    ∷ flg_p
    ∷ flg_p
    ∷ flg_p
    ∷ flg_p
    ∷ flg_p
    ∷ flg_d
    ∷ flg_d
    ∷ flg_d
    ∷ flg_d
    ∷ flg_d
    ∷ flg_d
    ∷ flg_d
    ∷ flg_d
    ∷ flg_d
    ∷ flg_d
    ∷ flg_p
    ∷ flg_p
    ∷ flg_p
    ∷ flg_p
    ∷ flg_p
    ∷ flg_p
    ∷ flg_p
    ∷ (bit_or flg_u flg_x)
    ∷ (bit_or flg_u flg_x)
    ∷ (bit_or flg_u flg_x)
    ∷ (bit_or flg_u flg_x)
    ∷ (bit_or flg_u flg_x)
    ∷ (bit_or flg_u flg_x)
    ∷ flg_u
    ∷ flg_u
    ∷ flg_u
    ∷ flg_u
    ∷ flg_u
    ∷ flg_u
    ∷ flg_u
    ∷ flg_u
    ∷ flg_u
    ∷ flg_u
    ∷ flg_u
    ∷ flg_u
    ∷ flg_u
    ∷ flg_u
    ∷ flg_u
    ∷ flg_u
    ∷ flg_u
    ∷ flg_u
    ∷ flg_u
    ∷ flg_u
    ∷ flg_p
    ∷ flg_p
    ∷ flg_p
    ∷ flg_p
    ∷ flg_p
    ∷ flg_p
    ∷ (bit_or flg_l flg_x)
    ∷ (bit_or flg_l flg_x)
    ∷ (bit_or flg_l flg_x)
    ∷ (bit_or flg_l flg_x)
    ∷ (bit_or flg_l flg_x)
    ∷ (bit_or flg_l flg_x)
    ∷ flg_l
    ∷ flg_l
    ∷ flg_l
    ∷ flg_l
    ∷ flg_l
    ∷ flg_l
    ∷ flg_l
    ∷ flg_l
    ∷ flg_l
    ∷ flg_l
    ∷ flg_l
    ∷ flg_l
    ∷ flg_l
    ∷ flg_l
    ∷ flg_l
    ∷ flg_l
    ∷ flg_l
    ∷ flg_l
    ∷ flg_l
    ∷ flg_l
    ∷ flg_p
    ∷ flg_p
    ∷ flg_p
    ∷ flg_p
    ∷ flg_c
    ∷ 0
    ∷ 0
    ∷ 0
    ∷ 0
    ∷ 0
    ∷ 0
    ∷ 0
    ∷ 0
    ∷ 0
    ∷ 0
    ∷ 0
    ∷ 0
    ∷ 0
    ∷ 0
    ∷ 0
    ∷ 0
    ∷ 0
    ∷ 0
    ∷ 0
    ∷ 0
    ∷ 0
    ∷ 0
    ∷ 0
    ∷ 0
    ∷ 0
    ∷ 0
    ∷ 0
    ∷ 0
    ∷ 0
    ∷ 0
    ∷ 0
    ∷ 0
    ∷ 0
    ∷ 0
    ∷ 0
    ∷ 0
    ∷ 0
    ∷ 0
    ∷ 0
    ∷ 0
    ∷ 0
    ∷ 0
    ∷ 0
    ∷ 0
    ∷ 0
    ∷ 0
    ∷ 0
    ∷ 0
    ∷ 0
    ∷ 0
    ∷ 0
    ∷ 0
    ∷ 0
    ∷ 0
    ∷ 0
    ∷ 0
    ∷ 0
    ∷ 0
    ∷ 0
    ∷ 0
    ∷ 0
    ∷ 0
    ∷ 0
    ∷ 0
    ∷ 0
    ∷ 0
    ∷ 0
    ∷ 0
    ∷ 0
    ∷ 0
    ∷ 0
    ∷ 0
    ∷ 0
    ∷ 0
    ∷ 0
    ∷ 0
    ∷ 0
    ∷ 0
    ∷ 0
    ∷ 0
    ∷ 0
    ∷ 0
    ∷ 0
    ∷ 0
    ∷ 0
    ∷ 0
    ∷ 0
    ∷ 0
    ∷ 0
    ∷ 0
    ∷ 0
    ∷ 0
    ∷ 0
    ∷ 0
    ∷ 0
    ∷ 0
    ∷ 0
    ∷ 0
    ∷ 0
    ∷ 0
    ∷ 0
    ∷ 0
    ∷ 0
    ∷ 0
    ∷ 0
    ∷ 0
    ∷ 0
    ∷ 0
    ∷ 0
    ∷ 0
    ∷ 0
    ∷ 0
    ∷ 0
    ∷ 0
    ∷ 0
    ∷ 0
    ∷ 0
    ∷ 0
    ∷ 0
    ∷ 0
    ∷ 0
    ∷ 0
    ∷ 0
    ∷ 0
    ∷ 0
    ∷ 0
    ∷ 0
    ∷ 0
    ∷ []

-- `(_ctype + 1)[c] & mask`.
unfoldable pub has_class : (mask c : ℕ) → Bool
unfolding ctype
has_class mask c = not (bit_and (get_or ctype (c + 1) 0) mask == 0)

unfoldable pub isalnum : ℕ → Bool
unfolding has_class
isalnum c = has_class (bit_or (bit_or flg_u flg_l) flg_d) c

unfoldable pub isalpha : ℕ → Bool
unfolding has_class
isalpha c = has_class (bit_or flg_u flg_l) c

unfoldable pub iscntrl : ℕ → Bool
unfolding has_class
iscntrl c = has_class flg_c c

unfoldable pub isdigit : ℕ → Bool
unfolding has_class
isdigit c = has_class flg_d c

unfoldable pub isgraph : ℕ → Bool
unfolding has_class
isgraph c = has_class (bit_or (bit_or (bit_or flg_p flg_u) flg_l) flg_d) c

unfoldable pub islower : ℕ → Bool
unfolding has_class
islower c = has_class flg_l c

unfoldable pub isprint : ℕ → Bool
unfolding has_class
isprint c = has_class (bit_or (bit_or (bit_or (bit_or flg_p flg_u) flg_l) flg_d) flg_sp) c

unfoldable pub ispunct : ℕ → Bool
unfolding has_class
ispunct c = has_class flg_p c

unfoldable pub isspace : ℕ → Bool
unfolding has_class
isspace c = has_class flg_s c

unfoldable pub isupper : ℕ → Bool
unfolding has_class
isupper c = has_class flg_u c

unfoldable pub isxdigit : ℕ → Bool
unfolding has_class
isxdigit c = has_class (bit_or flg_d flg_x) c

unfoldable pub tolower : ℕ → ℕ
tolower c = if isupper c then c + 32 else c

unfoldable pub toupper : ℕ → ℕ
toupper c = if islower c then c - 32 else c
