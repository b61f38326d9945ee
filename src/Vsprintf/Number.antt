-- ===== src/Vsprintf/Number.antt =====
-- `_number` of kernel/vsprintf.c, which writes a number in a field, and the loops that write to the
-- buffer. `end` is the last byte of the buffer; a byte behind it is counted and not written.
use tmos.Base.{
  ℕ, zero, suc, ◌+◌, ◌-◌, ◌/◌, ◌%◌, ◌^◌, bit_and, bit_or, List, [], ◌∷◌, Bool, not, ◌||◌, ltb, leb,
  ◌==◌, if◌then◌else◌, get_or, length,
}
use tmos.Base.Bits.{bit_not}
use tmos.Base.Outcome.{Outcome, done, undef, ◌>>=◌}
use tmos.Base.Store.{Store, write}

abbrev pub flg_zeropad : ℕ
flg_zeropad = 0x01

abbrev pub flg_sign : ℕ
flg_sign = 0x02

abbrev pub flg_plus : ℕ
flg_plus = 0x04

abbrev pub flg_space : ℕ
flg_space = 0x08

abbrev pub flg_left : ℕ
flg_left = 0x10

abbrev pub flg_special : ℕ
flg_special = 0x20

abbrev pub flg_large : ℕ
flg_large = 0x40

unfoldable pub has : (flags flg : ℕ) → Bool
has flags flg = not (bit_and flags flg == 0)

abbrev pub small_digits : List ℕ
small_digits =
    48 ∷ 49 ∷ 50 ∷ 51 ∷ 52 ∷ 53 ∷ 54 ∷ 55 ∷ 56 ∷ 57 ∷ 97 ∷ 98 ∷ 99 ∷ 100 ∷ 101 ∷ 102 ∷ 103 ∷ 104
    ∷ 105 ∷ 106 ∷ 107 ∷ 108 ∷ 109 ∷ 110 ∷ 111 ∷ 112 ∷ 113 ∷ 114 ∷ 115 ∷ 116 ∷ 117 ∷ 118 ∷ 119 ∷ 120
    ∷ 121 ∷ 122 ∷ []

abbrev pub large_digits : List ℕ
large_digits =
    48 ∷ 49 ∷ 50 ∷ 51 ∷ 52 ∷ 53 ∷ 54 ∷ 55 ∷ 56 ∷ 57 ∷ 65 ∷ 66 ∷ 67 ∷ 68 ∷ 69 ∷ 70 ∷ 71 ∷ 72 ∷ 73
    ∷ 74 ∷ 75 ∷ 76 ∷ 77 ∷ 78 ∷ 79 ∷ 80 ∷ 81 ∷ 82 ∷ 83 ∷ 84 ∷ 85 ∷ 86 ∷ 87 ∷ 88 ∷ 89 ∷ 90 ∷ []

unfoldable pub digit : (large : Bool) → ℕ → ℕ
digit large d = get_or (if large then large_digits else small_digits) d 0

-- The memory, and the place of the next byte.
pub record Output : Type 0 where
  pub mem : Store
  pub str : ℕ

-- `if (str <= end) *str = c; str++;`, where `str` does not wrap round: `within` makes that undefined.
unfoldable pub put : (end c : ℕ) → Output → Output
put end c o = record {
  mem = (if leb o.str end then write o.mem o.str c else o.mem);
  str = o.str + 1;
}

-- The pointer behind what was written must not have passed the end of the address space.
unfoldable pub within : Output → Outcome Output
within o = if ltb o.str (2 ^ 64) then done o else undef

-- `n` times the same byte.
unfoldable pub pad : (end : ℕ) → ℕ → (c : ℕ) → Output → Output
pad end zero c o = o
pad end (suc n) c o = pad end n c (put end c o)

unfoldable pub puts : (end : ℕ) → List ℕ → Output → Output
puts end [] o = o
puts end (c ∷ cs) o = puts end cs (put end c o)

-- The loop that fills `tmp`, with `room` bytes of it left. The list holds the last byte first, which
-- is the order in which the bytes are written. A byte behind `tmp` is undefined to write.
unfoldable pub digits_of : ℕ → Bool → (base num : ℕ) → List ℕ → Outcome (List ℕ)
digits_of zero large base num tmp = if num == 0 then done tmp else undef
digits_of (suc room) large base num tmp =
    let rest = digits_of room large base (num / base) (digit large (num % base) ∷ tmp) in
    if num == 0 then done tmp else rest

-- The sign, or 0, and the number behind it: the least number has no opposite.
unfoldable pub sign_of : (num flags : ℕ) → Outcome (ℕ × ℕ)
sign_of num flags =
    if not (has flags flg_sign)
    then done (0, num)
    else if num == 2 ^ 63
    then undef
    else if ltb (2 ^ 63) num
    then done (45, 2 ^ 64 - num)
    else done ((if has flags flg_plus then 43 else if has flags flg_space then 32 else 0), num)

-- The bytes that `SPECIAL` puts before the digits.
unfoldable pub prefix : (base flags : ℕ) → List ℕ
prefix base flags =
    if not (has flags flg_special)
    then []
    else if base == 8
    then 48 ∷ []
    else if base == 16
    then 48 ∷ digit (has flags flg_large) 33 ∷ []
    else []

-- The code behind the first test of the flags. `size` and `precision` are only compared with numbers
-- that are not negative, so a negative one is 0 here. `tmp` has 66 bytes.
unfoldable pub number_with : (end num base size precision flags : ℕ) → Output → Outcome Output
number_with end num base size precision flags o =
    let c = if has flags flg_zeropad then 48 else 32 in
    let large = has flags flg_large in
    if ltb base 2 || ltb 36 base then done (record o { str = 0 }) else do
      r ← sign_of num flags
      let size1 = if r.0 == 0 then size else size - 1
      let size2 = size1 - length (prefix base flags)
      tmp ← (if r.1 == 0 then done (48 ∷ []) else digits_of 66 large base r.1 [])
      let i = length tmp
      let precision1 = if ltb precision i then i else precision
      let size3 = size2 - precision1
      let early = if has flags (bit_or flg_zeropad flg_left) then 0 else size3
      let o1 = pad end early 32 o
      let o2 = if r.0 == 0 then o1 else put end r.0 o1
      let o3 = puts end (prefix base flags) o2
      let middle = if has flags flg_left then 0 else size3 - early
      let o4 = pad end middle c o3
      let o5 = pad end (precision1 - i) 48 o4
      let o6 = puts end tmp o5
      within (pad end (size3 - early - middle) 32 o6)

unfoldable pub number : (end num base size precision flags : ℕ) → Output → Outcome Output
number end num base size precision flags o =
    number_with end num base size precision
      (if has flags flg_left then bit_and flags (bit_not 32 flg_zeropad) else flags) o
