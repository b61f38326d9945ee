-- ===== src/Heap/Split.antt =====
-- `_chunk_split_front`: the words of the two chunks that it leaves.
use tmos.Base.{ℕ, ◌+◌, ◌-◌, ◌*◌, ◌/◌, ◌%◌, ◌^◌, ◌≤◌, ◌<◌, bit_and, bit_or, ◌≡◌, ◌≢◌, ◌∙◌, ap, arith}
use tmos.Base.Bits.{bit_and_high, bit_and_mask, bit_or_fields}
use tmos.Base.Store.{Store, write, write_self, write_ne}
use tmos.Base.Word.{u64, sub64}
use tmos.DList.{list_add_front, list_add_between}
use tmos.Heap.{chunk_memsz, chunk_footer, split_front}

-- The size in a header, without its flags.
pub chunk_memsz-eq : (m : Store) (p : ℕ) → m p < 2 ^ 64 → chunk_memsz m p ≡ m p / 8 * 8
unfolding chunk_memsz
chunk_memsz-eq m p h = bit_and_high 64 3 (m p) (omega arith) h

-- A chunk that is large enough to split, and the word that its `next` link holds.
pub record IsSplittable (m : Store) (left n : ℕ) : Type 0 where
  pub header : m left < 2 ^ 64
  pub ends : left + 8 + m left / 8 * 8 < 2 ^ 64
  pub least : 24 ≤ n
  pub words : n % 8 ≡ 0
  pub room : n + 32 ≤ m left / 8 * 8
  pub behind : m (left + 16) ≤ left + 8
  pub not_header : m (left + 16) ≢ left

module _ (m : Store) (left n : ℕ) (v : IsSplittable m left n) where
  abbrev right_size : ℕ
  right_size = m left / 8 * 8 - n - 8

  -- The headers after the first two assignments.
  abbrev right_of : ℕ
  right_of = left + n + 8

  abbrev left_word : ℕ
  left_word = n + m left % 8

  abbrev headers : Store
  headers = write (write m right_of right_size) left left_word

  abbrev footers : Store
  footers = write (write headers (left + n) n) (right_of + right_size) right_size

  left_word-eq : bit_or n (bit_and (m left) 7) ≡ left_word
  left_word-eq =
      let e : n / 8 * 2 ^ 3 ≡ n = omega (arith, v.words) in
      rw (bit_and_mask 3 (m left)) (rw e at (bit_or_fields 3 (n / 8) (m left % 8) (omega arith)))

  header_left : headers left ≡ left_word
  header_left = write_self (write m right_of right_size) left left_word

  header_right : write headers (left + n) n right_of ≡ right_size
  unfolding write
  header_right = ground arith

  footer_left : chunk_footer headers left ≡ left + n
  unfolding chunk_footer
  footer_left =
      let e : chunk_memsz headers left ≡ n =
        chunk_memsz-eq headers left (rw header_left (omega (arith, v)))
        ∙ rw header_left (omega (arith, v.words)) in
      rw e (omega (arith, v))

  memsz_right : chunk_memsz (write headers (left + n) n) right_of ≡ right_size
  memsz_right =
      chunk_memsz-eq (write headers (left + n) n) right_of (rw header_right (omega (arith, v)))
      ∙ rw header_right (omega (arith, v.words))

  footer_right : chunk_footer (write headers (left + n) n) right_of ≡ right_of + right_size
  unfolding chunk_footer
  footer_right = rw memsz_right (omega (arith, v))

  split_front-eq :
      split_front left n m ≡ (right_of, list_add_front (left + 8) (right_of + 8) footers)
  unfolding split_front
  split_front-eq =
      let right : u64 (left + n + 8) ≡ right_of = omega (arith, v) in
      let size : sub64 (sub64 (m left / 8 * 8) n) 8 ≡ right_size = omega (arith, v) in
      let kept : write m right_of right_size left ≡ m left =
        write_ne m right_of right_size left (omega arith) in
      rw (
        chunk_memsz-eq m left v.header,
        right,
        size,
        kept,
        left_word-eq,
        footer_left,
        memsz_right,
        footer_right,
      )

  -- The memory after the list operation, which writes to the word that the old `next` link named.
  linked : Store
  linked = list_add_front (left + 8) (right_of + 8) footers

  next_left : footers (left + 8 + 8) ≡ m (left + 16)
  unfolding write
  next_left = ground (arith, v)

  linked_header_right : linked right_of ≡ right_size
  unfolding linked list_add_front list_add_between write
  linked_header_right = ground (arith, v, next_left)

  linked_header_left : linked left ≡ left_word
  unfolding linked list_add_front list_add_between write
  linked_header_left = ground (arith, v, next_left)

  linked_next_right : linked (right_of + 16) ≡ left + 8
  unfolding linked list_add_front list_add_between write
  linked_next_right = ground (arith, v, next_left)

  linked_behind : linked (m (left + 16)) ≡ right_of + 8
  unfolding linked list_add_front list_add_between write
  linked_behind = ground (arith, v, next_left)

  -- The new last chunk, and the memory: both headers, the link of the new last chunk back to the
  -- chunk that is split off, and the word that the old `next` link named.
  pub split_parts :
      let (right, after) = split_front left n m in
      (right ≡ right_of)
      × (after right_of ≡ right_size)
      × (after left ≡ left_word)
      × (after (right_of + 16) ≡ left + 8)
      × (after (m (left + 16)) ≡ right_of + 8)
  unfolding linked
  split_parts = (
    ap (λ r. r.0) split_front-eq,
    ap (λ r. r.1 right_of) split_front-eq ∙ linked_header_right,
    ap (λ r. r.1 left) split_front-eq ∙ linked_header_left,
    ap (λ r. r.1 (right_of + 16)) split_front-eq ∙ linked_next_right,
    ap (λ r. r.1 (m (left + 16))) split_front-eq ∙ linked_behind,
  )
