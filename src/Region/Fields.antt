-- ===== src/Region/Fields.antt =====
-- The fields of a region word: what the macros read back from what they write.
use tmos.Base.{ℕ, ◌+◌, ◌*◌, ◌/◌, ◌%◌, ◌^◌, ◌≡◌, ◌∙◌, bit_and, bit_or, arith}
use tmos.Base.Bits.{
  bit_and_mask, bit_and_field, bit_or_fields, bit_or_comm, bit_or_step, bit_or-zero,
}
use tmos.System.{paddr_algn_mask}
use tmos.Region.{
  region_start, region_type, region_new, region_set_start, region_set_type, region_set_managed,
}

-- `x & PADDR_ALGN_MASK`.
pub algn_mask-eq : (x : ℕ) → bit_and x paddr_algn_mask ≡ x / 4096 % 2 ^ 44 * 4096
algn_mask-eq x = bit_and_field 12 44 x

pub region_start-eq : (r : ℕ) → region_start r ≡ r / 4096 % 2 ^ 44 * 4096
unfolding region_start
region_start-eq r = algn_mask-eq r

region_type-eq : (r : ℕ) → region_type r ≡ r % 8
unfolding region_type
region_type-eq r = bit_and_mask 3 r

region_new-eq : (a t : ℕ) → region_new a t ≡ a / 4096 % 2 ^ 44 * 4096 + t % 8
unfolding region_new
region_new-eq a t =
    rw (algn_mask-eq a, bit_and_mask 3 t)
      (bit_or_fields 12 (a / 4096 % 2 ^ 44) (t % 8) (omega arith))

region_set_start-eq : (r a : ℕ) → region_set_start r a ≡ a / 4096 % 2 ^ 44 * 4096 + r % 8
unfolding region_set_start
region_set_start-eq r a =
    bit_or_comm (bit_and r 7) (bit_and a paddr_algn_mask)
    ∙ rw (algn_mask-eq a, bit_and_mask 3 r)
        (bit_or_fields 12 (a / 4096 % 2 ^ 44) (r % 8) (omega arith))

region_set_type-eq : (r t : ℕ) → region_set_type r t ≡ r / 4096 % 2 ^ 44 * 4096 + t % 8
unfolding region_set_type
region_set_type-eq r t =
    rw (algn_mask-eq r, bit_and_mask 3 t)
      (bit_or_fields 12 (r / 4096 % 2 ^ 44) (t % 8) (omega arith))

-- The start and the type that the region macros read back from what they wrote: a setter changes its
-- own field and no other.
pub region_fields :
    (r a t : ℕ)
    → (region_start (region_new a t) ≡ region_start a)
      × (region_type (region_new a t) ≡ t % 8)
      × (region_start (region_set_start r a) ≡ region_start a)
      × (region_type (region_set_start r a) ≡ region_type r)
      × (region_start (region_set_type r t) ≡ region_start r)
      × (region_type (region_set_type r t) ≡ t % 8)
      × (region_start (region_set_managed r) ≡ region_start r)
      × (region_type (region_set_managed r) ≡ region_type r)
unfolding region_set_managed
region_fields r a t =
    rw
      (
        region_start-eq (region_new a t),
        region_type-eq (region_new a t),
        region_start-eq (region_set_start r a),
        region_type-eq (region_set_start r a),
        region_start-eq (region_set_type r t),
        region_type-eq (region_set_type r t),
        region_start-eq (bit_or r 8),
        region_type-eq (bit_or r 8),
        region_start-eq r,
        region_type-eq r,
        region_start-eq a,
        region_new-eq a t,
        region_set_start-eq r a,
        region_set_type-eq r t,
        managed,
      )
      (omega arith)
  where
    managed : bit_or r 8 ≡ r / 16 * 16 + 8 + r % 8
    managed = omega (
      arith,
      bit_or_step r 8,
      bit_or_step (r / 2) 4,
      bit_or_step (r / 2 / 2) 2,
      bit_or_step (r / 2 / 2 / 2) 1,
      bit_or-zero (r / 2 / 2 / 2 / 2),
    )
