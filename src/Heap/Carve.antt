-- ===== src/Heap/Carve.antt =====
-- Allocation from the last chunk: its invariant, what the caller gets, and what else is written.
use tmos.Base.{
  refl, ℕ, ◌+◌, ◌-◌, ◌*◌, ◌/◌, ◌%◌, ◌^◌, ◌≤◌, ◌<◌, bit_or, ◌≡◌, ◌≢◌, ◌∙◌, ap, sym, true, arith,
}
use native.Mathlib.Nat.{le_refl, le_trans}
use tmos.Base.Bits.{bit_or_step, bit_or-zero, bit_and_mask}
use tmos.Base.Store.{Store, write, write_self, write_ne}
use tmos.Base.Outcome.{done}
use tmos.Heap.{
  Heap, heap_end, chunk_memsz, chunk_is_used, chunk_set_used, split_front, take_from_last,
}
use tmos.Heap.Split.{IsSplittable, chunk_memsz-eq, split_parts}
use tmos.Heap.Last.{
  IsHeap, IsBinSize, ready, carved, ready-IsHeap, ready_room, ready_behind, ready_grows,
  ready_limit, ready_maps, take_from_last-eq,
}

or-one : (x : ℕ) → bit_or x 1 ≡ x / 2 * 2 + 1
or-one x = omega (arith, bit_or_step x 1, bit_or-zero (x / 2))

is_used_of_odd : (m : Store) (p : ℕ) → m p % 2 ≡ 1 → chunk_is_used m p ≡ true
unfolding chunk_is_used
is_used_of_odd m p h = ground (arith, bit_and_mask 1 (m p))

-- What an allocation of `n` bytes from the last chunk of `h` returns and leaves.
pub record Carved (h : Heap) (n : ℕ) (g : Heap) (p : ℕ) : Type 0 where
  pub address : p ≡ h.last + 8
  pub next_last : g.last ≡ p + n
  pub memsz : chunk_memsz g.mem h.last ≡ n
  pub used : chunk_is_used g.mem h.last ≡ true
  pub heap : IsHeap g
  pub grows : h.brk ≤ g.brk
  pub limit : g.brk ≤ h.brk + 4096
  pub old_link : g.mem (h.mem (h.last + 16)) ≡ g.last + 8
  pub new_link : g.mem (g.last + 16) ≡ p
  pub maps : g.maps ≡ h.maps

module _ (g : Heap) (n : ℕ) (v : IsHeap g) (b : IsBinSize n)
    (room : 4096 + n ≤ g.mem g.last / 8 * 8) where
  splittable : IsSplittable g.mem g.last n
  splittable = record {
    header = v.header;
    ends = omega (arith, v);
    least = b.least;
    words = b.words;
    room = omega arith;
    behind = v.behind;
    not_header = v.not_header;
  }

  abbrev parts : ℕ × Store
  parts = split_front g.last n g.mem

  -- The flag is written into the header of the chunk that is handed out.
  flagged : (q : ℕ) → q ≢ g.last → chunk_set_used g.last parts.1 q ≡ parts.1 q
  unfolding chunk_set_used
  flagged q ne = write_ne parts.1 g.last _ q ne

  flagged_header :
      (chunk_set_used g.last parts.1 g.last / 8 * 8 ≡ n)
      × (chunk_set_used g.last parts.1 g.last % 2 ≡ 1)
      × (chunk_set_used g.last parts.1 g.last < 2 ^ 64)
  unfolding chunk_set_used
  flagged_header =
      let e : write parts.1 g.last (bit_or (parts.1 g.last) 1) g.last
          ≡ (n + g.mem g.last % 8) / 2 * 2 + 1 =
        write_self parts.1 g.last (bit_or (parts.1 g.last) 1)
        ∙ or-one (parts.1 g.last)
        ∙ ap (λ t. t / 2 * 2 + 1) (split_parts g.mem g.last n splittable).2 in
      rw e (omega (arith, b))

  abbrev right_header : ℕ
  right_header = g.mem g.last / 8 * 8 - n - 8

  -- The cells of the result.
  cells :
      let c = (carved n g).0 in
      (c.last ≡ g.last + n + 8)
      × (c.mem c.last ≡ right_header)
      × (c.mem (c.last + 16) ≡ g.last + 8)
      × (c.mem (g.mem (g.last + 16)) ≡ c.last + 8)
  cells =
      let (l, r, _, x, q) = split_parts g.mem g.last n splittable in
      (
        l,
        rw l (flagged (g.last + n + 8) (omega arith) ∙ r),
        rw l (flagged (g.last + n + 8 + 16) (omega arith) ∙ x),
        rw l (flagged (g.mem (g.last + 16)) v.not_header ∙ q),
      )

  carved-Carved : Carved g n (carved n g).0 (carved n g).1
  carved-Carved = record {
    address = omega (arith, v);
    next_last = omega (arith, v, cells);
    memsz = chunk_memsz-eq (carved n g).0.mem g.last flagged_header.2 ∙ flagged_header.0;
    used = is_used_of_odd (carved n g).0.mem g.last flagged_header.1;
    heap = record {
      header = rw cells.1 (omega (arith, v));
      least = rw cells.1 (omega (arith, v, b));
      ends = rw (cells.1, cells.0) (omega (arith, v, b));
      top = v.top;
      behind = rw (cells.2, cells.0) (omega arith);
      not_header = rw (cells.2, cells.0) (omega arith);
    };
    grows = le_refl g.brk;
    limit = omega arith;
    old_link = cells.3;
    new_link = cells.2 ∙ omega (arith, v);
    maps = refl;
  }

-- With a page left below the heap's limit that can be mapped, an allocation from the last chunk returns. The chunk that
-- it hands out has the size asked for, is marked as used and ends where the new last chunk begins.
-- It also stores the address of the new last chunk's list node in the word that the `next` link of
-- the old last chunk names.
pub take_from_last-Carved :
    (h : Heap) (n : ℕ)
    → IsHeap h
    → h.brk + 4096 ≤ heap_end
    → h.maps h.brk 1 ≡ true
    → IsBinSize n
    → (g : Heap) × (p : ℕ) × (take_from_last n h ≡ done (g, p)) × Carved h n g p
take_from_last-Carved h n v more mapped b =
    let r = ready n h in
    let room = ready_room h v more mapped n b in
    let x : Carved r n (carved n r).0 (carved n r).1 =
      carved-Carved r n (ready-IsHeap h v more mapped n b) b (rw room.1 room.0) in
    (
      (carved n r).0,
      (carved n r).1,
      take_from_last-eq h v more mapped n b,
      record {
        address = x.address ∙ ap (λ t. t + 8) room.1;
        next_last = x.next_last;
        memsz = ap (λ q. chunk_memsz (carved n r).0.mem q) (sym room.1) ∙ x.memsz;
        used = ap (λ q. chunk_is_used (carved n r).0.mem q) (sym room.1) ∙ x.used;
        heap = x.heap;
        grows = le_trans (ready_grows h v more mapped n b) x.grows;
        limit = ready_limit h v more mapped n b;
        old_link =
            ap (carved n r).0.mem
              (sym (ap (λ q. r.mem (q + 16)) room.1 ∙ ready_behind h v more mapped n b))
            ∙ x.old_link;
        new_link = x.new_link;
        maps = ready_maps h v more mapped n b;
      },
    )

-- The invariant reads no word below the last chunk.
pub IsHeap-same :
    (g g' : Heap)
    → g'.last ≡ g.last
    → g'.brk ≡ g.brk
    → ((q : ℕ) → g.last ≤ q → g'.mem q ≡ g.mem q)
    → IsHeap g
    → IsHeap g'
IsHeap-same g g' same_last same_brk same v = record {
  header = rw header v.header;
  least = rw header v.least;
  ends = rw (header, same_last, same_brk) v.ends;
  top = rw same_brk v.top;
  behind = rw (link, same_last) v.behind;
  not_header = rw (link, same_last) v.not_header;
}
  where
    header : g'.mem g'.last ≡ g.mem g.last
    header = ap g'.mem same_last ∙ same g.last (omega arith)

    link : g'.mem (g'.last + 16) ≡ g.mem (g.last + 16)
    link = ap (λ q. g'.mem (q + 16)) same_last ∙ same (g.last + 16) (omega arith)

-- Two allocations from the last chunk, one behind the other, where a page is left below the heap's
-- limit that can be mapped: the second one overwrites the first
-- word of the block that the first one handed out, whatever the program did in between to the words
-- below the last chunk.
pub take_from_last-clobbers :
    (h : Heap) (n₁ n₂ : ℕ) (g : Heap) (p : ℕ) (g' : Heap)
    → Carved h n₁ g p
    → g'.last ≡ g.last
    → g'.brk ≡ g.brk
    → ((q : ℕ) → g.last ≤ q → g'.mem q ≡ g.mem q)
    → IsBinSize n₂
    → g.brk + 4096 ≤ heap_end
    → g'.maps g'.brk 1 ≡ true
    → (k : Heap) × (r : ℕ) × (take_from_last n₂ g' ≡ done (k, r)) × (k.mem p ≡ k.last + 8)
take_from_last-clobbers h n₁ n₂ g p g' c same_last same_brk same b more mapped =
    let (k, r, e, y) =
      take_from_last-Carved g' n₂ (IsHeap-same g g' same_last same_brk same c.heap)
        (rw same_brk more) mapped b in
    (k, r, e, ap k.mem (sym link) ∙ y.old_link)
  where
    link : g'.mem (g'.last + 16) ≡ p
    link = ap (λ q. g'.mem (q + 16)) same_last ∙ same (g.last + 16) (omega arith) ∙ c.new_link
