-- ===== src/Serial/Text.antt =====
-- What `serial_write_str` sends, on a port that gets ready again and again.
use mathlib.Core.List.{append-nil, append_assoc}
use tmos.Base.{
  ==_ne, sym, ℕ, zero, suc, ◌+◌, ◌<◌, ◌≡◌, ◌≢◌, ◌∙◌, inl, inr, refl, ap, List, [], ◌∷◌, ◌++◌, arith,
  true, false, ◌==◌, Bool-cases,
}
use tmos.Base.Outcome.{done}
use tmos.Base.Store.{Store}
use tmos.Base.Word.{u8}
use tmos.Serial.{Port, is_transmit_empty, wait_empty, serial_write_byte, write_rounds}

-- Among any `fuel` reads of the line status in a row there is one that says ready.
abbrev pub IsResponsive : (fuel : ℕ) (status : ℕ → ℕ) → Type 0
IsResponsive fuel status =
    (next : ℕ) → (k : ℕ) × (k < fuel) × (is_transmit_empty (status (next + k)) ≡ true)

-- The writes of the `n` bytes at `str`.
unfoldable pub text : (com_base n str : ℕ) → Store → List (ℕ × ℕ)
text com_base zero str m = []
text com_base (suc n) str m = (com_base, u8 (m str)) ∷ text com_base n (suc str) m

wait_empty-returns :
    (status : ℕ → ℕ) (n next k : ℕ)
    → k < n
    → is_transmit_empty (status (next + k)) ≡ true
    → (r : ℕ) × (wait_empty status n next ≡ done r)
unfolding wait_empty
wait_empty-returns status zero next k below ready = ground arith
wait_empty-returns status (suc n) next zero below ready =
    let at : next ≡ next + 0 = omega arith in
    (suc next, rw (ap (λ x. is_transmit_empty (status x)) at ∙ ready) refl)
wait_empty-returns status (suc n) next (suc k) below ready =
    elim (Bool-cases (is_transmit_empty (status next))) [
      | inl now ↦ (suc next, rw now refl)
      | inr later ↦
          let at : suc next + k ≡ next + suc k = omega arith in
          let (r, e) =
            wait_empty-returns status n (suc next) k (omega arith)
              (ap (λ x. is_transmit_empty (status x)) at ∙ ready) in
          (r, rw later e)
    ]

-- A text goes out whole, byte by byte and in its order, when the port gets ready again and again,
-- and there is a round for each byte and one more.
pub write_rounds-text :
    (fuel : ℕ) (status : ℕ → ℕ)
    → IsResponsive fuel status
    → (rounds n com_base str : ℕ) (m : Store) (s : Port) → n < rounds
    → ((i : ℕ) → i < n → m (str + i) ≢ 0)
    → m (str + n) ≡ 0
    → (t : Port) × (write_rounds fuel status rounds com_base str m s ≡ done t)
      × (t.sent ≡ s.sent ++ text com_base n str m)
unfolding write_rounds serial_write_byte text
write_rounds-text fuel status live zero n com_base str m s room bytes nul = ground arith
write_rounds-text fuel status live (suc rounds) zero com_base str m s room bytes nul =
    let at : str ≡ str + 0 = omega arith in
    let empty : m str ≡ 0 = ap m at ∙ nul in
    let here : (m str == 0) ≡ true = ground (arith, empty) in
    (s, rw here refl, sym (append-nil s.sent))
write_rounds-text fuel status live (suc rounds) (suc n) com_base str m s room bytes nul =
    let at : (i : ℕ) → suc str + i ≡ str + suc i = λ i. omega arith in
    let first : str ≡ str + 0 = omega arith in
    let more : (m str == 0) ≡ false =
      ==_ne (m str) 0 (λ e. bytes 0 (omega arith) (ap m (sym first) ∙ e)) in
    let (k, below, ready) = live s.reads in
    let (next, waited) = wait_empty-returns status fuel s.reads k below ready in
    let t : Port = record { reads = next; sent = s.sent ++ (com_base, u8 (m str)) ∷ [] } in
    let (u, returned, sent) =
      write_rounds-text fuel status live rounds n com_base (suc str) m t (omega arith)
        (λ i h e. bytes (suc i) (omega arith) (ap m (sym (at i)) ∙ e)) (ap m (at n) ∙ nul) in
    (u, rw (more, waited) returned, sent ∙ append_assoc s.sent ((com_base, u8 (m str)) ∷ []) _)
