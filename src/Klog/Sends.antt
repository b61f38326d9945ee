-- ===== src/Klog/Sends.antt =====
-- What `klog` sends, and where `__panic` stays.
use native.Mathlib.Decide.{ℕ_discrete}
use tmos.Base.{
  ℕ, zero, suc, ◌+◌, ◌^◌, ◌≤◌, ◌<◌, ◌≡◌, ◌≢◌, ◌∙◌, ◌⊎◌, inl, inr, refl, ap, sym, List, ◌++◌, arith,
  Bool, true, false, ◌==◌, min,
}
use tmos.Base.Outcome.{done, no_fuel}
use tmos.Base.Store.{Store}
use tmos.Base.Word.{u32}
use tmos.Vsprintf.Print.{vsnprintf}
use tmos.Vsprintf.Bounds.{vsnprintf-Inside}
use tmos.Serial.{Port, com1, serial_write_str}
use tmos.Serial.Text.{IsResponsive, text, write_rounds-text}
use tmos.Klog.{Log, log_message, klog, panic_log}
use tmos.Klog.Spin.{Lock, poll, spin_lock_intsafe, spin_unlock}

-- The first NUL of a string that has one.
first_nul :
    (m : Store) (n p : ℕ)
    → m (p + n) ≡ 0
    → (k : ℕ) × (k ≤ n) × (m (p + k) ≡ 0) × ((i : ℕ) → i < k → m (p + i) ≢ 0)
first_nul m zero p nul = (0, omega arith, nul, λ i h. ground arith)
first_nul m (suc n) p nul =
    let at : (i : ℕ) → suc p + i ≡ p + suc i = λ i. omega arith in
    let start : p + 0 ≡ p = omega arith in
    elim (ℕ_discrete (m p) 0) [
      | yes here ↦ (0, omega arith, ap m start ∙ here, λ i h. ground arith)
      | no more ↦
          let (k, below, end, before) = first_nul m n (suc p) (ap m (at n) ∙ nul) in
          (
            suc k,
            omega arith,
            ap m (sym (at k)) ∙ end,
            elim [
              | zero ↦ λ h e. more (ap m (sym start) ∙ e)
              | suc i ↦ λ h e. before i (omega arith) (ap m (at i) ∙ e)
            ],
          )
    ]

-- The lock that nobody holds.
lock_free :
    (fuel : ℕ) (interrupts : Bool)
    → 0 < fuel
    → (l : Lock) × (spin_lock_intsafe fuel (record { word = 0; interrupts = interrupts }) ≡ done l)
      × (spin_unlock l ≡ record { word = 0; interrupts = false })
unfolding spin_lock_intsafe spin_unlock poll
lock_free zero interrupts some = ground arith
lock_free (suc n) true some = (_, refl, refl)
lock_free (suc n) false some = (_, refl, refl)

-- The lock that is held, with nobody to release it.
poll_held : (n : ℕ) → poll n 1 ≡ no_fuel
unfolding poll
poll_held zero = refl
poll_held (suc n) = poll_held n

abbrev held : Lock
held = record { word = 1; interrupts = false }

-- The lock taken by the one who holds it.
lock_twice :
    (fuel : ℕ)
    → (spin_lock_intsafe fuel (record { word = 0; interrupts = false }) ≡ no_fuel)
      ⊎ ((spin_lock_intsafe fuel (record { word = 0; interrupts = false }) ≡ done held)
          × (spin_lock_intsafe fuel held ≡ no_fuel))
unfolding spin_lock_intsafe poll
lock_twice zero = inl refl
lock_twice (suc n) = inr (refl, rw (poll_held n) refl)

module _ (fuel null_str log_buf : ℕ) (status : ℕ → ℕ) where
  -- When the lock is free and `vsnprintf` returns, which it does not for a message that runs round the
  -- address space, with the message in memory, `klog` returns. It has sent the message up to its
  -- first NUL, at most 4095 bytes, in order, to the data port of COM1, and the lock is free, with
  -- interrupts disabled, also where they were enabled before. The buffer does not wrap round the
  -- address space, and the port gets ready again and again.
  pub klog-text :
      (fmt args : List ℕ) (s : Log) (m : Store) (n : ℕ)
      → IsResponsive fuel status
      → 0 < log_buf
      → log_buf + 4096 ≤ 2 ^ 64
      → s.lock.word ≡ 0
      → vsnprintf fuel null_str log_buf 4096 fmt args s.mem ≡ done (m, n)
      → (t : Log) × (total : ℕ) × (k : ℕ) × (klog fuel null_str log_buf status fmt args s ≡ done t)
        × (t.port.sent ≡ s.port.sent ++ text com1 k log_buf m)
        × (n ≡ u32 total)
        × (k ≤ min total 4095)
        × (m (log_buf + k) ≡ 0)
        × ((i : ℕ) → i < k → m (log_buf + i) ≢ 0)
        × (t.mem ≡ m)
        × (t.lock ≡ record { word = 0; interrupts = false })
  unfolding klog log_message serial_write_str
  klog-text fmt args s m n live pos fits free printed =
      let (r, below, ready) = live 0 in
      let (l, locked, unlocked) = lock_free fuel s.lock.interrupts (omega arith) in
      let taken : spin_lock_intsafe fuel s.lock ≡ done l =
        ap (λ w. spin_lock_intsafe fuel (record { word = w; interrupts = s.lock.interrupts })) free
        ∙ locked in
      let (total, _, cut, _, ends) =
        vsnprintf-Inside fuel null_str log_buf 4096 n fmt args s.mem m pos fits printed in
      let nul : m (log_buf + min total 4095) ≡ 0 = elim ends [
        | inl none ↦ ground arith
        | inr e ↦ e
      ] in
      let (k, short, end, before) = first_nul m (min total 4095) log_buf nul in
      let (p, sent, bytes) =
        write_rounds-text fuel status live 4096 k com1 log_buf m s.port (omega arith) before end in
      let some : (log_buf == 0) ≡ false = ground arith in
      (
        record { lock = spin_unlock l; mem = m; port = p },
        total,
        k,
        rw (taken, printed, some, sent) refl,
        bytes,
        cut,
        short,
        end,
        before,
        refl,
        unlocked,
      )

  -- With interrupts disabled and the lock free `__panic` is never done: `klog` waits for the lock
  -- that `__panic` itself has taken, whatever the message and the port.
  pub panic_log-no_fuel :
      (file line fn : ℕ) (fmt args : List ℕ) (mem : Store) (port : Port)
      → panic_log fuel null_str log_buf status file line fn fmt args
          (record { lock = record { word = 0; interrupts = false }; mem = mem; port = port })
        ≡ no_fuel
  unfolding panic_log klog
  panic_log-no_fuel file line fn fmt args mem port = elim (lock_twice fuel) [
    | inl spent ↦ rw spent refl
    | inr (first, second) ↦ rw (first, second) refl
  ]
