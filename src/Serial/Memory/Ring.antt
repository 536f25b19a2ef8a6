-- ===== src/Serial/Memory/Ring.antt =====
-- What the log of InMemorySerialPortLib.c holds after a write.
use lgoptimus_l3pkg.Common.{
  ℕ, zero, suc, ◌+◌, ◌-◌, ◌≤◌, ◌<◌, ◌≡◌, ◌≢◌, refl, ap, ◌∙◌, List, [], ◌∷◌, ◌++◌, arith, ltb,
  if◌then◌else◌, length, get_or,
}
use lgoptimus_l3pkg.Serial.Memory.{Log, mem_putchar, serial_port_write}

-- The place `j` bytes after the place `o`.
abbrev pub place : ℕ → ℕ → ℕ → ℕ
place size o j = if ltb (o + j) size then o + j else o + j - size

module _ (size : ℕ) where
  mem_putchar_lem :
      (c : ℕ) (s : Log)
      → s.offset < size
      → let s' = mem_putchar size c s in
        (s'.offset ≡ place size s.offset 1)
        × (s'.offset < size)
        × (s'.base s.offset ≡ c)
        × ((n : ℕ) → n ≢ s.offset → s'.base n ≡ s.base n)
  unfolding mem_putchar
  mem_putchar_lem c s h = (ground arith, ground arith, ground arith, λ n a. ground arith)

  -- Bytes are written at the places that follow the offset, and nowhere else.
  pub write-elsewhere :
      (cs : List ℕ) (s : Log) (n : ℕ)
      → s.offset < size
      → ((j : ℕ) → j < length cs → place size s.offset j ≢ n)
      → length cs ≤ size
      → (serial_port_write size cs s).base n ≡ s.base n
  unfolding serial_port_write
  write-elsewhere [] s n h apart few = refl
  write-elsewhere (c ∷ cs) s n h apart few =
      let (at, low, new, old) = mem_putchar_lem c s h in
      write-elsewhere cs (mem_putchar size c s) n low
        (λ j hj e. apart (suc j) (omega arith) (ground (arith, at, e))) (omega arith)
      ∙ old n (λ e. apart 0 (omega arith) (ground (arith, e)))

  pub write-length :
      (cs : List ℕ) (s : Log) → s.offset < size → (serial_port_write size cs s).offset < size
  unfolding serial_port_write
  write-length [] s h = h
  write-length (c ∷ cs) s h = write-length cs (mem_putchar size c s) (mem_putchar_lem c s h).1

  written :
      (cs : List ℕ) (s : Log) (j : ℕ)
      → s.offset < size
      → length cs ≤ size
      → j < length cs
      → (serial_port_write size cs s).base (place size s.offset j) ≡ get_or cs j 0
  unfolding serial_port_write
  written [] s j h few hj = absurd (omega arith)
  written (c ∷ cs) s zero h few hj =
      let (at, low, new, old) = mem_putchar_lem c s h in
      let s' = mem_putchar size c s in
      let here : place size s.offset 0 ≡ s.offset = ground arith in
      ap (λ n. (serial_port_write size cs s').base n) here
      ∙ write-elsewhere cs s' s.offset low (λ j hc e. ground (arith, at, e)) (omega arith)
      ∙ new
  written (c ∷ cs) s (suc j) h few hj =
      let (at, low, new, old) = mem_putchar_lem c s h in
      let s' = mem_putchar size c s in
      let next : place size s.offset (suc j) ≡ place size s'.offset j = ground (arith, at) in
      ap (λ n. (serial_port_write size cs s').base n) next
      ∙ written cs s' j low (omega arith) (omega arith)

  write-append :
      (xs ys : List ℕ) (s : Log)
      → serial_port_write size (xs ++ ys) s
        ≡ serial_port_write size ys (serial_port_write size xs s)
  unfolding serial_port_write
  write-append [] ys s = refl
  write-append (x ∷ xs) ys s = write-append xs ys (mem_putchar size x s)

  -- However much is written, the last bytes, as many as the region holds, can be read back, from
  -- the offset that the bytes before them have left.
  pub log_holds_last :
      (xs ys : List ℕ) (s : Log) (j : ℕ)
      → s.offset < size
      → length ys ≤ size
      → j < length ys
      → let before = serial_port_write size xs s in
        (serial_port_write size (xs ++ ys) s).base (place size before.offset j) ≡ get_or ys j 0
  log_holds_last xs ys s j h few hj =
      ap (λ l. l.base (place size (serial_port_write size xs s).offset j)) (write-append xs ys s)
      ∙ written ys (serial_port_write size xs s) j (write-length xs s h) few hj

  -- A write changes no byte beyond the region, and leaves the offset in it.
  pub write_in_region :
      (cs : List ℕ) (s : Log)
      → s.offset < size
      → let s' = serial_port_write size cs s in
        (s'.offset < size) × ((n : ℕ) → size ≤ n → s'.base n ≡ s.base n)
  unfolding serial_port_write
  write_in_region [] s h = (h, λ n hn. refl)
  write_in_region (c ∷ cs) s h =
      let (at, low, new, old) = mem_putchar_lem c s h in
      let (low', kept) = write_in_region cs (mem_putchar size c s) low in
      (low', λ n hn. kept n hn ∙ old n (λ e. absurd (omega (arith, e, h, hn))))
