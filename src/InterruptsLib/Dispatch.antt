-- ===== src/InterruptsLib/Dispatch.antt =====
-- An interrupt on its way through HtcLeoPkg/Drivers/InterruptDxe/InterruptDxe.c and
-- HtcLeoPkg/Library/InterruptsLib/Interrupts.c to the handler registered with the library.
use lgoptimus_l3pkg.Common.{
  ℕ, ◌<◌, ◌≡◌, refl, ◌∙◌, inl, inr, true, none, some, List, [], ◌∷◌, ◌++◌, arith, ◌==◌,
  if◌then◌else◌, Bool-cases, length, get_or,
}
use lgoptimus_l3pkg.Interrupt.{nr_irqs, vic_irq_vec_rd, Vic, Irqs, irq_interrupt_handler}
use lgoptimus_l3pkg.Interrupt.Table.{register-dispatch, acknowledged, released}
use lgoptimus_l3pkg.InterruptsLib.{
  vic_irq_vec_pend_rd, Entry, Lib, get_interrupt_handler_entry, register_int_handler,
  interrupts_lib_irq_handler,
}

-- A vector without an entry finds the entry that is appended for it.
get_interrupt_handler_entry-append :
    (vector : ℕ) (es : List Entry) (e : Entry)
    → get_interrupt_handler_entry vector es ≡ none
    → e.vector ≡ vector
    → get_interrupt_handler_entry vector (es ++ (e ∷ [])) ≡ some e
unfolding get_interrupt_handler_entry
get_interrupt_handler_entry-append vector [] e h same = ground arith
get_interrupt_handler_entry-append vector (x ∷ xs) e h same =
    elim (Bool-cases (x.vector == vector)) [
      | inl t ↦ ground arith
      | inr f ↦
          let rest : get_interrupt_handler_entry vector xs ≡ none = ground arith in
          rw f (get_interrupt_handler_entry-append vector xs e rest same)
    ]

module _ {V : Type 0} (vic : Vic V) (self : ℕ) (call other : ℕ → ℕ → Irqs V → Irqs V) where
  -- The handlers of the driver's table: the library's, which calls the handlers of `entries`, and
  -- others.
  abbrev pub handle : List Entry → ℕ → ℕ → Irqs V → Irqs V
  handle entries h vector s =
      if h == self then interrupts_lib_irq_handler vic call entries s else other h vector s

  -- A handler that is registered for a vector without an entry and a free source is called with its
  -- argument when the controller gives this vector twice, first to the driver and then to the
  -- library; both acknowledge the source before the call and release it after.
  pub register_int_handler-dispatch :
      (s : Lib V) (vector handler arg : ℕ)
      → length s.irqs.handlers ≡ nr_irqs
      → vector < nr_irqs
      → get_or s.irqs.handlers vector none ≡ none
      → get_interrupt_handler_entry vector s.entries ≡ none
      → let s' = register_int_handler vic self vector handler arg s in
        vic.read s'.irqs.hw vic_irq_vec_rd ≡ vector
        → vic.read (acknowledged vic vector s'.irqs).hw vic_irq_vec_pend_rd ≡ vector
        → irq_interrupt_handler vic (handle s'.entries) s'.irqs
          ≡ released vic (
              released vic
                (call handler arg (acknowledged vic vector (acknowledged vic vector s'.irqs))))
  unfolding register_int_handler interrupts_lib_irq_handler
  register_int_handler-dispatch s vector handler arg len low free fresh first second =
      let e : Entry = record { vector = vector; handler = handler; arg = arg } in
      let mine : self == self ≡ true = ground arith in
      (register-dispatch vic (handle (s.entries ++ (e ∷ []))) s.irqs vector self len low free
        first).1
      ∙ rw (mine, second, get_interrupt_handler_entry-append vector s.entries e fresh refl) refl
