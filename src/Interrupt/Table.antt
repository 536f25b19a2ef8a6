-- ===== src/Interrupt/Table.antt =====
-- RegisterInterruptSource against a registry of handlers, and the dispatch of an interrupt
-- (HtcLeoPkg/Drivers/InterruptDxe/InterruptDxe.c).
use lgoptimus_l3pkg.Common.{
  ℕ, ◌<◌, ◌≡◌, ◌≢◌, refl, ap₂, ◌∙◌, inl, inr, false, Option, none, some, List, [], ◌∷◌, arith, ltb,
  ◌==◌, if◌then◌else◌, Bool-cases, length, get_or, set, length-set, get_or-set_self, get_or-set_ne,
  All,
}
use lgoptimus_l3pkg.Interrupt.{
  Status, success, unsupported, invalid_parameter, already_started, nr_irqs, vic_int_clear0,
  vic_int_clear1, vic_irq_vec_rd, vic_irq_vec_wr, irq_bit, by_source, Vic, Irqs,
  register_interrupt_source, irq_interrupt_handler, enable_interrupt_source,
}

-- What a registry promises: a handler for each source, registered and removed in turns.
abbrev pub Registry : Type 0
Registry = ℕ → Option ℕ

abbrev pub assign : Registry → ℕ → Option ℕ → Registry
assign r source handler n = if n == source then handler else r n

abbrev pub request : Option ℕ → Option ℕ → Status
request none none = invalid_parameter
request none (some h) = success
request (some old) none = success
request (some old) (some h) = already_started

abbrev pub grant : Status → Registry → ℕ → Option ℕ → Registry
grant success r source handler = assign r source handler
grant unsupported r source handler = r
grant invalid_parameter r source handler = r
grant already_started r source handler = r

abbrev pub registry_step : Registry → ℕ → Option ℕ → Status × Registry
registry_step r source handler =
    if ltb nr_irqs source
    then (unsupported, r)
    else let status = request (r source) handler in (status, grant status r source handler)

abbrev pub Request : Type 0
Request = ℕ × Option ℕ

abbrev pub registry_run : Registry → List Request → List Status × Registry
registry_run r [] = ([], r)
registry_run r (q ∷ qs) =
    let first = registry_step r q.0 q.1 in
    let rest = registry_run first.1 qs in (first.0 ∷ rest.0, rest.1)

-- No request is for the one number that the guard `Source > NR_IRQS` lets through wrongly.
abbrev pub InTable : Request → Type 0
InTable q = q.0 ≢ nr_irqs

module _ {V : Type 0} (vic : Vic V) where
  -- The table has NR_IRQS entries, which are those of the registry.
  abbrev pub Implements : Irqs V → Registry → Type 0
  Implements s r =
      (length s.handlers ≡ nr_irqs) × ((n : ℕ) → n < nr_irqs → get_or s.handlers n none ≡ r n)

  unfoldable pub register_all : Irqs V → List Request → List Status × Irqs V
  register_all s [] = ([], s)
  register_all s (q ∷ qs) =
      let first = register_interrupt_source vic q.0 q.1 s in
      let rest = register_all first.1 qs in (first.0 ∷ rest.0, rest.1)

  abbrev pub put : Irqs V → ℕ → Option ℕ → Irqs V
  put s source handler = record {
    handlers = set s.handlers source handler;
    hw = (enable_interrupt_source vic source s.hw).1;
  }

  put-Implements :
      (s : Irqs V) (r : Registry) (source : ℕ) (handler : Option ℕ)
      → source < nr_irqs
      → Implements s r
      → Implements (put s source handler) (assign r source handler)
  put-Implements s r source handler h i = (
    length-set s.handlers source handler ∙ i.0,
    λ n hn. elim (Bool-cases (n == source)) [
      | inl e ↦
          let same : n ≡ source = ground arith in
          rw (e, same) (get_or-set_self s.handlers source handler none (omega (arith, i.0)))
      | inr e ↦ rw e (get_or-set_ne s.handlers source n handler none (ground arith) ∙ i.1 n hn)
    ],
  )

  abbrev pub finish : Status → Irqs V → ℕ → Option ℕ → Irqs V
  finish success s source handler = put s source handler
  finish unsupported s source handler = s
  finish invalid_parameter s source handler = s
  finish already_started s source handler = s

  inside : (source : ℕ) → source < nr_irqs → ltb nr_irqs source ≡ false
  inside source h = ground arith

  pub register_by :
      (s : Irqs V) (source : ℕ) (old handler : Option ℕ)
      → source < nr_irqs
      → get_or s.handlers source none ≡ old
      → register_interrupt_source vic source handler s
        ≡ (request old handler, finish (request old handler) s source handler)
  unfolding register_interrupt_source enable_interrupt_source
  register_by s source none none h e = rw (e, inside source h) refl
  register_by s source none (some x) h e = rw (e, inside source h) refl
  register_by s source (some o) none h e = rw (e, inside source h) refl
  register_by s source (some o) (some x) h e = rw (e, inside source h) refl

  finish-Implements :
      (s : Irqs V) (r : Registry) (source : ℕ) (handler : Option ℕ) (status : Status)
      → source < nr_irqs
      → Implements s r
      → Implements (finish status s source handler) (grant status r source handler)
  finish-Implements s r source handler success h i = put-Implements s r source handler h i
  finish-Implements s r source handler unsupported h i = i
  finish-Implements s r source handler invalid_parameter h i = i
  finish-Implements s r source handler already_started h i = i

  too_high :
      (s : Irqs V) (source : ℕ) (handler : Option ℕ)
      → nr_irqs < source
      → register_interrupt_source vic source handler s ≡ (unsupported, s)
  unfolding register_interrupt_source
  too_high s source handler h = ground arith

  step_refines :
      (s : Irqs V) (r : Registry) (q : Request)
      → InTable q
      → Implements s r
      → let (status, s') = register_interrupt_source vic q.0 q.1 s in
        let (status', r') = registry_step r q.0 q.1 in (status ≡ status') × Implements s' r'
  step_refines s r (source, handler) apart i = elim (Bool-cases (ltb nr_irqs source)) [
    | inl e ↦
        let high : nr_irqs < source = ground arith in
        rw (too_high s source handler high, e) (refl, i)
    | inr e ↦
        let low : source < nr_irqs = ground arith in
        rw (register_by s source (r source) handler low (i.1 source low), e)
          (refl, finish-Implements s r source handler (request (r source) handler) low i)
  ]

  -- RegisterInterruptSource, called any number of times with any sources but NR_IRQS, returns what
  -- a registry would return, and leaves the table as the registry.
  pub registry_refines :
      (s : Irqs V) (r : Registry) (qs : List Request)
      → All InTable qs
      → Implements s r
      → let (statuses, s') = register_all s qs in
        let (statuses', r') = registry_run r qs in (statuses ≡ statuses') × Implements s' r'
  unfolding register_all
  registry_refines s r [] h i = (refl, i)
  registry_refines s r (q ∷ qs) h i =
      let (same, i') = step_refines s r q h.0 i in
      let (rest, i'') =
        registry_refines (register_interrupt_source vic q.0 q.1 s).1 (registry_step r q.0 q.1).1 qs
          h.1 i' in
      (ap₂ (λ a b. a ∷ b) same rest, i'')

  -- The controller's registers around the call of a handler: acknowledged before, released after.
  abbrev pub acknowledged : ℕ → Irqs V → Irqs V
  acknowledged vector s = record s {
    hw = vic.write s.hw (by_source vector vic_int_clear0 vic_int_clear1) (irq_bit vector);
  }

  abbrev pub released : Irqs V → Irqs V
  released s = record s { hw = vic.write s.hw vic_irq_vec_wr 0 }

  -- After a handler is registered for a free source, an interrupt with that vector is acknowledged,
  -- handled by that handler and released.
  pub register-dispatch :
      (handle : ℕ → ℕ → Irqs V → Irqs V) (s : Irqs V) (source h : ℕ)
      → length s.handlers ≡ nr_irqs
      → source < nr_irqs
      → get_or s.handlers source none ≡ none
      → let (status, s') = register_interrupt_source vic source (some h) s in
        vic.read s'.hw vic_irq_vec_rd ≡ source
        → (status ≡ success)
          × (irq_interrupt_handler vic handle s'
              ≡ released (handle h source (acknowledged source s')))
  unfolding irq_interrupt_handler
  register-dispatch handle s source h len low free =
      rw (register_by s source none (some h) low free) (λ vector. (
        refl,
        rw (vector, get_or-set_self s.handlers source (some h) none (omega (arith, len))) refl,
      ))
