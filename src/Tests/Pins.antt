-- ===== src/Tests/Pins.antt =====
-- Pins and their interrupts, at concrete inputs.
use lgoptimus_l3pkg.Common.{
  ℕ, ◌≡◌, ◌≢◌, refl, false, not, ◌||◌, some, [], ◌∷◌, arith, ◌==◌, if◌then◌else◌,
}
use lgoptimus_l3pkg.Common.Io.{Io}
use lgoptimus_l3pkg.Interrupt.{Irqs, irq_interrupt_handler}
use lgoptimus_l3pkg.Interrupt.Table.{acknowledged, released}
use lgoptimus_l3pkg.InterruptsLib.{get_interrupt_handler_entry, Lib, register_int_handler}
use lgoptimus_l3pkg.InterruptsLib.Dispatch.{handle, register_int_handler-dispatch}
use lgoptimus_l3pkg.Gpio.Table.{config_gpio_table, Sent, config_gpio_table_lem}
use lgoptimus_l3pkg.Tests.Phone.{Words, adder, add_one, adder-IsServer, no_words}
use lgoptimus_l3pkg.Gpio.{gpio_set, gpio_to_irq}
use lgoptimus_l3pkg.Gpio.Pin.{OutputLaws, IsAt, output, driven, gpio_set_lem}
use lgoptimus_l3pkg.Gpio.Irq.{msm_gpio_init}
use lgoptimus_l3pkg.Gpio.Irq.Setup.{msm_gpio_init_lem}
use lgoptimus_l3pkg.Tests.Irq.{Bits, bits, bits-laws, empty_table, get_or-none}

line_of_28 : gpio_to_irq 5 ≡ some 22
unfolding gpio_to_irq
line_of_28 = refl

-- Registers that are memory.
abbrev memory : Io (ℕ → ℕ)
memory = record {
  readl = λ addr v. (v addr, v);
  writel = λ x addr v. (tt, λ a. if a == addr then x else v a);
}

memory-laws : OutputLaws memory (λ v addr. v addr)
memory-laws = record {
  read_value = λ v addr o. refl;
  read_keeps = λ v addr other. refl;
  write_value = λ v x addr o. ground arith;
  write_other = λ v x addr other ne. ground arith;
}

abbrev peek : (ℕ → ℕ) → ℕ → ℕ
peek v addr = v addr

abbrev blank : ℕ → ℕ
blank a = 0

gpio_set_lem_example :
    let v = blank in
    let v' = (gpio_set memory 27 1 v).1 in
    (i : ℕ) × (k : ℕ) × IsAt 27 i k
    × (output memory peek memory-laws v' i k ≡ (if not (1 == 0) then 1 else 0))
    × (driven memory peek memory-laws v' i k ≡ 1)
    × ((m j l : ℕ)
        → IsAt m j l
        → m ≢ 27
        → (output memory peek memory-laws v' j l ≡ output memory peek memory-laws v j l)
          × (driven memory peek memory-laws v' j l ≡ driven memory peek memory-laws v j l))
gpio_set_lem_example = gpio_set_lem memory peek memory-laws 27 1 blank (omega arith)

abbrev no_pins : Io Bits
no_pins = record { readl = λ addr v. (0, v); writel = λ x addr v. (tt, v) }

abbrev empty_lib : Lib Bits
empty_lib = record { entries = []; irqs = empty_table }

msm_gpio_init_lem_example :
    (msm_gpio_init no_pins bits 1 2 empty_lib).irqs.hw 41 ≡ (41 == 41) || ((41 == 42) || false)
msm_gpio_init_lem_example =
    msm_gpio_init_lem no_pins bits (λ v n. v n) bits-laws (λ v x addr n. refl) 1 2 41 empty_lib refl
      (get_or-none 332 73) (get_or-none 332 74)

abbrev ignore : ℕ → ℕ → Irqs Bits → Irqs Bits
ignore h a s = s

-- The controller of the tests gives the vector 5.
register_int_handler-dispatch_example :
    let s = register_int_handler bits 1 5 2 3 empty_lib in
    irq_interrupt_handler bits (handle bits 1 ignore ignore s.entries) s.irqs
    ≡ released bits (released bits (ignore 2 3 (acknowledged bits 5 (acknowledged bits 5 s.irqs))))
unfolding get_interrupt_handler_entry
register_int_handler-dispatch_example =
    register_int_handler-dispatch bits 1 ignore ignore empty_lib 5 2 3 refl (omega arith)
      (get_or-none 332 5) refl refl refl

config_gpio_table_lem_example :
    (v' : Words) × (config_gpio_table adder 4 (0x1E1 ∷ 0x201 ∷ []) no_words ≡ some v')
    × Sent adder 4 (0x1E1 ∷ 0x201 ∷ []) no_words v'
config_gpio_table_lem_example =
    config_gpio_table_lem adder 4 1 add_one adder-IsServer (omega arith) (0x1E1 ∷ 0x201 ∷ [])
      no_words
