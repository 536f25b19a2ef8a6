-- ===== src/Tests.antt =====
-- Runs of the definitions on small inputs, and the theorems at concrete inputs.
mod Game
mod Keys
mod Pad
mod Irq
mod Text
mod Phone
mod Clocks
mod Pins
mod Ticks
mod Sd
mod Boot
mod Board
