-- ===== src/Serial/Memory.antt =====
-- HtcLeoPkg/Library/InMemorySerialPortLib/InMemorySerialPortLib.c: a log that wraps around in the
-- region of PcdPstoreSize bytes at PcdPstoreAddress. Memory is a byte for each offset from there.
pub mod Ring
use lgoptimus_l3pkg.Common.{ℕ, suc, List, [], ◌∷◌, leb, ◌==◌, if◌then◌else◌}

pub record Log : Type 0 where
  pub offset : ℕ
  pub base : ℕ → ℕ

abbrev pub pstore_size : ℕ
pstore_size = 0x200000

module _ (size : ℕ) where
  unfoldable pub mem_putchar : ℕ → Log → Log
  mem_putchar c s = record {
    offset = if leb size (suc s.offset) then 0 else suc s.offset;
    base = λ n. if n == s.offset then c else s.base n;
  }

  -- SerialPortWrite, which returns NumberOfBytes.
  unfoldable pub serial_port_write : List ℕ → Log → Log
  serial_port_write [] s = s
  serial_port_write (c ∷ cs) s = serial_port_write cs (mem_putchar c s)
