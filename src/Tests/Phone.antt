-- ===== src/Tests/Phone.antt =====
-- Commands to a modem, at concrete inputs.
use lgoptimus_l3pkg.Common.{
  ℕ, zero, suc, ◌+◌, ◌≡◌, refl, ap, none, some, arith, ◌==◌, if◌then◌else◌,
}
use lgoptimus_l3pkg.Pcom.{app_command, pcom_cmd_idle, Modem, value_or_0, msm_proc_comm, send}
use lgoptimus_l3pkg.Pcom.Call.{Answer, delays, IsServer, reply, msm_proc_comm_lem}
use lgoptimus_l3pkg.Pcom.{pcom_cmd_fail, pcom_clkctl_rpc_enabled}
use lgoptimus_l3pkg.Pcom.Clients.{pcom_is_sdcard_clk_enabled}
use lgoptimus_l3pkg.Pcom.Clients.Sdcard.{pcom_is_sdcard_clk_enabled_lem}
use lgoptimus_l3pkg.Common.Io.{Io}
use lgoptimus_l3pkg.Reset.{warm, lib_reset_system}
use lgoptimus_l3pkg.Reset.Restart.{IsReset, lib_reset_system_lem}

-- The shared words, with a modem that answers at once: it adds one to the first word.
pub record Words : Type 0 where
  pub command : ℕ
  pub status : ℕ
  pub data1 : ℕ
  pub data2 : ℕ

abbrev pub read_word : Words → ℕ → ℕ
read_word w addr =
    if addr == 0x00
    then w.command
    else if addr == 0x04
    then w.status
    else if addr == 0x08
    then w.data1
    else if addr == 0x0C
    then w.data2
    else 1

abbrev pub write_word : Words → ℕ → ℕ → Words
write_word w addr x =
    if addr == 0x00
    then record w { command = x }
    else if addr == 0x04
    then record w { status = x }
    else if addr == 0x08
    then record w { data1 = x }
    else if addr == 0x0C
    then record w { data2 = x }
    else w

abbrev pub adder : Modem Words
adder = record {
  readl = read_word;
  writel = write_word;
  notify = λ w. record w { command = 1; status = 3; data1 = w.data1 + 1 };
  delay = λ w. w;
}

abbrev pub add_one : ℕ → ℕ → ℕ → Answer
add_one cmd a b = record { status = 3; word1 = a + 1; word2 = b }

still : (m : ℕ) (w : Words) → delays adder m w ≡ w
still zero w = refl
still (suc m) w = still m w

pub adder-IsServer : IsServer adder 1 add_one
adder-IsServer = record {
  gets_ready = λ v. (0, omega arith, refl);
  gets_done = λ v cmd data1 data2 r. (0, omega arith, refl);
  answers = λ v cmd data1 data2 m r d. (
    ap (λ w. w.status) (still m (send adder cmd data1 data2 v)),
    ap (λ w. w.data1) (still m (send adder cmd data1 data2 v)),
    ap (λ w. w.data2) (still m (send adder cmd data1 data2 v)),
  );
}

abbrev pub no_words : Words
no_words = record { command = 0; status = 0; data1 = 0; data2 = 0 }

msm_proc_comm_lem_example :
    (w : Words) × (msm_proc_comm adder 4 27 (some 5) none no_words
      ≡ some (
          reply adder
            (add_one 27 (value_or_0 (some 5)) (value_or_0 none))
            (some 5)
            none
            (write_word w app_command pcom_cmd_idle)))
msm_proc_comm_lem_example =
    msm_proc_comm_lem adder 1 4 add_one adder-IsServer (omega arith) 27 (some 5) none no_words

pcom_is_sdcard_clk_enabled_lem_example :
    (w : Words) × (pcom_is_sdcard_clk_enabled adder 4 2 no_words
      ≡ some (
        if (add_one pcom_clkctl_rpc_enabled 21 0).status == pcom_cmd_fail then 0xffffffff else 0,
        w,
      ))
pcom_is_sdcard_clk_enabled_lem_example =
    pcom_is_sdcard_clk_enabled_lem adder 1 4 add_one adder-IsServer (omega arith) 2 21 no_words refl

-- The same words as device registers; other addresses keep nothing.
abbrev registers : Io Words
registers = record {
  readl = λ addr v. (read_word v addr, v);
  writel = λ x addr v. (tt, write_word v addr x);
}

lib_reset_system_lem_example :
    IsReset adder registers 4 warm no_words (lib_reset_system adder registers 4 warm no_words)
lib_reset_system_lem_example =
    lib_reset_system_lem adder registers 4 1 add_one adder-IsServer (omega arith) warm no_words
