-- ===== src/Tests/Transfers.antt =====
-- The I2C-EXT driver on version 4 and version 5 controllers.
use cisco_8000_kernel_module.Common.{take, ◌≡◌, refl, ◌≢◌, inr, true, [], ◌∷◌, arith}
use cisco_8000_kernel_module.Env.{ok, err}
use cisco_8000_kernel_module.I2cExt.Regs.{rdata_v5_base, Hw}
use cisco_8000_kernel_module.I2cExt.Access.{wait_done, try_cfg, retryable_cfg}
use cisco_8000_kernel_module.I2cExt.Xfer.{Copy, write_words}
use cisco_8000_kernel_module.I2cExt.CopyLaws.{words, sends, moved, write_words_lem}
use cisco_8000_kernel_module.I2cExt.WaitLaws.{wait_done-ne_out}
use cisco_8000_kernel_module.I2cExt.XferLaws.{Retried, retryable_cfg-Retried}
use cisco_8000_kernel_module.Tests.Machines.{steady, steady-Clock}

abbrev bus : Hw
bus = record {
  map = 0;
  ten_bit = true;
  bufsize = 512;
  rdata_ptr = rdata_v5_base;
  index = 0;
  timeout = 3;
  retries = 3;
}

abbrev six : Copy
six = record { len = 6; cfg_len = 6; index = 0; buf = 1 ∷ 2 ∷ 3 ∷ 4 ∷ 5 ∷ 6 ∷ [] }

write_words_example :
    write_words 6 bus six (steady 2) [] ≡ (ok (moved six), sends 0 0 (words (take 6 six.buf)) [])
write_words_example =
    write_words_lem 6 bus six (steady 2) []
      (record { within = omega arith; short = omega arith; aligned = inr refl }) (omega arith)
      (omega arith) (λ h map reg v. refl)

wait_done_example : (wait_done 63 bus 4 (steady 2) []).0 ≢ err 0
wait_done_example =
    wait_done-ne_out 63 bus 4 (steady 2) [] (steady-Clock 2)
      (record { reads = λ h map reg. cc; writes = λ h map reg v. cc }) (omega arith)

-- The access bit never clears, so every round fails.
retryable_cfg_example :
    Retried
      (try_cfg 63 bus 2 4 (steady 2))
      bus
      (steady 2)
      3
      []
      (retryable_cfg 63 bus 2 4 (steady 2) [])
retryable_cfg_example =
    retryable_cfg-Retried 63 bus 2 4 (steady 2) [] (steady-Clock 2)
      (record { reads = λ h map reg. cc; writes = λ h map reg v. cc }) (omega arith)
