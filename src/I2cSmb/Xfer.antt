-- ===== src/I2cSmb/Xfer.antt =====
-- `cisco_fpga_i2c_xfer` on one message, or on two as the adapter's quirks allow.
use cisco_8000_kernel_module.Common.{
  ltb, leb, ◌==◌, if◌then◌else◌, length, get_or, take, drop, ℕ, zero, suc, ◌+◌, ◌/◌, ◌%◌, ◌^◌,
  bit_and, bit_or, Bool, true, false, not, ◌&&◌, Option, none, some, List, [], ◌∷◌, ◌++◌,
}
use cisco_8000_kernel_module.Env.{
  M, pure, fail, lift, ◌>>=◌, ◌>>◌, attempt, regmap_read, regmap_write, wait, einval, ok, err,
}
use cisco_8000_kernel_module.Reg.{bit, shl32}
use cisco_8000_kernel_module.I2cExt.Regs.{i2c_m_rd, i2c_m_recv_len, i2c_smbus_block_max, Msg}
use cisco_8000_kernel_module.I2cSmb.Wait.{
  txbuf_reg, rxbuf_reg, csr_reg, istat_reg, ext0_reg, ext1_reg, dev_ctrl_reg, Smb, smb_wait_done,
}

-- I2C_FUNC_10BIT_ADDR, which the driver looks for in the message's flags.
abbrev pub func_10bit_addr : ℕ
func_10bit_addr = 2

abbrev pub has_flag : Msg → ℕ → Bool
has_flag m f = not (bit_and m.flags f == 0)

-- `_msglen`, a u16.
abbrev pub msglen : Msg → Option Msg → ℕ
msglen first none = first.len
msglen first (some m) =
    if has_flag m i2c_m_recv_len then (m.len + i2c_smbus_block_max) % 2 ^ 16 else m.len

-- `presz`, a u8, and `read`.
abbrev pub presz : Msg → Option Msg → ℕ
presz first none = 0
presz first (some m) = first.len % 2 ^ 8

abbrev pub reads_back : Msg → Option Msg → Bool
reads_back first none = has_flag first i2c_m_rd
reads_back first (some m) = true

abbrev pub is_long : Msg → Option Msg → Bool
is_long first second = leb i2c_smbus_block_max (msglen first second)

-- The tests before the first register access.
unfoldable pub accepts : Smb → Msg → Option Msg → Bool
accepts hw first second =
    not (not hw.ten_bit && has_flag first func_10bit_addr)
    && leb (msglen first second) 511
    && leb (presz first second) 31

-- BIT(31) | BIT(30) | BIT(29) | BIT(27).
abbrev pub status_bits : ℕ
status_bits = 0xe8000000

-- The loop that fills the transmit buffer, from byte `i` on.
unfoldable pub send_bytes : Smb → Bool → ℕ → List ℕ → M (Unit {0})
send_bytes hw ext i [] = pure tt
send_bytes hw ext i (b ∷ bs) = do
  if ext then regmap_write hw.map ext1_reg (shl32 i 16) else pure tt
  regmap_write hw.map txbuf_reg
      (let v = bit_or (bit 13) b in if ext then v else bit_or v (shl32 i 8))
  send_bytes hw ext (i + 1) bs

-- The loop that empties the receive buffer, `n` bytes from byte `i` on.
unfoldable pub receive_bytes : Smb → Bool → ℕ → ℕ → M (List ℕ)
receive_bytes hw ext zero i = pure []
receive_bytes hw ext (suc n) i = do
  if ext then regmap_write hw.map ext1_reg i else regmap_write hw.map rxbuf_reg (shl32 i 8)
  wait 100
  v ← regmap_read hw.map rxbuf_reg
  bs ← receive_bytes hw ext n (i + 1)
  pure (bit_and v 0xff ∷ bs)

-- The command word over the value `v` of the control register.
unfoldable pub command : Msg → Option Msg → ℕ → ℕ
command first second v =
    let v1 = bit_and v status_bits in
    let v2 = bit_or v1 (if is_long first second then 0 else msglen first second % 2 ^ 8) in
    let v3 = bit_or v2 (shl32 (bit_and first.addr 0x7f) 5) in
    let v4 = bit_or v3 (if reads_back first second then bit 12 else 0) in
    let v5 = bit_or v4 (bit 13) in
    let v6 =
      bit_or v5 (if not (presz first second == 0) && reads_back first second then bit 16 else 0) in
    bit_or v6 (shl32 (presz first second) 20)

-- From the clearing of the interrupts to the command.
unfoldable pub start : Smb → Msg → Option Msg → M (Unit {0})
start hw first second = do
  regmap_write hw.map istat_reg status_bits
  regmap_write hw.map ext0_reg
      (if is_long first second then bit_or (bit 31) (msglen first second) else 0)
  if has_flag first i2c_m_rd
      then pure tt
      else send_bytes hw (is_long first second) 0 (take first.len first.buf)
  if ltb 4 hw.ver
      then regmap_write hw.map dev_ctrl_reg
          (if hw.ten_bit then bit_and (first.addr / 2 ^ 7) 7 else hw.index)
      else pure tt
  v ← regmap_read hw.map csr_reg
  regmap_write hw.map csr_reg (command first second v)

-- A buffer over whose first bytes the received ones are written.
abbrev pub fill : List ℕ → List ℕ → List ℕ
fill bytes buf = bytes ++ drop (length bytes) buf

-- `I2C_M_RECV_LEN`: the first byte received is added to the length if the sum fits.
abbrev pub received_len : Msg → ℕ → List ℕ → ℕ
received_len m len buf =
    if has_flag m i2c_m_recv_len && leb (m.len + get_or buf 0 0) len
    then (m.len + get_or buf 0 0) % 2 ^ 16
    else m.len

-- The return value and the messages after a transfer.
pub record Transferred : Type 0 where
  pub num : ℕ
  pub first : Msg
  pub second : Option Msg

abbrev pub transferred : Msg → Option Msg → List ℕ → Transferred
transferred first none bytes = record {
  num = 1;
  first = record first { buf = fill bytes first.buf };
  second = none;
}
transferred first (some m) bytes =
    let buf = fill bytes m.buf in
    record {
      num = 2;
      first = first;
      second = some (record m { len = received_len m (msglen first (some m)) buf; buf = buf });
    }

-- `usecs_to_jiffies` is the kernel's.
module _ (usecs_to_jiffies : ℕ → ℕ) where
  -- From the wait on: a failure of the wait is returned once the EXT registers have been disabled.
  unfoldable pub complete : ℕ → Smb → Msg → Option Msg → M Transferred
  complete fuel hw first second = do
    r ← attempt (smb_wait_done usecs_to_jiffies fuel hw)
    bytes ← elim r [
      | ok _ ↦
          if reads_back first second
          then receive_bytes hw (is_long first second) (msglen first second) 0
          else pure []
      | err _ ↦ pure []
    ]
    if is_long first second then regmap_write hw.map ext0_reg 0 else pure tt
    lift r
    pure (transferred first second bytes)

  unfoldable pub smb_xfer : ℕ → Smb → Msg → Option Msg → M Transferred
  smb_xfer fuel hw first second = elim (accepts hw first second) [
    | false ↦ fail einval
    | true ↦ start hw first second >> complete fuel hw first second
  ]
