-- ===== src/I2cExt/Xfer.antt =====
-- `_i2c_xfer` and `cisco_fpga_i2c_xfer` of drivers/cisco/cisco-fpga-i2c-ext.c.
use cisco_8000_kernel_module.Common.{
  ltb, leb, ◌==◌, if◌then◌else◌, length, get_or, take, drop, ℕ, zero, suc, ◌+◌, ◌-◌, ◌*◌, ◌/◌, ◌%◌,
  ◌^◌, bit_and, bit_or, Bool, true, false, not, ◌&&◌, ◌||◌, List, [], ◌∷◌, ◌++◌,
}
use cisco_8000_kernel_module.Env.{
  M, pure, fail, lift, ◌>>=◌, ◌>>◌, attempt, regmap_read, regmap_write, out_of_fuel, ok, err,
}
use cisco_8000_kernel_module.Reg.{put}
use cisco_8000_kernel_module.I2cExt.Regs.{
  wdata_reg, cfg_test, cfg_dev_addr, cfg_reg_addr, cfg_spd_cnt, cfg_dev_sel, cfg_mode,
  cfg_access_type, cfg_start_access, cfg_rst, cfg2_rdata_size, cfg2_wdata_size, default_speed,
  mode_i2c, access_cur_write, access_cur_read, hw_buf_size, i2c_m_rd, i2c_m_recv_len,
  i2c_smbus_block_max, Hw, Msg,
}
use cisco_8000_kernel_module.I2cExt.Access.{
  clear_intr_status, i2c_reset, wait_done, write_cfg2_retryable_cfg,
}

-- `len -= cp_len` on a `u16`.
abbrev pub sub16 : ℕ → ℕ → ℕ
sub16 a b = (a + 2 ^ 16 - b % 2 ^ 16) % 2 ^ 16

-- A word of four bytes, the first the lowest, as `datac` fills and empties `data`.
abbrev pub word_of : List ℕ → ℕ
word_of (b0 ∷ b1 ∷ b2 ∷ b3 ∷ bs) = b0 + 2 ^ 8 * b1 + 2 ^ 16 * b2 + 2 ^ 24 * b3
word_of (b0 ∷ b1 ∷ b2 ∷ []) = b0 + 2 ^ 8 * b1 + 2 ^ 16 * b2
word_of (b0 ∷ b1 ∷ []) = b0 + 2 ^ 8 * b1
word_of (b0 ∷ []) = b0
word_of [] = 0

abbrev pub bytes_of : ℕ → List ℕ
bytes_of v = v % 2 ^ 8 ∷ v / 2 ^ 8 % 2 ^ 8 ∷ v / 2 ^ 16 % 2 ^ 8 ∷ v / 2 ^ 24 % 2 ^ 8 ∷ []

-- The bytes that one word carries.
abbrev pub cp_len : ℕ → ℕ → ℕ
cp_len len cfg_len = if ltb 3 cfg_len then 4 else len

-- The variables of the copy loops: what is left of the message and of the chunk, the word's index,
-- and the bytes still to send (or those received).
pub record Copy : Type 0 where
  pub len : ℕ
  pub cfg_len : ℕ
  pub index : ℕ
  pub buf : List ℕ

-- `while (len && cfg_len && !e)` of a write. The status is kept in `e`, which the caller
-- overwrites, so the loop returns the variables only; it runs on at most `len` rounds.
unfoldable pub write_words : ℕ → Hw → Copy → M Copy
write_words zero hw s = pure s
write_words (suc fuel) hw s = elim (s.len == 0 || s.cfg_len == 0) [
  | true ↦ pure s
  | false ↦ do
    let cp = cp_len s.len s.cfg_len
    e ← attempt (regmap_write hw.map (wdata_reg s.index) (word_of (take cp s.buf)))
    let s' : Copy = record {
      len = sub16 s.len cp;
      cfg_len = sub16 s.cfg_len cp;
      index = s.index + 1;
      buf = drop cp s.buf;
    }
    elim e [ ok _ ↦ write_words fuel hw s' | err _ ↦ pure s' ]
]

-- `while (read && len && cfg_len && !e)`: here the status ends the transfer.
unfoldable pub read_words : ℕ → Hw → Copy → M Copy
read_words zero hw s = pure s
read_words (suc fuel) hw s = elim (s.len == 0 || s.cfg_len == 0) [
  | true ↦ pure s
  | false ↦ do
    v ← regmap_read hw.map (hw.rdata_ptr + 4 * s.index)
    let cp = cp_len s.len s.cfg_len
    let s' : Copy = record {
      len = sub16 s.len cp;
      cfg_len = sub16 s.cfg_len cp;
      index = s.index + 1;
      buf = s.buf ++ take cp (bytes_of v);
    }
    read_words fuel hw s'
]

-- The word for the configuration register; `offset` is 0 throughout.
unfoldable pub cfg_word : ℕ → ℕ → ℕ → ℕ
cfg_word dev_addr dev_sel access =
    bit_or
      (bit_or
        (bit_or
          (bit_or
            (bit_or
              (bit_or
                (bit_or (bit_or (put cfg_test 0) (put cfg_dev_addr dev_addr)) (put cfg_reg_addr 0))
                (put cfg_spd_cnt default_speed))
              (put cfg_dev_sel dev_sel))
            (put cfg_mode mode_i2c))
          (put cfg_access_type access))
        (put cfg_start_access 1))
      (put cfg_rst 0)

-- The chunk that one pass moves, and the size that a read programs: the latter is bounded by
-- DRIVER_I2C_HW_BUF_SIZE, the former by `bufsize`.
abbrev pub chunk_len : Hw → ℕ → ℕ
chunk_len hw len = if ltb hw.bufsize len then hw.bufsize else len

abbrev pub read_size : ℕ → ℕ
read_size len = if ltb hw_buf_size len then hw_buf_size else len

-- One pass of `while (len && !e)` for a write, and for a read.
unfoldable pub write_chunk : ℕ → Hw → ℕ → Copy → M Copy
write_chunk fuel hw cfg s = do
  let n = chunk_len hw s.len
  s' ← write_words s.len hw (record s { cfg_len = n; index = 0 })
  write_cfg2_retryable_cfg fuel hw cfg (put cfg2_wdata_size n) s'.cfg_len
  pure s'

unfoldable pub read_chunk : ℕ → Hw → ℕ → Copy → M Copy
read_chunk fuel hw cfg s = do
  let n = chunk_len hw s.len
  write_cfg2_retryable_cfg fuel hw cfg (put cfg2_rdata_size (read_size s.len)) n
  read_words s.len hw (record s { cfg_len = n; index = 0 })

unfoldable pub chunks : ℕ → (Copy → M Copy) → Copy → M Copy
chunks zero pass s = elim (s.len == 0) [ true ↦ pure s | false ↦ out_of_fuel ]
chunks (suc fuel) pass s = elim (s.len == 0) [
  | true ↦ pure s
  | false ↦ do s' ← pass s; chunks fuel pass s'
]

abbrev pub is_read : Msg → Bool
is_read msg = not (bit_and msg.flags i2c_m_rd == 0)

abbrev pub is_recv_len : Msg → Bool
is_recv_len msg = not (bit_and msg.flags i2c_m_recv_len == 0)

abbrev pub start_len : Msg → ℕ
start_len msg =
    if is_read msg && is_recv_len msg then (msg.len + i2c_smbus_block_max) % 2 ^ 16 else msg.len

abbrev pub dev_sel : Hw → Msg → ℕ
dev_sel hw msg = if hw.ten_bit then msg.addr / 2 ^ 7 else hw.index

-- The message after a read: the bytes over its buffer, and with I2C_M_RECV_LEN its length.
unfoldable pub received : Msg → List ℕ → Msg
received msg got =
    let buf' = got ++ drop (length got) msg.buf in
    let count = get_or buf' 0 0 in
    if is_recv_len msg && leb (msg.len + count) (start_len msg)
    then record msg { buf = buf'; len = (msg.len + count) % 2 ^ 16 }
    else record msg { buf = buf' }

-- `_i2c_xfer`: the message as it leaves the transfer.
unfoldable pub xfer_msg : ℕ → Hw → Msg → M Msg
xfer_msg fuel hw msg = do
  wait_done fuel hw 0
  elim (is_read msg) [
    | true ↦ do
      let cfg = cfg_word msg.addr (dev_sel hw msg) access_cur_read
      s ←
          chunks (start_len msg) (read_chunk fuel hw cfg)
            (record { len = start_len msg; cfg_len = 0; index = 0; buf = [] })
      pure (received msg s.buf)
    | false ↦ do
      let cfg = cfg_word msg.addr (dev_sel hw msg) access_cur_write
      _ ←
          chunks (start_len msg) (write_chunk fuel hw cfg)
            (record { len = start_len msg; cfg_len = 0; index = 0; buf = msg.buf })
      pure msg
  ]

unfoldable pub xfer_msgs : ℕ → Hw → List Msg → M (List Msg)
xfer_msgs fuel hw [] = pure []
xfer_msgs fuel hw (msg ∷ msgs) = do
  msg' ← xfer_msg fuel hw msg
  rest ← xfer_msgs fuel hw msgs
  pure (msg' ∷ rest)

-- `cisco_fpga_i2c_xfer`: the messages in turn up to the first that fails, which resets the
-- controller. The status of the first write counts only if there is no message.
unfoldable pub xfer : ℕ → Hw → List Msg → M (List Msg)
xfer fuel hw msgs = do
  e ← attempt (clear_intr_status hw)
  r ← attempt (elim msgs [ [] ↦ lift e >> pure [] | m ∷ ms ↦ xfer_msgs fuel hw (m ∷ ms) ])
  elim r [ ok done ↦ pure done | err x ↦ do _ ← attempt (i2c_reset hw); fail x ]
