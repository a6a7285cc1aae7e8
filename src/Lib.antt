-- ===== src/Lib.antt =====
-- Verification of the Cisco 8000 kernel modules (drivers/cisco).
--
-- The repository holds Linux drivers for the register blocks of the FPGAs of Cisco 8000 routers. A
-- parent driver creates a device for each block; each device has a regmap over its registers, and
-- the drivers of the blocks talk to the hardware through regmap_read, regmap_write and
-- regmap_update_bits, and to the kernel through its subsystems (GPIO, interrupts, I2C, sysfs).
--
-- How the drivers are modelled. A driver function is an executable function in the monad `M` of
-- Env.antt. Its run extends the history of requests to regmap and the kernel, and every request is
-- answered by an arbitrary environment that sees the whole history: registers may change at any
-- time and any request may fail. `ok a` is a result and `err n` the status -n. The kernel, regmap,
-- ACPI and device properties are not part of this repository; their answers are parameters, and a
-- theorem names what it assumes of them (`Clock`, `FailsProperly`, `ReadsWords`). Integers are
-- natural numbers with the wrap-around of u16, u32, u64 and unsigned long written out.
--
-- Files:
--   Common      lists, options and Boolean tests that all parts share
--   Bits        bits of natural numbers: and, or, xor and shifts, bit by bit
--   Reg         drivers/cisco/reg_access.h: the masks, _reg_get, _reg_set, _reg_replace and the
--               REG_* macros; a Field is the pair of bit numbers that the macros extract
--   Env         the kernel under the drivers, and its clock
--   Text        the functions of linux/string.h that the drivers use
--   Gpio        drivers/cisco/gpio.h, cisco-fpga-gpio-main.c, cisco-fpga-gpio-init.c and
--               cisco-fpga-gpio-sysfs.c: the callbacks of the lines and of their interrupts, the chained
--               handler, the descriptors of lines, the probe, the attributes "config", "set" and
--               "clear" and the line of the debug file
--   I2cExt      drivers/cisco/i2c-ext.h and cisco-fpga-i2c-ext.c: waiting, retries, transfers
--   I2cSmb      drivers/cisco/cisco-fpga-i2c.c: the SMBus controller's waiting and transfers
--   Arbitrate   drivers/cisco/i2c-arbitrate.h, i2c-arbitrate.c and i2c-arbitrate-sysfs.c: taking
--               and giving back a bus that two masters share, its set-up, its settings and the
--               registration of the adapters
--   Reboot      drivers/cisco/cisco-reboot-notifier.c: the register updates at a reboot
--   Bmc         drivers/cisco/cisco-fpga-bmc.c: register accesses as messages on an I2C bus
--   Header      drivers/cisco/hdr.h and hdr.c: the block header's id, version and scratch register
--   Attributes  drivers/cisco/sysfs.h and cisco-sysfs.c: attributes over registers, their parsers,
--               formats and handlers
--   Xil         drivers/cisco/xil.h, cisco-fpga-xil.c, msd_xil_regmap.c and msd_xil_sysfs.c: the
--               boards and their names, the status bits of their NPUs, the block's settings, its
--               scratch memory and the table of the attributes in it
--   Pseq        drivers/cisco/pseq.h and cisco-fpga-pseq.c: the rails that are shown, the commands and
--               the other attributes of the power sequencer
--   Mfd         drivers/cisco/mfd.c, mfd.h and fpga.h: the table of block drivers, the scan of an
--               FPGA's blocks and the cells that it makes of them
--   Msd         drivers/cisco/cisco-fpga-msd.c and msd.h: the attribute "fc_ready", the probe and the
--               reboot notifier that it registers
--   Info        drivers/cisco/cisco-fpga-info.c and info.h: the attributes of the information block
--   Acpi        drivers/cisco/cisco-acpi.c: the choice of the ACPI companion of an FPGA
--   Lattice     drivers/cisco/lattice_machx03.c: the version of the CPLD
--   Tests       the theorems at concrete inputs
--
-- How the parts interact. Every driver's register accesses go through Reg's fields and Env's
-- requests. The I2C core calls the lock operations of Arbitrate around the transfers of I2cExt
-- and I2cSmb, which use the same regmap; the history orders them. The scan of Mfd creates the
-- devices that the other drivers bind to, and Bmc is one of the ways in which their regmaps reach
-- the hardware. Attributes gives the drivers their sysfs files over registers; its handlers read and
-- write through the same regmap, and Env/Contents says what the registers hold after a run.
--
-- Loops. A loop over lines or bytes recurs on the number that is left. The loops that poll
-- hardware, `poll` of I2cExt, `poll_done` and `await_idle` of I2cSmb and `await_grant` of Arbitrate,
-- recur on fuel. They end by a test of the clock; the fuel that a run needs is a bound on the
-- rounds that the timeout allows.
--
-- BUG_ON and a read beyond an array are the failure `bug_on` of Env.antt, in the scan of the blocks
-- `bug` of Mfd/Cells.antt; neither is a status of the kernel.
--
-- Not modelled: messages to the log, names that are only printed, registration with the kernel's
-- subsystems, and the tracing and layout tables of reg_trace.h and *_regs. Text that is printed is
-- left out but for the rails of Pseq, the texts of the scratch memory, the digits of "fc_ready" and
-- the texts of Info, and what `sscanf` reads from a text is a parameter.
pub mod Common
pub mod Text
pub mod Bits
pub mod Reg
pub mod Env
pub mod Gpio
pub mod I2cExt
pub mod I2cSmb
pub mod Arbitrate
pub mod Reboot
pub mod Bmc
pub mod Attributes
pub mod Xil
pub mod Pseq
pub mod Header
pub mod Mfd
pub mod Msd
pub mod Info
pub mod Acpi
pub mod Lattice
pub mod Tests
