-- ===== src/Tests.antt =====
-- The theorems at concrete inputs, and runs of the drivers.
mod Machines
mod Registers
mod Lines
mod Transfers
mod Arbitration
mod Devices
mod Blocks
mod Messages
mod Attributes
mod Setup
mod Npus
mod Power
mod Memory
mod Settings
mod Management
