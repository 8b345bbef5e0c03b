-- ===== src/Evm.antt =====
-- pkg/c2evm: the stepper of the virtual machine.
pub mod Frame
pub mod Gas
pub mod Jump
pub mod Stack
pub mod Memory
pub mod Opcode
pub mod Step
pub mod Valid
pub mod Progress
pub mod Expansion
pub mod Examples
