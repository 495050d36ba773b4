-- ===== src/Sample.antt =====
-- A small node that satisfies what `Binding.Kernel` documents of the bus, with the inputs that the
-- tests share. No definition of the driver uses it.
pub mod Node
pub mod Claim
pub mod Card
pub mod Host
pub mod Machine
