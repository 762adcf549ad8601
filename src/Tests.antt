-- ===== src/Tests.antt =====
-- Concrete runs, and the theorems at concrete inputs.
pub mod Sample
mod Runs
mod Assembly
mod Witnesses
mod AsmWitnesses
mod AllocatorWitnesses
mod WholeWitness
mod BundleWitness
mod DebuggerWitness
mod NyvaWitnesses
mod HelperWitnesses
