-- ===== src/App/Saga.antt =====
-- `HandleSagaEventUseCase` of src/application/use_cases.py: its definitions and proofs.
pub mod Base
pub mod Spec
pub mod Effect
pub mod Laws
pub mod Execute
pub mod Advance
pub mod Complete
pub mod Modes
