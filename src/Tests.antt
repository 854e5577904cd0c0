-- ===== src/Tests.antt =====
-- Concrete inputs: every theorem with hypotheses is applied where they hold.
pub mod SyncTests
pub mod StoreTests
pub mod EngineTests
pub mod RecoveryTests
pub mod PsetTests
pub mod GateTests
pub mod WalletTests
pub mod SpendTests
pub mod BuiltTests
pub mod SignersTests
pub mod StageTests
pub mod WolletTests
pub mod RpcTests
pub mod DrainTests
pub mod TeamTests
pub mod WitnessTests
pub mod MigrationTests
pub mod HistoryTests
pub mod RedeemableTests
