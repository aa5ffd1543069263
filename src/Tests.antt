-- ===== src/Tests.antt =====
-- Runs of the model on concrete inputs, and each theorem at an input where its hypotheses hold.
pub mod ParseRuns
pub mod Samples
pub mod DaemonRuns
pub mod ConfRuns
pub mod ServerRuns
pub mod ParserRuns
pub mod LoadRuns
pub mod VmRuns
pub mod InspectRuns
pub mod ControlRuns
pub mod PassthruRuns
