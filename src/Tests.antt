-- ===== src/Tests.antt =====
-- Runs of the modelled calls on concrete inputs, and the theorems applied to them.
mod Fixtures
mod Json
mod JournalTests
mod AcpTests
mod DevflowTests
mod OrchestrationTests
mod PolicyTests
mod PrepareTests
mod WorkflowTests
mod WrapperTests
