-- ===== src/Controller.antt =====
-- controller: running one test inside its Docker network. The developer's code is a tree of calls.
pub mod Context
pub mod Calls
pub mod TestController
pub mod Upkeep
pub mod Cleanup
pub mod Answers
pub mod Returns
pub mod Late
pub mod Parts
pub mod Outcomes
mod Sample
mod Tests
