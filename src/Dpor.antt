-- ===== src/Dpor.antt =====
-- src/mcmini/model_checking/algorithms: dynamic partial-order reduction over the model.
pub mod ClockVector
pub mod StackItem
pub mod Dispatch
pub mod Relations
pub mod Context
pub mod Search
mod Tests
