-- ===== src/Schedule.antt =====
-- internal/config/schedule.go: the hours in which the machine earns.
pub mod Weekdays
pub mod Windows
pub mod Clock
pub mod Earning
pub mod Names
pub mod Week
pub mod Collected
pub mod Normal
pub mod Coverage
pub mod Transition
pub mod Found
pub mod Status
pub mod Validation
pub mod Flag
mod Examples
