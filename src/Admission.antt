-- ===== src/Admission.antt =====
-- internal/admission: the bounded admission scheduler.
pub mod Types
pub mod Counters
pub mod Config
pub mod Entries
pub mod Totals
pub mod Accounts
pub mod Expiry
pub mod State
pub mod Owner
pub mod Commands
pub mod Pump
pub mod Run
pub mod Invariant
pub mod Removal
pub mod Dispatch
pub mod Moves
pub mod Release
pub mod Arrival
pub mod Expiring
pub mod Measure
pub mod Pumping
pub mod Turns
pub mod Rounds
pub mod Termination
pub mod Draining
pub mod Canceling
pub mod Finishing
pub mod Forcing
pub mod Admitting
pub mod Handling
pub mod Rounding
pub mod Validation
pub mod Validated
pub mod Starting
pub mod Guarantees
pub mod Accepting
mod Examples
mod Scenes
pub mod Acquire
pub mod Acquiring
pub mod Senders
pub mod Closing
