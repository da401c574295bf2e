-- ===== src/Session.antt =====
-- A connected session of leantty_ssh/src/lib.rs: Session.Loop has the loop of `run_connected_session`,
-- Session.Finish what follows it, and Session.Writer the task that sends the input.
pub mod Metrics
pub mod Loop
pub mod Finish
pub mod Rule
pub mod Conserve
pub mod Retries
pub mod Delivery
pub mod Close
pub mod Pressure
pub mod Writer
pub mod Served
mod Tests
