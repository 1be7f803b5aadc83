-- ===== src/Router.antt =====
-- src/signal_hermes_router/router.py: the turns of the router.
--
-- A turn is a function from the router's state and the answers of everything outside to the
-- outcome, the state it leaves and what it did. Router/State holds the shared state, Router/Send
-- the delivery of one reply, Router/Breaker the route states and the circuit breaker's mask,
-- Router/Failure the handling of a failed prompt, and Router/Turn the turn itself, in the stages in
-- which `_run_turn` does it; Router/Intake has what starts a turn, and Router/Reload the reload of
-- the routes. Their properties stand in the other modules.
pub mod State
pub mod Send
pub mod Breaker
pub mod Failure
pub mod Turn
pub mod Intake
pub mod Reload
pub mod Won
pub mod Kept
pub mod Settled
pub mod Same
pub mod Gate
pub mod Masking
pub mod Delivery
pub mod Handled
pub mod Examples
