-- ===== src/Tests.antt =====
-- Runs of the modelled code on concrete inputs, through the theorems about it.
mod Registry
mod Variables
mod Paths
mod Loops
mod Text
mod Requests
mod Events
mod Pictures
mod Small
mod Loading
mod Mouse
