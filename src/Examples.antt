-- ===== src/Examples.antt =====
-- Runs of the model at concrete inputs: the theorems applied where their hypotheses hold.
mod Transfer
mod Exchange
mod Records
mod Policy
mod Runs
mod Work
mod Nodes
mod Delivery
mod Tabs
mod Screens
mod Desk
