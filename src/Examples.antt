-- ===== src/Examples.antt =====
-- Runs of the model on concrete inputs, and the theorems at inputs that meet their hypotheses.
mod Hidpps
mod World
mod TypeNames
mod Daemons
mod Displays
mod DeviceLists
mod Histories
mod Recorders
mod Graphs
mod Polls
mod Identities
mod Supplies
mod Batteries
mod Backlights
mod Wakers
mod Devices
mod Backends
