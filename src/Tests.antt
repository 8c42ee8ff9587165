-- ===== src/Tests.antt =====
-- Runs at concrete inputs, and each theorem at an input that meets its hypotheses.
mod Fractions
mod EvStates
mod Packets
mod Clocks
mod Windows
mod Picks
mod Fusions
mod Agents
mod Flows
mod Rounds
mod Runs
mod Faults
mod Scenarios
mod Configs
