-- ===== src/Lib.antt =====
-- Verification of the MRC part of srv6-ai-fabric: multi-plane spraying of packets over SRv6, where a
-- sender probes every plane of the fabric, receives loss reports, and keeps a state for each plane.
--
-- The parts and how they interact. The sender's ProbeClock hands out request ids, encode_probe puts
-- them on the wire, the receiver answers with a PROBE_REPLY that echoes them, and match_reply or the
-- timeout sweep turns each probe into a result for EVStateTable. The receiver's LossWindowTable counts
-- data packets for each flow and plane; at the end of a window its report goes to the sender, whose
-- apply_loss_report measures it against the sender's own counters (SentWindowRing) and passes the loss of
-- each plane to EVStateTable. The spray policy reads the table's weights for every packet; the runner's
-- send loop takes a plane of it for each data packet, and the runner's receiver feeds each packet to the
-- reorder tracker and, through the receive command's hook, to the loss windows. A scenario is validated,
-- expanded to one run for each pair of hosts, its tunables reach the agents through the environment, and
-- its faults are applied before the run and reverted after it.
--
-- Files and the code they model (paths from the repository's root):
--   EvState.antt       srv6_fabric/mrc/ev_state.py. The table is a record, a dict is an association
--                      list, a method returns the new table or a Python exception. Children: Table
--                      (calls and runs of calls), Machine (the step relation of one plane),
--                      Invariant, Count and Floor (the demotion floor), Progress, Safety, Weights.
--   Wire.antt          srv6_fabric/mrc/probe.py: Words (struct's big-endian fields), Probes and
--                      Reports (constructors, encoders, decoders), ProbeTrips and ReportTrips.
--   ProbeClock.antt    srv6_fabric/mrc/probe_clock.py: Planes, Runs, Sweep, Matches, and Places, Flights and
--                      Emissions (a probe from its emission to its reply).
--   LossWindow.antt    srv6_fabric/mrc/loss_window.py: Counters, Windows, Emission, Closed.
--   LossCompute.antt   srv6_fabric/mrc/loss_compute.py: Rings (the paired window), Fusion (the calls of the
--                      EV table that a report stands for).
--   Topo.antt          srv6_fabric/topo.py: flow hashes and transit spines (Spines), tenants, addresses
--                      and SIDs (Addresses, AddressTrips).
--   Policy.antt        srv6_fabric/policy.py: Draws (weighted picks), Walks (HealthAware), Avoids
--                      (HealthAwareMrc on the EV table), Specs (policies from a scenario).
--   Agent.antt         srv6_fabric/mrc/agent.py, the sender: the turns of its loops as functions of its
--                      state. Children: Replies, SentWindows.
--   Receiver.antt      srv6_fabric/mrc/agent.py, the receiver: its answer to a probe. Children: Rounds
--                      (the round of loss reports) with Quiet and Delivery.
--   Spray.antt         srv6_fabric/cli/spray.py: the receive command's hook on data packets; Reports joins it
--                      to the round of loss reports.
--   Health.antt        srv6_fabric/health.py: the legacy monitor; Machine is the machine of one plane.
--   Reorder.antt       srv6_fabric/reorder.py. Children: Counts, Gaps (loss), Bins and Percentiles (the
--                      histogram), Flows (the tracker).
--   Runner.antt        srv6_fabric/runner.py: Sends (the send loop), Receives (the receiver's handler).
--   Netem.antt         srv6_fabric/netem.py: Undo (apply and revert), Previews (the dry run).
--   Scenario.antt      srv6_fabric/mrc/scenario.py: the validator. Children: Documents (YAML, hosts,
--                      pairs, faults), Texts (words, rates, durations), Checked and
--                      Whole (what a validated scenario promises).
--   Run.antt           srv6_fabric/mrc/run.py: flows and faults of a run; Plans joins it to the validator.
--   Configs.antt       srv6_fabric/mrc/scenario.py (to_env_json) and srv6_fabric/mrc/agent.py
--                      (load_configs_from_env); Payloads and Loads join them to
--                      the validator.
--   Prelude.antt       Shared helpers: lists, dicts, results, integers, and Floats: the float operations
--                      that the code uses, with laws of IEEE 754 as named hypotheses.
--   Tests.antt         The definitions at concrete calls. Fractions is an instance of Floats.
--
-- Bounds. Python's ints are natural numbers where the code keeps them non-negative, ids and fields have
-- the wrap-around or the width check of the source, a byte is a number below 256. Loops are structural
-- recursion on the list or the range that the source walks, so there is no fuel. A call that raises
-- leaves the state as it was, as the source writes nothing before it raises; there are two exceptions.
-- apply_loss_report gives what is written and the exception (a turn of the agent that raises ends its
-- thread, and its other writes are left out). snapshot_and_reset with more than 256 planes
-- raises after it has moved the window id, which the model leaves.
--
-- Not modelled: threads and locks (each method that takes the lock is one step), sockets, scapy, pacing and
-- logging, the run report, the rest of the command line tools, and
-- the generators of configuration. JSON, ipaddress and the runner of processes are arguments, and
-- YAML's documents are given. Rounding of floats
-- enters only through the laws in Prelude.Floats.

pub mod Prelude
pub mod EvState
pub mod Wire
pub mod ProbeClock
pub mod LossWindow
pub mod LossCompute
pub mod Topo
pub mod Policy
pub mod Agent
pub mod Receiver
pub mod Health
pub mod Reorder
pub mod Runner
pub mod Netem
pub mod Scenario
pub mod Run
pub mod Spray
pub mod Configs
pub mod Tests
