-- ===== src/Wire.antt =====
-- srv6_fabric/mrc/probe.py: the bytes of PROBE, PROBE_REPLY and LOSS_REPORT. A byte string is a
-- list of numbers. `struct.pack` in network byte order is `be`, big-endian digits; a value that
-- does not fit its field raises struct.error. Negative values and other types are left out.
pub mod Words
pub mod Probes
pub mod ProbeTrips
pub mod Reports
pub mod ReportTrips
