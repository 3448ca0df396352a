-- ===== src/Lib.antt =====
-- The driver of a Lian Li wireless fan dongle: a Rust library that polls the fan groups over a
-- pair of USB dongles, sends each group's duty once a second, and serves a host program through
-- a C interface.
--
-- The parts, and the files that model them. The modules are named for the source files; below
-- `Engine` and `Ffi` the children that declare functions are named for what they do.
--
-- - Base: the shared names, lists over the native numbers, byte strings, association lists,
--   formatted text, times, results. It models no file of the program.
-- - Frame (src/frame.rs), Discovery (src/discovery.rs), Heartbeat (src/heartbeat.rs), Speed
--   (src/speed.rs): the wire formats. Pure functions on byte lists, under the names of the
--   source's functions.
-- - Win (src/win.rs), Enumerate (src/enumerate.rs), Device (src/device.rs): the errors of
--   Windows calls and the loading of winusb.dll (Win/Load); telling the two dongles apart, and
--   listing them (Enumerate/Walk); opening and closing a dongle (Device/Open), and the
--   transfers on an open one with their cached timeouts.
-- - Process (src/process.rs), Clock (src/clock.rs): which programs run, and the local time.
-- - Dongle (src/dongle.rs): the sequences over a port, and the pair of dongles as one state
--   that is passed along. The record `Port` is the trait of the source.
-- - Groups and Tracker (src/groups.rs): one group, and every device heard since start in slot
--   order. An operation that changes `self` returns the changed record.
-- - Engine (src/engine.rs): the state of the loop, `Core`. Its handlers are in Engine/Log (the
--   failure and change logs), Engine/Poll (heartbeat and poll), Engine/Sweep, Engine/Recover
--   (judge and recover), Engine/Drive, Engine/Publish and Engine/Tick (tick, shutdown and the
--   requests); Engine/Host has what the thread and its hosts share and a round of the loop,
--   Engine/Thread the thread with its schedule, its wait and its end, interleaved with the
--   calls of the hosts in any order, and Engine/Wire the engine on a real dongle. The dongle is
--   the record `Link`, the trait of the source.
-- - Ffi (src/ffi.rs): the calls of the C interface; Ffi/Open has those that open and close a
--   handle and that give the last error.
-- - Probe (src/bin/probe.rs): the command-line tool. Probe/Options parses, Probe/Resolve finds
--   the group that a prefix names, Probe/Session is the session with its heartbeat, its polls
--   and the loops of apply and hold, Probe/Command has discover and set, Probe/Run the single
--   steps of run and Probe/Loops run whole, beside the threads of the record `Beside`,
--   Probe/Main the exit codes, and Probe/Text what is printed of a device.
--
-- How they interact: the C interface and the tool ask Process whether L-Connect's service runs,
-- and open the dongles that Enumerate finds through Device. A tick sends the heartbeat, polls
-- the link and gives the reply to the tracker, sweeps the tracker, judges the failsafe, drives
-- each fan group of the tracker with duties that Speed prepares, recovers a lost dongle, writes
-- the held log lines and publishes the snapshot that the C interface reads.
--
-- Choices. Arrays and strings are lists of bytes. Integers are natural numbers with the
-- wrap-around of their width written out; debug builds panic where release builds wrap. Of the
-- panics only that of the subtraction of an `Instant` in `run` is modelled, as an outcome of
-- its loop (Probe/Loops). An `Instant` is a count of nanoseconds, and the difference of two
-- stops at zero as the source's does. A dongle is closed where `open_with` and `reopen` drop
-- it; where a command of the tool or a handle of the C interface ends, the drop of its dongle
-- is not written out. A `HashMap` is an association list in the order of insertion; the source
-- reads it in no fixed order, which only the order of held log lines shows. The text that
-- Windows gives for an error code is the argument `message`.
--
-- Loops are structural, on the list or on the count that bounds them. The loop of `gather` runs
-- on fuel, one round for each byte of the buffer: a round that reads nothing ends it, and any
-- other fills at least one byte (Dongle/Gather). The walks over the lists of Windows and the
-- loops of the tool run on rounds, and say when these were too few: for `apply` and `hold` the
-- rounds are the limit over the length of the sleep in each (Probe/Waits), and so for the two
-- loops of `run` (Probe/Ends), for the walks they are as many as there are entries
-- (Process/Listing, Enumerate/Listing).
--
-- Not modelled: the Win32 calls themselves, which are the records `WinUsb`, `Setup`,
-- `SetupApi`, `Loader`, `Toolhelp`, `Usb` and `Time`; locks, and the catching of panics; what
-- runs inside a call that a lock makes one step; raw pointers; the tool's reading of the
-- standard input, and what the engine's thread prints while the tool runs; and the C# plugin
-- under plugin/.
pub mod Base
pub mod Frame
pub mod Win
pub mod Discovery
pub mod Heartbeat
pub mod Speed
pub mod Groups
pub mod Tracker
pub mod Enumerate
pub mod Device
pub mod Dongle
pub mod Process
pub mod Clock
pub mod Engine
pub mod Ffi
pub mod Probe
