-- ===== src/Lib.antt =====
-- e-Callisto NG: the station software of a solar radio spectrometer (src/ecallisto_ng).
--
-- A Callisto receiver speaks a text protocol over a serial port. The driver
-- (drivers/callisto/driver.py) writes the commands of protocol.py, hands what it reads to the
-- incremental parser of parser.py, and yields whole sweeps; when the data stop it resets the
-- device, within a budget. The acquisition loop (services/acquisition.py) takes the sweeps of a
-- driver, cuts them into files for a writer, and checks each with services/watchdog.py. The
-- recorder (services/recorder.py) runs one such loop per instrument in a thread, and keeps its
-- run-state in a table (services/recorder_state.py), from which services/liveness.py tells whether
-- frames still arrive. The scheduler (services/scheduler_service.py) computes each instrument's
-- window (services/scheduler.py), starts and stops recordings, and lets
-- services/auto_recover.py run the host's recovery hook on a stalled instrument. The recorder
-- publishes each frame to the live hub (services/hub.py), and holds the lock of the instrument's
-- port (services/port_lock.py), which the bench requests (api/routes/instruments.py) take too; the
-- requests to record and to stop set the operator's flag in the table, which the scheduler follows
-- for an instrument without a schedule. The self-check (services/diagnostics.py) reports on all of
-- it, and the dashboard (services/operations.py) says what comes next. The uploader
-- (services/uploader_service.py, uploader.py) sends finished files to their targets, and tidies the
-- disk. Sessions, accounts and the first-run wizard (api/auth.py, api/routes/users.py,
-- api/routes/wizard.py) decide who may do what. What an instrument records comes from its frequency
-- program (services/freqgen.py, channels.py) and calibration (services/calibration_build.py), and
-- writers/fits/standard.py puts it into a file. Schedules and frequency programs can be exchanged
-- with the legacy software (services/legacy_export.py, legacy_import.py), and the whole configuration
-- saved and restored (services/config_backup.py).
--
-- The files, and the code that each models:
--
--   Prelude    what the others share: numbers and their tests, lists, maps, decimal text, integers
--   Window     a budget of attempts in a sliding window of time: the deque of `_recover` in
--              src/ecallisto_ng/drivers/callisto/driver.py and that of
--              src/ecallisto_ng/services/auto_recover.py
--   Callisto   Protocol: src/ecallisto_ng/drivers/callisto/protocol.py
--              Parser: src/ecallisto_ng/drivers/callisto/parser.py, `feed` for StreamParser.feed,
--              `consume` and `consume_hex` for its two methods
--              Driver: src/ecallisto_ng/drivers/callisto/driver.py, `stream`, `recover`, `drain`
--              for stream, _recover and _drain; Driver/Handshake for identify and configure
--   Acquisition  src/ecallisto_ng/services/acquisition.py and watchdog.py, `record_bounded` for
--              record, `record_continuous` for record_continuous
--   Services   Recorder: src/ecallisto_ng/services/recorder.py, the registry of jobs; Recorder/Run
--              how the thread of a recording ends
--              PortLock: src/ecallisto_ng/services/port_lock.py, as steps of interleaved callers
--              Runtime: src/ecallisto_ng/services/recorder_state.py and liveness.py
--              AutoRecover: src/ecallisto_ng/services/auto_recover.py
--              Windows: the windows of src/ecallisto_ng/services/scheduler.py
--              Scheduler: src/ecallisto_ng/services/scheduler_service.py and the gates of clock.py,
--              `tick` for SchedulerService.tick, `visit` for one turn of its loop
--              Diagnostics: src/ecallisto_ng/services/diagnostics.py, the checks and the report
--              Cockpit: `_next_action` of src/ecallisto_ng/services/operations.py
--   Uploads    src/ecallisto_ng/services/uploader.py and uploader_service.py, `tick` for
--              UploaderService.tick
--   Access     src/ecallisto_ng/api/auth.py and api/routes/users.py; Wizard:
--              src/ecallisto_ng/api/routes/wizard.py and api/setup.py
--   Hub        src/ecallisto_ng/services/hub.py; Hub/Wire: `forward_frame` and `ingest` for
--              _forward_frame and _ingest, with the fields of their JSON objects
--   Frequencies  src/ecallisto_ng/services/freqgen.py
--   Plans      src/ecallisto_ng/services/channels.py, calibration_build.py, and `_calibrate` of
--              src/ecallisto_ng/writers/fits/standard.py
--   Control    record, stop and overview of src/ecallisto_ng/api/routes/instruments.py
--   Backup     src/ecallisto_ng/services/config_backup.py
--   Fits       src/ecallisto_ng/writers/fits/standard.py, `write` for StandardFitsWriter.write,
--              `unique_path` for _unique_path; Names: `_observation_time` of
--              src/ecallisto_ng/services/uploader_service.py
--   Legacy     src/ecallisto_ng/services/legacy_export.py and legacy_import.py: scheduler.cfg;
--              Program: the frequency programs; Station: callisto.cfg; Sun: `generate_sun_scheduler_cfg` of
--              src/ecallisto_ng/services/scheduler.py
--   Bench      the bench session and the diagnosis of src/ecallisto_ng/api/routes/instruments.py
--
-- Modules below these hold the proofs, and those named Tests the runs on concrete inputs.
--
-- Units. Frequencies are whole kilohertz, times whole milliseconds and sweep rates thousandths of a
-- hertz, so the arithmetic is exact; the rounding of floating-point numbers is not modelled. The
-- exported frequency programs take their frequencies as whole multiples of 2^-s MHz.
-- Elevations are ten-thousandths of a degree, counted from the nadir. The generated frequency
-- programs are computed in whole multiples of the fraction of a hertz that makes their step whole.
--
-- Parameters. The driver's device is a function from the number of a call to what the serial port,
-- the clock and the stop flag give, and every run of the driver is a run against such a device. The
-- driver and the writer of the acquisition loop are records that say which calls raise and which
-- sweeps arrive. The scheduler takes the ephemeris, and whether a driver can be built or stopped and
-- an overview sweep returns. The uploader takes what a transport does in each attempt, the accounts the
-- password hasher, the tokens and the new ids, the wizard which texts float() and int() accept,
-- the hub the JSON library and the texts of a datetime, and the calibration the reading of the coefficients' JSON and
-- the two floating-point formulas of core/calibration.py. The writer takes the calibration of one
-- frame and numpy's conversion of a sample to eight bits, the self-check what its probes of the host see, the requests of an operator whether an
-- instrument exists, its port is in use and its driver can be built and stopped, and the backup the JSON of a row
-- and whether SQLite accepts the rows that are added.
--
-- Fuel. The loops of the driver that have no bound in the source, `stream` and `_drain`, run on
-- fuel, and running out is the fault `unfinished`, apart from every return and every exception.
-- One read of `_drain` takes one unit, so one more than the reads that bring bytes is enough.
-- record_continuous cuts one file a unit, so one unit more than the sweeps is enough.
-- A wait of the handshake takes one unit a turn, so one more than the turns until its deadline is
-- enough.
--
-- Texts. Letters and digits are the ASCII ones. A number that is read with a point is a whole
-- number over a power of ten; of the texts that Python's float() takes only plain decimals are read.
--
-- Not modelled: overview and the bench calls of the driver, the transports, the header cards and the
-- encoding of the FITS files, the other drivers, the legacy calibration files and the export of the station file, health
-- and alerts, and most of the web application and the command line, which wire these parts together.
-- The probes of the host and the database are values that the models take. A datagram that is lost
-- between two processes is not modelled.
pub mod Prelude
pub mod Window
pub mod Callisto
pub mod Acquisition
pub mod Services
pub mod Uploads
pub mod Access
pub mod Hub
pub mod Frequencies
pub mod Plans
pub mod Bench
pub mod Backup
pub mod Control
pub mod Fits
pub mod Legacy
