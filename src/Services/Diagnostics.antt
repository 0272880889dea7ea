-- ===== src/Services/Diagnostics.antt =====
-- The station's self-check, src/ecallisto_ng/services/diagnostics.py: what each probe makes of what
-- it sees on the host, and the overall status. A check is its name and its status, without the detail
-- for people. What /proc, the file system, systemctl and chrony show is a record; sizes are bytes
-- and times milliseconds. Command lines are ASCII.
use e_callisto_ng.Prelude.Text.{begins_with, codes, occurs, same_text}
use e_callisto_ng.Prelude.Decimal.{decimal}
use e_callisto_ng.Prelude.Lines.{lines_after, strip}
use e_callisto_ng.Prelude.Int.{ℤ, pos, negsuc}
use e_callisto_ng.Prelude.{
  ℕ, ◌+◌, ◌-◌, ◌*◌, max, Bool, true, false, not, ◌&&◌, ◌||◌, Option, none, some, List, [], ◌∷◌,
  ◌++◌, length, ltb, if◌then◌else◌, ◌==◌,
}
use e_callisto_ng.Legacy.{read_int}
use e_callisto_ng.Services.Recorder.{RecorderState, idle, recording, failed}
use e_callisto_ng.Services.Runtime.{RecorderRuntime, is_stalled}
pub mod Report
pub mod Verdict
pub mod Healthy
mod Tests

pub data Level : Type 0 where
  healthy : Level
  warn : Level
  fail : Level

-- `_RANK`
abbrev pub rank : Level → ℕ
rank healthy = 0
rank warn = 1
rank fail = 2

pub record Check : Type 0 where
  pub name : List ℕ
  pub status : Level

abbrev pub reported : List ℕ → Level → Check
reported name level = record { name = name; status = level }

-- An entry of /proc: its command line and the targets of its descriptors, where they can be read.
pub record Process : Type 0 where
  pub pid : ℕ
  pub cmdline : Option (List ℕ)
  pub links : Option (List (Option (List ℕ)))

pub record Instrument : Type 0 where
  pub id : ℕ
  pub name : List ℕ
  pub instrument_class : List ℕ
  pub address : List ℕ
  pub sweep_rate : ℕ
  pub file_seconds : ℕ

-- What the probes see; `none` is the OSError of the probe.
pub record Host : Type 0 where
  pub processes : Option (List Process)
  pub run_loops_in_web : Bool
  pub exists : List ℕ → Bool
  -- the files of the data directory, and when each was written
  pub files : Option (List (List ℕ × Option ℕ))
  -- what `systemctl show` prints for a unit
  pub show : List ℕ → Option (List ℕ)
  pub synced : Option Bool
  -- free and total
  pub disk : Option (ℕ × ℕ)
  pub stall_grace : ℕ
  pub now : ℕ

-- The rows of the database.
pub record Station : Type 0 where
  pub instruments : List Instrument
  pub rows : List (ℕ × RecorderRuntime)

abbrev spaced : List ℕ → List ℕ
spaced [] = []
spaced (b ∷ bs) = (if b == 0 then 32 else b) ∷ spaced bs

abbrev command_of : Option (List ℕ) → List ℕ
command_of none = []
command_of (some bytes) = strip (spaced bytes)

abbrev unless_blank : ℕ → List ℕ → List (ℕ × List ℕ) → List (ℕ × List ℕ)
unless_blank pid [] found = found
unless_blank pid (c ∷ cs) found = (pid, c ∷ cs) ∷ found

-- `_procs`
abbrev pub procs : List Process → List (ℕ × List ℕ)
procs [] = []
procs (p ∷ ps) = unless_blank p.pid (command_of p.cmdline) (procs ps)

abbrev pub is_web : List ℕ → Bool
is_web command = occurs (codes "uvicorn") command && occurs (codes "ecallisto") command

abbrev pub is_acquire : List ℕ → Bool
is_acquire command = occurs (codes "ecallisto-ng acquire") command

abbrev pub count_of : (List ℕ → Bool) → List (ℕ × List ℕ) → ℕ
count_of f [] = 0
count_of f ((pid, command) ∷ found) =
    let rest = count_of f found in if f command then rest + 1 else rest

abbrev pub has_issues : ℕ → ℕ → ℕ → Bool
has_issues web acquire wanted =
    ltb 1 web || (web == 0 || (ltb wanted acquire || (ltb 0 wanted && acquire == 0)))

abbrev pub processes_level : Option (List Process) → ℕ → Level
processes_level none wanted = warn
processes_level (some ps) wanted =
    if has_issues (count_of is_web (procs ps)) (count_of is_acquire (procs ps)) wanted
    then warn
    else healthy

abbrev pub wanted_daemons : Host → ℕ
wanted_daemons h = if h.run_loops_in_web then 0 else 1

-- `_check_processes`
unfoldable pub check_processes : Host → Check
check_processes h = reported (codes "processes") (processes_level h.processes (wanted_daemons h))

abbrev is_linked : List ℕ → List (Option (List ℕ)) → Bool
is_linked device [] = false
is_linked device (none ∷ links) = is_linked device links
is_linked device (some target ∷ links) = same_text target device || is_linked device links

abbrev pub holds : List ℕ → Option (List (Option (List ℕ))) → Bool
holds device none = false
holds device (some links) = is_linked device links

-- `_device_holders`
abbrev pub device_holders : List ℕ → List Process → List ℕ
device_holders device [] = []
device_holders device (p ∷ ps) =
    let rest = device_holders device ps in if holds device p.links then p.pid ∷ rest else rest

abbrev pub holders_level : List ℕ → Option (List Process) → Level
holders_level device none = warn
holders_level device (some ps) = if ltb 1 (length (device_holders device ps)) then fail else healthy

abbrev pub port_level : Host → List ℕ → Level
port_level h device = if h.exists device then holders_level device h.processes else warn

-- A serial receiver with a device file.
abbrev pub is_serial : Instrument → Bool
is_serial inst =
    same_text inst.instrument_class (codes "heterodyne") && begins_with (codes "/dev/") inst.address

-- `_check_serial_ports`
abbrev pub check_serial_ports : Host → List Instrument → List Check
check_serial_ports h [] = []
check_serial_ports h (inst ∷ insts) =
    let rest = check_serial_ports h insts in
    if is_serial inst
    then reported (codes "serial:" ++ inst.address) (port_level h inst.address) ∷ rest
    else rest

abbrev ends_with : List ℕ → List ℕ → Bool
ends_with suffix [] = same_text suffix []
ends_with suffix (c ∷ cs) = same_text suffix (c ∷ cs) || ends_with suffix cs

abbrev when_or_zero : Option ℕ → ℕ
when_or_zero none = 0
when_or_zero (some t) = t

abbrev newest_of : List ℕ → List (List ℕ × Option ℕ) → ℕ
newest_of name [] = 0
newest_of name ((file, written) ∷ files) =
    let rest = newest_of name files in
    if begins_with (name ++ 95 ∷ []) file && ends_with (codes ".fit") file
    then max (when_or_zero written) rest
    else rest

abbrev age_of : ℕ → ℕ → Option ℕ
age_of now newest = if newest == 0 then none else some (now - newest)

-- `_newest_data_age_s`
abbrev pub newest_data_age : Host → List ℕ → Option ℕ
newest_data_age h name = from_files h.files
  where
    from_files : Option (List (List ℕ × Option ℕ)) → Option ℕ
    from_files none = none
    from_files (some files) = age_of h.now (newest_of name files)

abbrev pub find_instrument : ℕ → List Instrument → Option Instrument
find_instrument i [] = none
find_instrument i (inst ∷ insts) =
    let rest = find_instrument i insts in if inst.id == i then some inst else rest

abbrev pub rate_of : Option Instrument → ℕ
rate_of none = 4_000
rate_of (some inst) = inst.sweep_rate

abbrev pub age_level : Option ℕ → ℕ → Level
age_level none period = healthy
age_level (some age) period = if ltb (period * 1_500 + 120_000) age then warn else healthy

abbrev pub files_level : Host → Option Instrument → Level
files_level h none = healthy
files_level h (some inst) = age_level (newest_data_age h inst.name) inst.file_seconds

abbrev pub beat_level : Host → Option Instrument → Option ℕ → Level
beat_level h inst (some t) = healthy
beat_level h inst none = files_level h inst

-- The status of a recording.
abbrev pub recording_level : Host → Option Instrument → RecorderRuntime → Level
recording_level h inst r =
    if is_stalled h.stall_grace (rate_of inst) r h.now
    then warn
    else beat_level h inst r.last_frame_at

abbrev pub row_check :
    Host → Option Instrument → ℕ → RecorderRuntime → RecorderState → List Check → List Check
row_check h inst i r failed rest = reported (codes "recorder:" ++ decimal i) warn ∷ rest
row_check h inst i r recording rest =
    reported (codes "recorder:" ++ decimal i) (recording_level h inst r) ∷ rest
row_check h inst i r idle rest = rest

-- `_check_recorder_liveness`
abbrev pub check_recorder_liveness :
    Host → List Instrument → List (ℕ × RecorderRuntime) → List Check
check_recorder_liveness h insts [] = []
check_recorder_liveness h insts ((i, r) ∷ rows) =
    row_check h (find_instrument i insts) i r r.state (check_recorder_liveness h insts rows)
