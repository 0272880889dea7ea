-- ===== src/Callisto/Driver/Handshake/Tests.antt =====
-- The handshake with a device that answers, and with one that never stops talking.
use e_callisto_ng.Prelude.{◌*◌, ◌≡◌, refl, true, false, [], ◌∷◌, ◌++◌, arith}
use e_callisto_ng.Callisto.Protocol.{eeprom_ready, firmware_15}
use e_callisto_ng.Callisto.Driver.Monad.{Device, Link, chunk, done}
use e_callisto_ng.Callisto.Driver.Handshake.{configure, identify}
use e_callisto_ng.Callisto.Driver.Handshake.Deadline.{IsTicking, identify-configure_ends, is_short}
use e_callisto_ng.Callisto.Driver.Handshake.Program.{
  IsPrompt, channel_commands, configure_programs, planned, setup_commands, written,
}

-- Ten milliseconds from one call to the next.
abbrev acking : Device
acking = record {
  reply = λ i. chunk (eeprom_ready ∷ []);
  write_fails = λ i. false;
  close_fails = λ i. false;
  clock = λ i. 10 * i;
  stopped = λ i. false;
}

abbrev babbling : Device
babbling = record acking { reply = λ i. chunk (120 ∷ 121 ∷ []) }

abbrev unprogrammed : Link
unprogrammed = record {
  config = record {
    focuscode = 1;
    agclevel = 120;
    chargepump = true;
    clocksource = 1;
    local_oscillator = 0;
  };
  firmware = firmware_15;
  nchannels = 0;
  sweep_rate = 0;
  running = false;
  rx = [];
  emitted = [];
  calls = 0;
  log = [];
}

acking-IsPrompt : IsPrompt acking
acking-IsPrompt = record {
  answers = λ i. refl;
  writes = λ i. refl;
  first = λ i. omega arith;
  second = λ i. omega arith;
}

configure_programs_example :
    let (outcome, t) = configure acking 2 (45_000 ∷ 870_000 ∷ []) 4_000 unprogrammed in
    (outcome ≡ done tt)
    × (written t.log
        ≡ channel_commands unprogrammed 0 (45_000 ∷ 870_000 ∷ [])
          ++ setup_commands (planned (45_000 ∷ 870_000 ∷ []) 4_000 unprogrammed))
configure_programs_example =
    configure_programs acking acking-IsPrompt 0 45_000 (870_000 ∷ []) 4_000 unprogrammed refl

babbling-IsTicking : IsTicking babbling 250
babbling-IsTicking i = omega arith

handshake_ends_example :
    (is_short (identify babbling 251 unprogrammed).0 ≡ false)
    × (is_short (configure babbling 251 (45_000 ∷ []) 4_000 unprogrammed).0 ≡ false)
handshake_ends_example =
    identify-configure_ends babbling 250 251 babbling-IsTicking (omega arith) (45_000 ∷ []) 4_000
      unprogrammed unprogrammed
