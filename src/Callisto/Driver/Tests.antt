-- ===== src/Callisto/Driver/Tests.antt =====
-- The stream against concrete devices.
use e_callisto_ng.Prelude.{◌*◌, ◌≡◌, refl, true, false, [], ◌∷◌, arith, length, ltb, if◌then◌else◌}
use e_callisto_ng.Prelude.Decimal.{decimal, padded}
use e_callisto_ng.Window.{IsSpaced, expire}
use e_callisto_ng.Callisto.Protocol.{firmware_15, init_commands, start_commands}
use e_callisto_ng.Callisto.Parser.{new}
use e_callisto_ng.Callisto.Driver.Monad.{
  Device, chunk, Link, raised, fatal, unfinished, pure, raise, gets, modify, attempt, ◌>>=◌,
  conn_write, conn_read, conn_close, monotonic, still_running,
}
use e_callisto_ng.Callisto.Driver.Quiet.{reset_times}
use e_callisto_ng.Callisto.Driver.Budget.{IsMonotone, stream_resets-IsSpaced}
use e_callisto_ng.Callisto.Driver.Drain.{IsTalking, FallsSilent, recover_unbounded}
use e_callisto_ng.Callisto.Driver.{
  reset_window, reset_budget, pixel_rate, no_data_timeout, write_all, fill, read_chunk, drain,
  soft_reset, reopen, make_parser, rearm, recover, recovered, deliver, stall_test, stall_check,
  after_feed, chunk_round, after_read, one_round, stream_loop, stream,
}

-- A device that says nothing, on a clock that goes four seconds from one call to the next.
abbrev mute : Device
mute = record {
  reply = λ i. chunk [];
  write_fails = λ i. false;
  close_fails = λ i. false;
  clock = λ i. 500 * i;
  stopped = λ i. false;
}

abbrev link : Link
link = record {
  config = record {
    focuscode = 1;
    agclevel = 120;
    chargepump = true;
    clocksource = 1;
    local_oscillator = 0;
  };
  firmware = firmware_15;
  nchannels = 2;
  sweep_rate = 4000;
  running = true;
  rx = [];
  emitted = [];
  calls = 0;
  log = [];
}

-- Three resets, then FatalInstrumentError.
mute_ends :
    ((stream mute 20 5 link).0 ≡ raised fatal)
    × (length (reset_times (stream mute 20 5 link).1.log) ≡ 3)
    × ((stream mute 20 5 link).1.running ≡ false)
unfolding pixel_rate no_data_timeout write_all fill read_chunk drain soft_reset reopen make_parser
    rearm recover recovered deliver stall_test stall_check after_feed chunk_round after_read
    one_round stream_loop stream pure raise gets modify attempt ◌>>=◌ conn_write conn_read
    conn_close monotonic still_running expire new init_commands start_commands decimal padded
mute_ends = (refl, refl, refl)

mute-IsMonotone : IsMonotone mute
mute-IsMonotone i j h = omega arith

stream_resets-IsSpaced_example :
    IsSpaced reset_window reset_budget (reset_times (stream mute 20 5 link).1.log)
stream_resets-IsSpaced_example = stream_resets-IsSpaced mute mute-IsMonotone 20 5 link refl

-- A device that answers every read with one byte.
abbrev babbling : Device
babbling = record mute { reply = λ i. chunk (0 ∷ []) }

babbling-IsTalking : IsTalking babbling
babbling-IsTalking = record {
  first = λ i. 0;
  others = λ i. [];
  talks = λ i. refl;
  writes = λ i. refl;
  closes = λ i. refl;
}

recover_unbounded_example : (recover babbling 1000 [] link).0 ≡ raised unfinished
unfolding expire
recover_unbounded_example = recover_unbounded babbling babbling-IsTalking 1000 [] link (omega arith)

-- A device that has two bytes left, one a read.
abbrev emptying : Device
emptying = record mute { reply = λ i. if ltb i 2 then chunk (7 ∷ []) else chunk [] }

emptying-FallsSilent : FallsSilent emptying 2 0
emptying-FallsSilent = record { talks = λ j h. (7, [], ground arith); silent = refl }
