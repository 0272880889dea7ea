-- ===== src/Bench/Tests.antt =====
-- A silent device: a bench session on a free port.
use e_callisto_ng.Prelude.{ℕ, ◌*◌, ◌≡◌, true, false, []}
use e_callisto_ng.Callisto.Protocol.{firmware_15}
use e_callisto_ng.Callisto.Driver.Monad.{
  Device, Io, Link, chunk, conn_read, conn_write, modify, pure, ◌>>=◌,
}
use e_callisto_ng.Callisto.Driver.{connect, drain, fill}
use e_callisto_ng.Bench.{bench_session}
use e_callisto_ng.Bench.Sessions.{Keeps, Keeps-pure, bench_session-closings, closings}

abbrev silent : Device
silent = record {
  reply = λ i. chunk [];
  write_fails = λ i. false;
  close_fails = λ i. false;
  clock = λ i. 1_000 * i;
  stopped = λ i. false;
}

abbrev unused : Link
unused = record {
  config = record {
    focuscode = 1;
    agclevel = 120;
    chargepump = true;
    clocksource = 1;
    local_oscillator = 0;
  };
  firmware = firmware_15;
  nchannels = 0;
  sweep_rate = 0;
  running = false;
  rx = [];
  emitted = [];
  calls = 0;
  log = [];
}

abbrev operation : Io ℕ
unfolding pure
operation = pure 5

operation-Keeps : Keeps operation
unfolding operation
operation-Keeps = Keeps-pure 5

bench_session-closings_example :
    closings (bench_session silent 1 false true operation unused).1.log ≡ 1
unfolding connect drain fill conn_read conn_write modify pure ◌>>=◌
bench_session-closings_example =
    bench_session-closings silent 1 false true operation unused operation-Keeps
