-- ===== src/Callisto/Protocol/Tests.antt =====
-- The commands at concrete input.
use e_callisto_ng.Prelude.{◌≡◌, refl, true, ◌++◌}
use e_callisto_ng.Prelude.Decimal.{decimal, padded}
use e_callisto_ng.Prelude.Text.{codes}
use e_callisto_ng.Callisto.Protocol.{
  cr, firmware_15, firmware_18, detect_firmware, channel_command, start_commands, tune_command,
}

-- 45 MHz on firmware 1.5: divider 1323 = 5 * 256 + 43.
channel_command_runs :
    channel_command 0 45_000 firmware_15 0 true ≡ codes "FE1,005,043,198,001" ++ cr
unfolding channel_command decimal padded
channel_command_runs = refl

commands_run :
    (tune_command 45_000 ≡ codes "F0045.000" ++ cr)
    × (start_commands 1 200
        ≡ codes "FS0100"
          ++ (cr ++ (codes "L200" ++ (cr ++ (codes "S1" ++ (cr ++ (codes "GE" ++ cr)))))))
    × (detect_firmware (codes "$CRX: V1.8") ≡ firmware_18)
unfolding tune_command start_commands detect_firmware decimal padded
commands_run = (refl, refl, refl)
