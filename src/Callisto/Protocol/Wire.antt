-- ===== src/Callisto/Protocol/Wire.antt =====
-- The commands, read back from the wire.
use e_callisto_ng.Prelude.{
  ℕ, zero, suc, ◌+◌, ◌-◌, ◌*◌, ◌/◌, ◌%◌, ◌≤◌, ◌<◌, min, max, ◌≡◌, refl, ap, ◌∙◌, Bool, ◌||◌, Option,
  none, some, List, [], ◌∷◌, ◌++◌, All, arith, if◌then◌else◌, ◌==◌,
}
use e_callisto_ng.Prelude.Decimal.{
  decimal, padded, IsDigit, value_on, decimal-value, decimal-IsDigit, padded-value, padded-IsDigit,
}
use e_callisto_ng.Prelude.Int.{ℤ, pos, pos_part}
use e_callisto_ng.Prelude.Text.{codes}
use e_callisto_ng.Callisto.Protocol.{
  Firmware, band_for, divider, divider_bytes, distance, control_byte, channel_command, decimal_pred,
  clock_command, gain_command, relay_command, cr,
}

-- What a receiver reads: the numbers between the commas, up to the carriage return that ends the
-- command. Nothing may follow it.
abbrev pub read_fields : ℕ → List ℕ → Option (List ℕ)
read_fields acc [] = none
read_fields acc (c ∷ cs) =
    let further = read_fields 0 cs in
    let digit = read_fields (acc * 10 + (c - 48)) cs in
    if c == 13
    then (elim cs [ [] ↦ some (acc ∷ []) | _ ∷ _ ↦ none ])
    else if c == b','
    then (elim further [ some fs ↦ some (acc ∷ fs) | none ↦ none ])
    else digit

read_fields-digits :
    (acc : ℕ) (ds rest : List ℕ)
    → All IsDigit ds
    → read_fields acc (ds ++ rest) ≡ read_fields (value_on acc ds) rest
read_fields-digits acc [] rest h = refl
read_fields-digits acc (d ∷ ds) rest h =
    ground (arith, read_fields-digits (acc * 10 + (d - 48)) ds rest h.1)

read_fields-padded :
    (w n : ℕ) (rest : List ℕ) → read_fields 0 (padded w n ++ rest) ≡ read_fields n rest
read_fields-padded w n rest =
    read_fields-digits 0 (padded w n) rest (padded-IsDigit w n)
    ∙ ap (λ acc. read_fields acc rest) (padded-value w n)

read_fields-decimal :
    (n : ℕ) (rest : List ℕ) → read_fields 0 (decimal n ++ rest) ≡ read_fields n rest
read_fields-decimal n rest =
    read_fields-digits 0 (decimal n) rest (decimal-IsDigit n)
    ∙ ap (λ acc. read_fields acc rest) (decimal-value n)

-- The numbers behind a command word.
abbrev pub read_command : List ℕ → List ℕ → Option (List ℕ)
read_command [] text = read_fields 0 text
read_command (w ∷ ws) [] = none
read_command (w ∷ ws) (c ∷ cs) = let r = read_command ws cs in if w == c then r else none

read_five :
    (w1 w2 w3 w4 a b c d e : ℕ)
    → read_fields 0 (
        decimal a
        ++ (codes ","
            ++ (padded w1 b
                ++ (codes ","
                    ++ (padded w2 c
                        ++ (codes "," ++ (padded w3 d ++ (codes "," ++ (padded w4 e ++ cr)))))))))
      ≡ some (a ∷ b ∷ c ∷ d ∷ e ∷ [])
read_five w1 w2 w3 w4 a b c d e = rw (read_fields-decimal a _) (
    rw (read_fields-padded w1 b _) (
      rw (read_fields-padded w2 c _)
        (rw (read_fields-padded w3 d _) (rw (read_fields-padded w4 e cr)))))

control_expected :
    (fw : Firmware) (pump : Bool)
    → control_byte fw pump ≡ (if fw.data10bit || pump then 0xC6 else 0x86)
unfolding control_byte
control_expected fw pump = ground arith

divider_whole :
    (f i : ℕ)
    → f < 4_000_000
    → i ≤ 37_700
    → divider f i / 256 % 256 * 256 + divider f i % 256 ≡ divider f i
divider_whole f i h k = omega arith

-- For a tuner frequency below 4 GHz with the intermediate frequency of the known devices, the
-- receiver reads from a channel command: the one-based channel number, the two bytes of the divider,
-- whose value is the whole divider, the control byte (the charge pump is on for every 10-bit device,
-- whatever the configuration says), and the band byte.
channel_command_read :
    (index freq : ℕ) (fw : Firmware) (lo : ℕ) (pump : Bool)
    → distance freq lo < 4_000_000
    → fw.if_init ≤ 37_700
    → (hi : ℕ) × (low : ℕ) × (read_command (codes "FE") (channel_command index freq fw lo pump)
        ≡ some (
            (index + 1)
            ∷ hi
            ∷ low
            ∷ (if fw.data10bit || pump then 0xC6 else 0x86)
            ∷ band_for (distance freq lo)
            ∷ []))
      × (hi < 256)
      × (low < 256)
      × (hi * 256 + low ≡ divider (distance freq lo) fw.if_init)
unfolding channel_command divider_bytes
channel_command_read index freq fw lo pump h k = (
  divider (distance freq lo) fw.if_init / 256 % 256,
  divider (distance freq lo) fw.if_init % 256,
  read_five 3 3 3 3 (index + 1) _ _ _ _
      ∙ ap
          (λ c. some (
            (index + 1)
            ∷ divider (distance freq lo) fw.if_init / 256 % 256
            ∷ divider (distance freq lo) fw.if_init % 256
            ∷ c
            ∷ band_for (distance freq lo)
            ∷ []))
          (control_expected fw pump),
  omega arith,
  omega arith,
  divider_whole (distance freq lo) fw.if_init h k,
)

read_pred :
    (w q : ℕ) (rest : List ℕ)
    → 0 < q
    → read_fields 0 (decimal_pred w q ++ rest) ≡ read_fields (q - 1) rest
unfolding decimal_pred
read_pred w zero rest h = absurd (omega arith)
read_pred w (suc q) rest h =
    read_fields-padded w q rest ∙ ap (λ n. read_fields n rest) (omega arith)

-- A clock command whose divider `d`, as the receiver reads it, makes `d + 1` ticks of `ticks` a second
-- the longest period that is no longer than that of `rate` samples a second.
abbrev pub Divides : ℕ → ℕ → List ℕ → Option (List ℕ) → Type 0
Divides ticks rate word command =
    (d : ℕ) × (text : List ℕ) × (command ≡ some text)
    × (read_command word text ≡ some (d ∷ []))
    × ((d + 1) * rate ≤ ticks)
    × (ticks < (d + 2) * rate)

quotient_fits :
    (t r : ℕ) → 0 < r → r ≤ t → (0 < t / r) × ((t / r - 1 + 1) * r ≤ t) × (t < (t / r - 1 + 2) * r)
quotient_fits t r p h = grind arith

-- With a clock of the receiver's own (source 1) or an external one (source 2), and at most as many
-- samples a second as the clock has ticks, the divider that is sent is the right one.
clock_command-Divides :
    (rate : ℕ)
    → rate ≤ 86400
    → Divides 86400 (max rate 1) (codes "GS") (clock_command 1 rate)
      × Divides 500000 (max rate 1) (codes "GA") (clock_command 2 rate)
unfolding clock_command
clock_command-Divides rate h =
    let (p1, l1, u1) = quotient_fits 86400 (max rate 1) (omega arith) (omega arith) in
    let (p2, l2, u2) = quotient_fits 500000 (max rate 1) (omega arith) (omega arith) in
    (
      (86400 / max rate 1 - 1, _, refl, read_pred 0 (86400 / max rate 1) cr p1, l1, u1),
      (500000 / max rate 1 - 1, _, refl, read_pred 0 (500000 / max rate 1) cr p2, l2, u2),
    )

-- Above one sample for each tick of the internal clock the command holds no number: its text is the
-- negative divider -1.
clock_command_negative :
    (rate : ℕ) → 86400 < rate → clock_command 1 rate ≡ some (codes "GS-1" ++ cr)
unfolding clock_command
clock_command_negative rate h =
    let none_left : 86400 / max rate 1 ≡ 0 = grind arith in
    rw none_left (unfold decimal_pred in refl)

-- Whatever gain and relay code are asked for, also a negative or an oversized one, the receiver reads a
-- gain of at most 255, the nearest to it, and a relay code of six bits.
gain_relay_read :
    (pwm : ℤ) (relay : ℕ)
    → (g : ℕ) × (r : ℕ) × (read_command (codes "O") (gain_command pwm) ≡ some (g ∷ []))
      × (g ≤ 255)
      × ((n : ℕ) → n ≤ 255 → pwm ≡ pos n → g ≡ n)
      × (read_command (codes "fs") (relay_command relay) ≡ some (r ∷ []))
      × (r < 64)
      × (relay < 64 → r ≡ relay)
unfolding gain_command relay_command
gain_relay_read pwm relay = (
  min 255 (pos_part pwm),
  relay % 64,
  read_fields-padded 3 _ cr,
  omega arith,
  λ n h e. rw e (omega arith),
  read_fields-padded 2 _ cr,
  omega arith,
  λ h. omega arith,
)
