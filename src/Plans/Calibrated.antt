-- ===== src/Plans/Calibrated.antt =====
-- Whether every sweep of a plan has its calibration.
use e_callisto_ng.Prelude.{
  ℕ, zero, suc, ◌+◌, ◌≡◌, refl, ap, ◌∙◌, max, Bool, true, false, Option, none, some, List, [], ◌∷◌,
  length, get_elem?, replicate, if◌then◌else◌, ltb, leb, arith,
}
use e_callisto_ng.Plans.{
  Instrument, Store, UnitLevel, applied, build_calibration, built, calibrate, calibrated_as,
  decibel, each, instrument_calibration, kelvin, raw, read_unit, resolve, resolve_channels,
  resolve_unit, sfu,
}

abbrev pub is_done : {A : Type 0} → Option A → Bool
is_done none = false
is_done (some a) = true

abbrev pub is_physical : UnitLevel → Bool
is_physical sfu = true
is_physical kelvin = true
is_physical _ = false

module _ {ChannelCal : Type 0} where
  get_elem?_done : (cs : List ChannelCal) (i : ℕ) → is_done (get_elem? cs i) ≡ ltb i (length cs)
  get_elem?_done [] i = ground arith
  get_elem?_done (c ∷ cs) zero = ground arith
  get_elem?_done (c ∷ cs) (suc i) = get_elem?_done cs i ∙ ground arith

  applied_done :
      (f : ℕ → ChannelCal → ℕ) (v : ℕ) (c : Option ChannelCal) (rest : Option (List ℕ))
      → is_done (applied f v c rest) ≡ (if is_done c then is_done rest else false)
  applied_done f v none rest = refl
  applied_done f v (some c) none = refl
  applied_done f v (some c) (some rest) = refl

  each_done :
      (f : ℕ → ChannelCal → ℕ) (cs : List ChannelCal) (i : ℕ) (vs : List ℕ)
      → is_done (each f cs i vs) ≡ leb (i + length vs) (max i (length cs))
  each_done f cs i [] = ground arith
  each_done f cs i (v ∷ vs) =
      applied_done f v (get_elem? cs i) (each f cs (i + 1) vs)
      ∙ rw (get_elem?_done cs i) (rw (each_done f cs (i + 1) vs) (ground arith))

  length-replicate : (n : ℕ) (c : ChannelCal) → length (replicate n c) ≡ n
  length-replicate zero c = refl
  length-replicate (suc n) c = ap suc (length-replicate n c)

  length-build_calibration :
      (rows : List ChannelCal) (n : ℕ) (cs : List ChannelCal)
      → build_calibration rows n ≡ some cs
      → length cs ≡ n
  unfolding build_calibration
  length-build_calibration [] n cs h = cc
  length-build_calibration (c ∷ []) n cs h = ground (arith, length-replicate n c)
  length-build_calibration (c ∷ d ∷ rest) n cs h = ground arith

  module _ (decode : List ℕ → Option (List ChannelCal)) where
    length-calibrated_as :
        (u u' : UnitLevel) (rows : Option (List ChannelCal)) (n : ℕ) (cs : List ChannelCal)
        → calibrated_as u (built rows n) ≡ some (u', some cs)
        → length cs ≡ n
    length-calibrated_as u u' none n cs h = cc
    length-calibrated_as u u' (some rows) n cs h =
        ground (arith, length-build_calibration rows n cs)

    length-resolve_unit :
        (u u' : UnitLevel) (text : Option (List ℕ)) (n : ℕ) (cs : List ChannelCal)
        → resolve_unit decode u text n ≡ some (u', some cs)
        → length cs ≡ n
    length-resolve_unit raw u' text n cs h = ground arith
    length-resolve_unit u u' none n cs h = ground arith
    length-resolve_unit u u' (some []) n cs h = ground arith
    length-resolve_unit u u' (some (c ∷ text)) n cs h =
        length-calibrated_as u u' (decode (c ∷ text)) n cs h

    -- Given an instrument with a calibration in physical units, every sweep of as many samples as its
    -- recording has channels is calibrated exactly when the resolved program has no more channels
    -- than the number in the instrument's own row; otherwise the writer raises.
    pub calibrate_resolved :
        (to_sfu to_kelvin : ℕ → ChannelCal → ℕ) (store : Store) (inst : Instrument)
        (override : Option ℕ) (unit : UnitLevel) (cs : List ChannelCal) (values : List ℕ)
        → instrument_calibration decode store inst ≡ some (unit, some cs)
        → is_physical unit ≡ true
        → length values ≡ length (resolve_channels store inst override)
        → is_done (calibrate to_sfu to_kelvin unit (some cs) values)
          ≡ leb (length (resolve_channels store inst override)) inst.channels
    unfolding instrument_calibration resolve calibrate
    calibrate_resolved to_sfu to_kelvin store inst override sfu cs values h p e =
        each_done to_sfu cs 0 values
        ∙ rw e
            (rw (length-resolve_unit (read_unit inst.unit) sfu _ inst.channels cs h) (ground arith))
    calibrate_resolved to_sfu to_kelvin store inst override kelvin cs values h p e =
        each_done to_kelvin cs 0 values
        ∙ rw e (
            rw (length-resolve_unit (read_unit inst.unit) kelvin _ inst.channels cs h)
              (ground arith))
    calibrate_resolved to_sfu to_kelvin store inst override raw cs values h p e =
        absurd (ground arith)
    calibrate_resolved to_sfu to_kelvin store inst override decibel cs values h p e =
        absurd (ground arith)
