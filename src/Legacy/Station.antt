-- ===== src/Legacy/Station.antt =====
-- callisto.cfg, the station's file of the legacy software: `parse_callisto_cfg` of
-- src/ecallisto_ng/services/legacy_import.py. Which texts `float` and `int` accept are parameters, and
-- so is the text of the float that a text is read as, negated for the flag: numbers stay texts.
use e_callisto_ng.Prelude.Text.{codes, same_text}
use e_callisto_ng.Prelude.Split.{split}
use e_callisto_ng.Prelude.Lines.{lines_after, strip}
use e_callisto_ng.Prelude.{ℕ, Bool, false, ◌||◌, Option, none, some, List, [], ◌∷◌, if◌then◌else◌}
use e_callisto_ng.Legacy.{upper}
use e_callisto_ng.Legacy.Program.{key_value}

pub record StationConfig : Type 0 where
  pub instrument : List ℕ
  pub origin : List ℕ
  pub titlecomment : List ℕ
  pub latitude : List ℕ
  pub longitude : List ℕ
  pub altitude : List ℕ
  pub focus_code : List ℕ
  pub gain : List ℕ

abbrev pub with_pair : Option (List ℕ × List ℕ) → List (List ℕ × List ℕ) → List (List ℕ × List ℕ)
with_pair none kvs = kvs
with_pair (some kv) kvs = kv ∷ kvs

abbrev pub kv_pairs : List (List ℕ) → List (List ℕ × List ℕ)
kv_pairs [] = []
kv_pairs (l ∷ ls) = with_pair (key_value (strip l)) (kv_pairs ls)

-- `kv.get(key, default)`: of the pairs with one key the last counts.
abbrev pub kv_get : List ℕ → List (List ℕ × List ℕ) → List ℕ → List ℕ
kv_get key [] default = default
kv_get key ((k, v) ∷ kvs) default = kv_get key kvs (if same_text k key then v else default)

abbrev pub uppered : List ℕ → List ℕ
uppered [] = []
uppered (c ∷ cs) = upper c ∷ uppered cs

module _ (floats ints : List ℕ → Bool) (shown : Bool → List ℕ → List ℕ) where
  -- `code.upper() in neg_codes`, for one letter: the empty text is in it too.
  abbrev is_negative : List ℕ → List ℕ → Bool
  is_negative code neg = same_text (uppered code) [] || same_text (uppered code) neg

  abbrev signed_parts : List (List ℕ) → List ℕ → List ℕ
  signed_parts (code ∷ num ∷ []) neg =
      if floats (strip num) then shown (is_negative (strip code) neg) (strip num) else codes "0.0"
  signed_parts _ neg = codes "0.0"

  -- `_signed`
  unfoldable pub signed : List ℕ → List ℕ → List ℕ
  signed value neg = signed_parts (split 44 value) neg

  -- `float(value or 0)` and `int(value or default)`; `none` is the ValueError.
  abbrev float_or : List ℕ → Option (List ℕ)
  float_or [] = some (codes "0.0")
  float_or (c ∷ cs) = if floats (c ∷ cs) then some (shown false (c ∷ cs)) else none

  abbrev int_or : List ℕ → List ℕ → Option (List ℕ)
  int_or [] default = some default
  int_or (c ∷ cs) default = if ints (c ∷ cs) then some (c ∷ cs) else none

  abbrev config_of :
      List (List ℕ × List ℕ)
      → Option (List ℕ)
      → Option (List ℕ)
      → Option (List ℕ)
      → Option StationConfig
  config_of kv (some height) (some focus) (some agc) = some (record {
    instrument = kv_get (codes "instrument") kv [];
    origin = kv_get (codes "origin") kv [];
    titlecomment = kv_get (codes "titlecomment") kv [];
    latitude = signed (kv_get (codes "latitude") kv []) (codes "S");
    longitude = signed (kv_get (codes "longitude") kv []) (codes "W");
    altitude = height;
    focus_code = focus;
    gain = agc;
  })
  config_of kv _ _ _ = none

  unfoldable pub parse_callisto_cfg : List ℕ → Option StationConfig
  parse_callisto_cfg text =
      let kv = kv_pairs (lines_after false text) in
      config_of kv (float_or (kv_get (codes "height") kv (codes "0")))
        (int_or (kv_get (codes "focuscode") kv (codes "1")) (codes "1"))
        (int_or (kv_get (codes "agclevel") kv (codes "120")) (codes "120"))
