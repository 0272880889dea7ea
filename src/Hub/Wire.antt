-- ===== src/Hub/Wire.antt =====
-- The bridge of src/ecallisto_ng/services/hub.py to another process: `_forward_frame` puts the fields
-- of a frame in a JSON object, and `_ingest` takes them out again. The JSON library is a parameter,
-- and so are the texts of a datetime. Numbers are whole, and an array holds no arrays. Instruments
-- are numbered from 0, so that a frame with a negative number reaches no client. That a datagram is
-- lost is not modelled.
use e_callisto_ng.Prelude.Int.{ℤ, pos, negsuc}
use e_callisto_ng.Prelude.Text.{codes, same_text}
use e_callisto_ng.Prelude.{
  ℕ, Bool, true, false, not, ◌&&◌, ◌||◌, Option, none, some, List, [], ◌∷◌, map, length, ltb,
  if◌then◌else◌,
}
use e_callisto_ng.Legacy.{read_int}
use e_callisto_ng.Plans.{UnitLevel, raw, decibel, sfu, kelvin}
use e_callisto_ng.Hub.{Hub, max_datagram, publish_local}

pub data Scalar : Type 0 where
  number : ℤ → Scalar
  text : List ℕ → Scalar
  null : Scalar

pub data Json : Type 0 where
  scalar : Scalar → Json
  array : List Scalar → Json

-- A JSON object; its keys are different.
abbrev pub Object : Type 0
Object = List (List ℕ × Json)

-- A time is what stands for the datetime.
pub record LiveFrame : Type 0 where
  pub timestamp : ℕ
  pub monotonic : ℤ
  pub values : List Scalar
  pub unit : UnitLevel
  pub focus_code : ℤ

abbrev pub has_key : List ℕ → Object → Bool
has_key key [] = false
has_key key ((k, v) ∷ kvs) = same_text k key || has_key key kvs

abbrev pub are_distinct : Object → Bool
are_distinct [] = true
are_distinct ((k, v) ∷ kvs) = not (has_key k kvs) && are_distinct kvs

abbrev pub unit_value : UnitLevel → List ℕ
unit_value raw = codes "raw"
unit_value decibel = codes "db"
unit_value sfu = codes "sfu"
unit_value kelvin = codes "kelvin"

-- `msg.get(key)`
abbrev pub field : List ℕ → Object → Option Json
field key [] = none
field key ((k, v) ∷ kvs) = let rest = field key kvs in if same_text k key then some v else rest

abbrev pub given_or : Option Json → Json → Json
given_or none d = d
given_or (some v) d = v

-- `int(value)`; `none` here and below is a ValueError, a KeyError or a TypeError.
abbrev pub int_of : Json → Option ℤ
int_of (scalar (number n)) = some n
int_of (scalar (text t)) = read_int t
int_of (scalar null) = none
int_of (array xs) = none

-- `list(value)`, which takes a text apart.
abbrev pub list_of : Json → Option (List Scalar)
list_of (scalar (number n)) = none
list_of (scalar (text t)) = some (map (λ c. text (c ∷ [])) t)
list_of (scalar null) = none
list_of (array xs) = some xs

abbrev pub text_of : Json → Option (List ℕ)
text_of (scalar (text t)) = some t
text_of _ = none

-- `UnitLevel(value)`
abbrev pub unit_of : Option (List ℕ) → Option UnitLevel
unit_of none = none
unit_of (some t) =
    if same_text t (codes "raw")
    then some raw
    else if same_text t (codes "db")
    then some decibel
    else if same_text t (codes "sfu")
    then some sfu
    else if same_text t (codes "kelvin")
    then some kelvin
    else none

infixl 5 ◌>>=◌
abbrev pub ◌>>=◌ {ℓ ℓ'} : {A : Type ℓ} {B : Type ℓ'} → Option A → (A → Option B) → Option B
none >>= k = none
some a >>= k = k a

abbrev pub instrument_of : ℤ → Option ℕ
instrument_of (pos n) = some n
instrument_of (negsuc n) = none

module _ (dumps : Object → List ℕ) (loads : List ℕ → Option Object) (isoformat : ℕ → List ℕ)
    (fromisoformat : List ℕ → Option ℕ) where
  unfoldable pub payload : ℕ → LiveFrame → Object
  payload i f =
      (codes "iid", scalar (number (pos i)))
      ∷ (codes "t", scalar (text (isoformat f.timestamp)))
      ∷ (codes "mono", scalar (number f.monotonic))
      ∷ (codes "values", array f.values)
      ∷ (codes "unit", scalar (text (unit_value f.unit)))
      ∷ (codes "fc", scalar (number f.focus_code))
      ∷ []

  -- The frame of a message and its instrument.
  unfoldable pub parsed : Object → Option (ℕ × LiveFrame)
  parsed msg = do
    iid ← field (codes "iid") msg >>= int_of
    t ← field (codes "t") msg >>= text_of >>= fromisoformat
    mono ← int_of (given_or (field (codes "mono") msg) (scalar (number (pos 0))))
    values ← field (codes "values") msg >>= list_of
    unit ← unit_of (text_of (given_or (field (codes "unit") msg) (scalar (text (codes "raw")))))
    fc ← int_of (given_or (field (codes "fc") msg) (scalar (number (pos 0))))
    i ← instrument_of iid
    some (
      i,
      record { timestamp = t; monotonic = mono; values = values; unit = unit; focus_code = fc },
    )

  -- `_forward_frame`: the datagram that is sent, if one is.
  unfoldable pub forward_frame : ℕ → LiveFrame → Hub LiveFrame → Option (List ℕ) × Hub LiveFrame
  forward_frame i f h =
      if not h.forwards
      then (none, h)
      else if ltb max_datagram (length (dumps (payload i f)))
      then (none, record h { warned = true })
      else (some (dumps (payload i f)), h)

  unfoldable pub publish : ℕ → LiveFrame → Hub LiveFrame → Option (List ℕ) × Hub LiveFrame
  publish i f h = forward_frame i f (publish_local i f h)

  abbrev pub ingested : Option (ℕ × LiveFrame) → Hub LiveFrame → Hub LiveFrame
  ingested none h = h
  ingested (some (i, f)) h = publish_local i f h

  -- `_ingest`: a malformed datagram is ignored.
  unfoldable pub ingest : List ℕ → Hub LiveFrame → Hub LiveFrame
  ingest bytes h = ingested (loads bytes >>= parsed) h
