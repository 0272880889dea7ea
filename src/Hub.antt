-- ===== src/Hub.antt =====
-- The fan-out of live frames, src/ecallisto_ng/services/hub.py, with the loop of
-- src/ecallisto_ng/api/routes/live.py that takes them. A subscriber's queue is a bounded list, known
-- by the number of its subscription. What a frame is does not matter here; Hub/Wire has its fields,
-- and the bridge to another process.
use e_callisto_ng.Prelude.{
  ℕ, ◌+◌, Bool, true, false, not, ◌&&◌, Option, none, some, List, [], ◌∷◌, ◌++◌, length, ltb, ◌==◌,
  if◌then◌else◌,
}
pub mod Streams
pub mod Wire
pub mod Bridge
pub mod Codec
pub mod Tests

abbrev pub queue_max : ℕ
queue_max = 256

abbrev pub max_datagram : ℕ
max_datagram = 60000

module _ {ℓ} (Frame : Type ℓ) where
  pub record Subscription : Type ℓ where
    pub id : ℕ
    pub instrument : ℕ
    pub queue : List Frame

  pub record Hub : Type ℓ where
    pub subs : List Subscription
    pub forwards : Bool
    pub warned : Bool

module _ {ℓ} {Frame : Type ℓ} where
  -- `put_nowait`, and `Full` is passed over.
  unfoldable pub offer : Frame → List Frame → List Frame
  offer f q = if ltb (length q) queue_max then q ++ f ∷ [] else q

  abbrev offered : ℕ → Frame → Subscription Frame → Subscription Frame
  offered i f s = if s.instrument == i then record s { queue = offer f s.queue } else s

  unfoldable pub offer_all : ℕ → Frame → List (Subscription Frame) → List (Subscription Frame)
  offer_all i f [] = []
  offer_all i f (s ∷ ss) = offered i f s ∷ offer_all i f ss

  unfoldable pub publish_local : ℕ → Frame → Hub Frame → Hub Frame
  publish_local i f h = record h { subs = offer_all i f h.subs }

  -- `k` is the new subscription's number.
  unfoldable pub joined : ℕ → ℕ → List (Subscription Frame) → List (Subscription Frame)
  joined k i ss = ss ++ record { id = k; instrument = i; queue = [] } ∷ []

  unfoldable pub subscribe : ℕ → ℕ → Hub Frame → Hub Frame
  subscribe k i h = record h { subs = joined k i h.subs }

  unfoldable pub dropped : ℕ → ℕ → List (Subscription Frame) → List (Subscription Frame)
  dropped k i [] = []
  dropped k i (s ∷ ss) = if s.id == k && s.instrument == i then ss else s ∷ dropped k i ss

  unfoldable pub unsubscribe : ℕ → ℕ → Hub Frame → Hub Frame
  unsubscribe k i h = record h { subs = dropped k i h.subs }

  unfoldable pub subscriber_count : ℕ → List (Subscription Frame) → ℕ
  subscriber_count i [] = 0
  subscriber_count i (s ∷ ss) = (if s.instrument == i then 1 else 0) + subscriber_count i ss

  -- A client takes the oldest frame of its queue.
  abbrev pub taken : List Frame → Option Frame × List Frame
  taken [] = (none, [])
  taken (f ∷ q) = (some f, q)

  unfoldable pub take_from :
      ℕ → List (Subscription Frame) → Option Frame × List (Subscription Frame)
  take_from k [] = (none, [])
  take_from k (s ∷ ss) =
      let (got, rest) = take_from k ss in
      let (front, q) = taken s.queue in
      if s.id == k then (front, record s { queue = q } ∷ ss) else (got, s ∷ rest)
