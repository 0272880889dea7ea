-- ===== src/Hub/Tests.antt =====
-- A slow client and a quick one, in one process and at the end of the bridge.
use e_callisto_ng.Prelude.Int.{pos, negsuc}
use e_callisto_ng.Prelude.Text.{codes}
use e_callisto_ng.Prelude.{ℕ, ◌≡◌, refl, true, false, Option, none, some, List, [], ◌∷◌}
use e_callisto_ng.Plans.{decibel}
use e_callisto_ng.Hub.{
  Hub, Subscription, offer, offer_all, publish_local, take_from, subscribe, unsubscribe, joined,
  dropped,
}
use e_callisto_ng.Hub.Wire.{
  LiveFrame, forward_frame, ingest, number, parsed, payload, publish, scalar, text,
}
use e_callisto_ng.Hub.Codec.{dumps, loads, loads-dumps}
use e_callisto_ng.Hub.Streams.{Op, alone, joins, leaves, published, serve, serve-alone, takes}
use e_callisto_ng.Hub.Bridge.{bridged, bridged-alone, fitting}

abbrev two_clients : List (Subscription ℕ)
two_clients =
    record { id = 1; instrument = 7; queue = [] }
    ∷ record { id = 2; instrument = 7; queue = [] }
    ∷ []

abbrev session : List (Op ℕ)
session =
    published 7 10
    ∷ joins 3 7
    ∷ published 8 11
    ∷ leaves 1 7
    ∷ takes 2
    ∷ published 7 12
    ∷ takes 1
    ∷ takes 2
    ∷ takes 2
    ∷ []

serve-alone_example : serve 2 session two_clients ≡ alone 7 2 session []
serve-alone_example =
    serve-alone 2 session two_clients (record { id = 2; instrument = 7; queue = [] }) refl refl

serve_session : serve 2 session two_clients ≡ some 10 ∷ some 12 ∷ none ∷ []
unfolding offer_all offer take_from joined dropped
serve_session = refl

abbrev live : ℕ → LiveFrame
live t = record {
  timestamp = t;
  monotonic = negsuc 4;
  values = number (pos 120) ∷ number (pos t) ∷ [];
  unit = decibel;
  focus_code = pos 59;
}

abbrev to_text : ℕ → List ℕ
to_text t = t ∷ []

abbrev of_text : List ℕ → Option ℕ
of_text (t ∷ []) = some t
of_text _ = none

abbrev live_clients : List (Subscription LiveFrame)
live_clients =
    record { id = 1; instrument = 7; queue = [] }
    ∷ record { id = 2; instrument = 7; queue = [] }
    ∷ []

abbrev live_session : List (Op LiveFrame)
live_session =
    published 7 (live 10)
    ∷ joins 3 7
    ∷ published 8 (live 11)
    ∷ leaves 1 7
    ∷ takes 2
    ∷ published 7 (live 12)
    ∷ takes 1
    ∷ takes 2
    ∷ takes 2
    ∷ []

abbrev recorder : Hub LiveFrame
recorder = record { subs = []; forwards = true; warned = false }

abbrev web : Hub LiveFrame
web = record { subs = live_clients; forwards = false; warned = false }

bridged-alone_example :
    bridged dumps loads to_text of_text 2 live_session recorder web
    ≡ alone 7 2 (fitting dumps loads to_text of_text live_session) []
bridged-alone_example =
    bridged-alone dumps loads to_text of_text 2 live_session recorder web
      (record { id = 2; instrument = 7; queue = [] }) (λ o d. loads-dumps o) (λ t. refl) refl refl
      refl

bridged_session :
    bridged dumps loads to_text of_text 2 live_session recorder web
    ≡ some (live 10) ∷ some (live 12) ∷ none ∷ []
unfolding publish publish_local forward_frame ingest payload parsed offer_all offer take_from
    subscribe unsubscribe joined dropped
bridged_session = refl

-- A message without its values is ignored, and one without its unit is taken as raw.
no_values_ignored :
    parsed dumps loads to_text of_text
      ((codes "iid", scalar (number (pos 7))) ∷ (codes "t", scalar (text (9 ∷ []))) ∷ [])
    ≡ none
unfolding parsed
no_values_ignored = refl
