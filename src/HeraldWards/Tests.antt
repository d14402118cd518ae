-- ===== src/HeraldWards/Tests.antt =====
-- The Herald wards on small messages, and the theorems at inputs that meet their hypotheses.
use karshipta.Common.{ℕ, ◌+◌, ◌≡◌, refl, true, false, List, [], ◌∷◌, none, text, lookup}
use karshipta.Messages.{Numbers, Herald, livestock_tag}
use karshipta.HeraldWards.Manager.{LastSeen, ward_id_collision, ingest}
use karshipta.HeraldWards.System.{
  System, Event, ingests, checks, rechecks, reports, connects, elapses, run,
}
use karshipta.HeraldWards.Announce.{known, announcements, run-announcements}
use karshipta.HeraldWards.Silence.{AllJustified, Silent, run-AllJustified}
use karshipta.HeraldWards.Repeat.{flagged, ingest-again}

abbrev zeros : Numbers ℕ ℕ
zeros = record { double_zero = 0; float_zero = 0 }

abbrev cow : ℕ → Herald ℕ ℕ
cow timestamp_ms = record {
  entity_id = text "cow";
  timestamp_ms = timestamp_ms;
  entity_class = livestock_tag;
  position = none;
  velocity = none;
  battery = none;
  gps = none;
  health_ok = true;
  source = text "tracker";
  tags = [];
  org_id = [];
}

abbrev nobody : System ℕ ℕ
nobody = record {
  manager = record { known_wards = []; last_seen = [] };
  to_report = [];
  cleared = none;
  clock = 0;
}

abbrev day : List (Event ℕ ℕ)
day =
    ingests false (cow 10) 20 20 20
    ∷ elapses 40000
    ∷ checks
    ∷ rechecks
    ∷ ingests true (cow 35) 40 40 40
    ∷ reports
    ∷ ingests true (cow 30) 40 40 40
    ∷ ingests false (cow 5) 50 50 50
    ∷ connects 1
    ∷ []

collision :
    (ingest zeros true
      (cow 1)
      (record { ingestion_ms = 2; seen_at = 2; out_of_order_ms = 2; skew_ms = 2 })
      nobody.manager).0
    ≡ ward_id_collision
unfolding ingest
collision = refl

run-announcements_example :
    0 + announcements (text "cow") (run zeros 30000 day nobody).1
    ≡ known (text "cow") (run zeros 30000 day nobody).0.manager
unfolding lookup
run-announcements_example = run-announcements zeros 30000 day nobody (text "cow")

nobody-Silent : Silent 30000 nobody
unfolding lookup
nobody-Silent id entry found stale = cc

run-AllJustified_example : AllJustified zeros 30000 day nobody none
run-AllJustified_example =
    run-AllJustified zeros 30000 day nobody none nobody-Silent (λ state e. cc)

abbrev cow_entry : LastSeen ℕ ℕ
cow_entry = record {
  last_state = record {
    ward_id = text "cow";
    timestamp_ms = 10;
    ingestion_ms = 20;
    position = record {
      latitude_deg = 0;
      longitude_deg = 0;
      altitude_msl_m = 0;
      altitude_rel_m = 0;
    };
    velocity = none;
    battery = none;
    gps = none;
    health_ok = true;
    connected = true;
    tags = [];
  };
  last_seen_at = 0;
  marked_stale = false;
}

ingest-again_example :
    (ingest zeros false
      (cow 5)
      (record { ingestion_ms = 50; seen_at = 50; out_of_order_ms = 51; skew_ms = 52 })
      (ingest zeros false
        (cow 10)
        (record { ingestion_ms = 20; seen_at = 20; out_of_order_ms = 21; skew_ms = 22 })
        nobody.manager).1).2
    ≡ flagged zeros
        (cow 5)
        (record { ingestion_ms = 50; seen_at = 50; out_of_order_ms = 51; skew_ms = 52 })
        10
ingest-again_example =
    ingest-again zeros (cow 10) (cow 5)
      (record { ingestion_ms = 20; seen_at = 20; out_of_order_ms = 21; skew_ms = 22 })
      (record { ingestion_ms = 50; seen_at = 50; out_of_order_ms = 51; skew_ms = 52 })
      nobody.manager refl
