-- ===== src/HeraldWards/Repeat.antt =====
-- The second of two calls.
use karshipta.Common.{
  ℕ, ◌≡◌, refl, inl, inr, false, List, [], ◌∷◌, ◌++◌, some, arith, ltb, if◌then◌else◌, Text, text,
  lookup, insert, lookup-insert_self, Option-cases,
}
use karshipta.Messages.{Numbers, Herald, WardInfo, state_envelope}
use karshipta.HeraldWards.Manager.{
  Manager, Action, broadcast, Times, LastSeen, ingest, meet, new_ward_info, refresh, report,
  is_out_of_order, herald_event, build_ward_state, is_due, mark, mark_all,
}

module _ {D F : Type 0} where
  mark-again :
      (timeout now : ℕ) (entry : LastSeen D F) → is_due timeout now (mark timeout now entry) ≡ false
  unfolding mark is_due
  mark-again timeout now entry = ground arith

  -- A ward that falls silent is reported once: a second check at the same time marks nothing, and has
  -- nothing to broadcast.
  pub mark_all-again :
      (timeout now : ℕ) (entries : List (Text × LastSeen D F))
      → let marked = (mark_all timeout now entries).0 in mark_all timeout now marked ≡ (marked, [])
  unfolding mark_all
  mark_all-again timeout now [] = refl
  mark_all-again timeout now ((entity_id, entry) ∷ entries) =
      let again = mark-again timeout now entry in
      rw (mark_all-again timeout now entries, again) refl

  -- What is sent for a sample, where the one before it has the timestamp `previous_ms`.
  abbrev pub flagged : Numbers D F → Herald D F → Times → ℕ → List (Action D F)
  flagged numbers msg times previous_ms =
      (if ltb msg.timestamp_ms previous_ms
        then herald_event msg.entity_id times.out_of_order_ms (text "OUT_OF_ORDER_SAMPLE")
            (text "sample timestamp is older than the last accepted reading for this ward")
          ∷ []
        else [])
      ++ (if ltb times.ingestion_ms msg.timestamp_ms
          then herald_event msg.entity_id times.skew_ms (text "CLOCK_SKEW")
              (text "sample timestamp is ahead of the gateway's own clock")
            ∷ []
          else [])
      ++ broadcast (state_envelope (build_ward_state numbers msg times.ingestion_ms)) ∷ []

  meet-known :
      (msg : Herald D F) (m : Manager D F)
      → (info : WardInfo) × (lookup msg.entity_id (meet msg m).0.known_wards ≡ some info)
  unfolding meet
  meet-known msg m = elim (Option-cases (lookup msg.entity_id m.known_wards)) [
    | inl missing ↦
        let new = insert msg.entity_id (new_ward_info msg) m.known_wards in
        let q : (meet msg m).0.known_wards ≡ new = ground arith in
        (
          new_ward_info msg,
          rw q (lookup-insert_self msg.entity_id (new_ward_info msg) m.known_wards),
        )
    | inr (info, e) ↦ (info, ground arith)
  ]

  ingest-known :
      (numbers : Numbers D F) (msg : Herald D F) (times : Times) (m : Manager D F) (info : WardInfo)
      (seen : LastSeen D F)
      → lookup msg.entity_id m.known_wards ≡ some info
      → lookup msg.entity_id m.last_seen ≡ some seen
      → (ingest numbers false msg times m).2
        ≡ flagged numbers msg times seen.last_state.timestamp_ms
  unfolding ingest meet report is_out_of_order build_ward_state
  ingest-known numbers msg times m info seen e f =
      let met : meet msg m ≡ (m, []) = rw (meet, e) refl in ground (arith)

  -- A second message from a ward, directly after a first one: the ward is not announced again. The
  -- sample is flagged as out of order exactly if it is older than the first, as skewed exactly if it is
  -- ahead of the gateway's clock, and its state is broadcast in any case.
  pub ingest-again :
      (numbers : Numbers D F) (a b : Herald D F) (s t : Times) (m : Manager D F)
      → b.entity_id ≡ a.entity_id
      → (ingest numbers false b t (ingest numbers false a s m).1).2
        ≡ flagged numbers b t a.timestamp_ms
  unfolding ingest refresh build_ward_state
  ingest-again numbers a b s t m e =
      let seen : LastSeen D F = record {
        last_state = build_ward_state numbers a s.ingestion_ms;
        last_seen_at = s.seen_at;
        marked_stale = false;
      } in
      let known = meet-known a m in
      let met = meet a m in
      ingest-known numbers b t (ingest numbers false a s m).1 known.0 seen (rw e known.1)
        (rw e (lookup-insert_self a.entity_id seen met.0.last_seen))
