-- ===== src/Gt06/Frame/Segments.antt =====
-- A frame whose bytes arrive in two segments: what the parser answers to the first one.
use karshipta.Common.{
  ℕ, ◌≤◌, ◌≡◌, inl, List, ◌++◌, arith, length, get_elem?, get_elem?-append_left, Returns, sym, ap,
  ◌∙◌,
}
use karshipta.Gt06.Types.{ok, incomplete, ParseResult, Platform}
use karshipta.Gt06.Frame.Stop.{StopAt}
use karshipta.Gt06.Frame.Outcome.{
  Outcome, framed, waiting, rejected, StartsFrame, parse_frame-Outcome,
}
use karshipta.Gt06.Frame.RoundTrip.{standard_frame}
use karshipta.Gt06.Frame.{parse_frame}

-- The answer to the front of a frame: the frame's end is taken to be the first stop marker in it.
pub record FrontAnswer {D : Type 0} (front : List ℕ) (r : ParseResult D) : Type 0 where
  pub torn : (i : ℕ) → StopAt front i → (r.result ≡ ok) × (r.consumed_bytes ≤ length front)
  pub waits : ((i : ℕ) → ¬ StopAt front i) → r.result ≡ incomplete

module _ (type_byte : ℕ) (content : List ℕ) (serial : ℕ) (front back : List ℕ) where
  front-StartsFrame :
      standard_frame type_byte content serial ≡ front ++ back → 2 ≤ length front → StartsFrame front
  front-StartsFrame e h = inl (
    sym (get_elem?-append_left front back 0 (omega arith)) ∙ sym (ap (λ l. get_elem? l 0) e),
    sym (get_elem?-append_left front back 1 (omega arith)) ∙ sym (ap (λ l. get_elem? l 1) e),
  )

  module _ {D : Type 0} (platform : Platform D) where
    front_answer :
        standard_frame type_byte content serial ≡ front ++ back
        → (r : ParseResult D) → Outcome front r
        → FrontAnswer front r
    front_answer e r (framed is_ok s low inside stop) = record {
      torn = λ i p. (is_ok, inside);
      waits = λ none_there. absurd (none_there _ stop);
    }
    front_answer e r (waiting is_wait s no_stop) = record {
      torn = λ i p. absurd (no_stop i p);
      waits = λ _. is_wait;
    }
    front_answer e r (rejected is_bad long bad) = record {
      torn = λ i p. absurd (bad (front-StartsFrame e long));
      waits = λ _. absurd (bad (front-StartsFrame e long));
    }

    -- Where a well-formed frame is split into a front and a back, the front is answered with a
    -- request for more bytes exactly as long as it holds no stop marker. If it holds one (in the
    -- length, the content, the serial number or the checksum), the parser takes it for the end: the
    -- answer is a whole frame that is no longer than the front.
    pub parse_frame-front :
        standard_frame type_byte content serial ≡ front ++ back
        → Returns (FrontAnswer front) (parse_frame platform front)
    parse_frame-front e =
        let (r, run, outcome) = parse_frame-Outcome platform front in
        (r, run, front_answer e r outcome)
