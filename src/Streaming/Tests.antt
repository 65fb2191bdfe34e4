-- ===== src/Streaming/Tests.antt =====
-- chat.sse.ts and sse-parser.ts: the round trip of two events, in chunks cut within a field and
-- between the two newlines of a frame.
use proxy_ai.Base.{
  ℕ, ◌≡◌, refl, Bool, true, false, List, [], ◌∷◌, ◌==◌, if◌then◌else◌, Result, ok, err, arith,
}
use proxy_ai.Streaming.{
  trim_start, is_space, ParsedSseEvent, SyntaxError, syntax_error, read_sse_stream, write_sse_event,
}
use proxy_ai.Streaming.Roundtrip.{IsOneLine, JsonLaws, read-written}

-- Values of which the JSON text is one digit.
abbrev stringify : Bool → List ℕ
stringify true = b'1' ∷ []
stringify false = b'0' ∷ []

abbrev parse : List ℕ → Result SyntaxError Bool
parse (c ∷ []) = if c == b'1' then ok true else ok false
parse _ = err syntax_error

digit-IsOneLine : (d : Bool) → IsOneLine (stringify d)
unfolding trim_start is_space
digit-IsOneLine true = record {
  no_newline = (omega arith, tt);
  no_return = (omega arith, tt);
  trimmed = refl;
}
digit-IsOneLine false = record {
  no_newline = (omega arith, tt);
  no_return = (omega arith, tt);
  trimmed = refl;
}

digit_parsed : (d : Bool) → parse (stringify d) ≡ ok d
digit_parsed true = refl
digit_parsed false = refl

digit_laws : JsonLaws stringify parse
digit_laws = record { one_line = digit-IsOneLine; parsed = digit_parsed }

abbrev two_events : List (ParsedSseEvent Bool)
two_events =
    record { event = b'a' ∷ b'b' ∷ []; event_data = true }
    ∷ record { event = b'c' ∷ []; event_data = false }
    ∷ []

abbrev cut_chunks : List (List ℕ)
cut_chunks =
    (b'e' ∷ b'v' ∷ [])
    ∷ (b'e' ∷ b'n' ∷ b't' ∷ b':' ∷ 32 ∷ b'a' ∷ b'b' ∷ 10 ∷ b'd' ∷ b'a' ∷ b't' ∷ b'a' ∷ b':' ∷ 32
        ∷ b'1' ∷ 10 ∷ [])
    ∷ (10 ∷ b'e' ∷ b'v' ∷ b'e' ∷ b'n' ∷ b't' ∷ b':' ∷ 32 ∷ b'c' ∷ 10 ∷ b'd' ∷ [])
    ∷ (b'a' ∷ b't' ∷ b'a' ∷ b':' ∷ 32 ∷ b'0' ∷ 10 ∷ 10 ∷ [])
    ∷ []

read-written_example : read_sse_stream parse [] cut_chunks [] ≡ (two_events, ok tt)
unfolding trim_start is_space write_sse_event
read-written_example =
    read-written stringify parse digit_laws two_events cut_chunks
      (
        record {
          no_newline = (omega arith, (omega arith, tt));
          no_return = (omega arith, (omega arith, tt));
          trimmed = refl;
        },
        (
          record { no_newline = (omega arith, tt); no_return = (omega arith, tt); trimmed = refl },
          tt,
        ),
      )
      refl
