-- ===== src/Streaming/Roundtrip.antt =====
-- chat.sse.ts and sse-parser.ts: the reader gives back the events that were written.
use mathlib.Core.List.{append-nil, append_assoc}
use proxy_ai.Base.{
  ℕ, ◌<◌, ◌≡◌, ◌≢◌, refl, sym, ap, subst, ◌∙◌, true, false, List, [], ◌∷◌, ◌++◌, All, All-append,
  Result, ok, arith,
}
use proxy_ai.Streaming.{
  newline, carriage_return, Parts, split_frames, trim_start, is_space, strip_prefix, event_field,
  data_field, message_event, parsed_event, read_line, read_lines, join_lines, ParsedSseEvent,
  SyntaxError, parse_frame, parse_each, read_sse_stream, frame_body, write_sse_event,
}
use proxy_ai.Streaming.Frames.{behind, IsLine, IsPlain, split_frames-frame, split_lines-frame}
use proxy_ai.Streaming.Reader.{concat, read-events}

-- What is written as one line reads back as it is.
pub record IsOneLine (t : List ℕ) : Type 0 where
  pub no_newline : IsLine t
  pub no_return : IsPlain t
  pub trimmed : trim_start t ≡ t

-- What JSON.stringify and JSON.parse do of the values that are sent: one line, that parses back.
pub record JsonLaws {D : Type 0} (stringify : D → List ℕ) (parse : List ℕ → Result SyntaxError D)
    : Type 0 where
  pub one_line : (d : D) → IsOneLine (stringify d)
  pub parsed : (d : D) → parse (stringify d) ≡ ok d

module _ {D : Type 0} (stringify : D → List ℕ) (parse : List ℕ → Result SyntaxError D)
    (laws : JsonLaws stringify parse) where
  abbrev event_line : ParsedSseEvent D → List ℕ
  event_line e = event_field ++ 32 ∷ e.event

  abbrev data_line : ParsedSseEvent D → List ℕ
  data_line e = data_field ++ 32 ∷ stringify e.event_data

  read_fields :
      (e : ParsedSseEvent D)
      → read_lines (message_event, []) (event_line e ∷ data_line e ∷ [])
        ≡ (trim_start e.event, trim_start (stringify e.event_data) ∷ [])
  unfolding read_lines read_line strip_prefix trim_start is_space
  read_fields e = refl

  parsed_fields :
      (e : ParsedSseEvent D)
      → parsed_event parse (e.event, stringify e.event_data ∷ []) ≡ ok (e ∷ [])
  unfolding join_lines
  parsed_fields e = let parsed = laws.parsed e.event_data in ground arith

  -- The fields' names hold no control character.
  event_line-All :
      (x : ℕ) (e : ParsedSseEvent D)
      → x < 32
      → All (λ c. c ≢ x) e.event
      → All (λ c. c ≢ x) (event_line e)
  event_line-All x e less h = (
    omega arith,
    (omega arith, (omega arith, (omega arith, (omega arith, (omega arith, (omega arith, h)))))),
  )

  data_line-All :
      (x : ℕ) (e : ParsedSseEvent D)
      → x < 32
      → All (λ c. c ≢ x) (stringify e.event_data)
      → All (λ c. c ≢ x) (data_line e)
  data_line-All x e less h =
      (omega arith, (omega arith, (omega arith, (omega arith, (omega arith, (omega arith, h))))))

  parse_frame-body :
      (e : ParsedSseEvent D)
      → IsOneLine e.event
      → parse_frame parse (frame_body stringify e) ≡ ok (e ∷ [])
  unfolding parse_frame is_space
  parse_frame-body e h =
      let json = laws.one_line e.event_data in
      let split =
        split_lines-frame (event_line e) (data_line e)
          (event_line-All newline e (omega arith) h.no_newline)
          (data_line-All newline e (omega arith) json.no_newline) in
      ap (λ (q : Parts). parsed_event parse (read_lines (message_event, []) (q.0 ++ q.1 ∷ [])))
        split
      ∙ ap (parsed_event parse) (
          read_fields e
          ∙ ap (λ x. (x, trim_start (stringify e.event_data) ∷ [])) h.trimmed
          ∙ ap (λ x. (e.event, x ∷ [])) json.trimmed)
      ∙ parsed_fields e

  -- What a list of events puts on the wire, while the response stays open.
  abbrev pub wire : List (ParsedSseEvent D) → List ℕ
  wire [] = []
  wire (e ∷ es) = (write_sse_event stringify false true false e).0 ++ wire es

  body_frames : List (ParsedSseEvent D) → List (List ℕ)
  body_frames [] = []
  body_frames (e ∷ es) = frame_body stringify e ∷ body_frames es

  split_frames-wire :
      (es : List (ParsedSseEvent D))
      → All (λ e. IsOneLine e.event) es
      → split_frames (wire es) ≡ (body_frames es, [])
  unfolding body_frames write_sse_event split_frames
  split_frames-wire [] h = refl
  split_frames-wire (e ∷ es) (h, hs) =
      let json = laws.one_line e.event_data in
      let data_rest = 97 ∷ 116 ∷ 97 ∷ 58 ∷ 32 ∷ stringify e.event_data in
      ap split_frames (
        append_assoc (frame_body stringify e) (newline ∷ newline ∷ []) (wire es)
        ∙ append_assoc (event_line e) (newline ∷ data_line e) (newline ∷ newline ∷ wire es))
      ∙ split_frames-frame (event_line e) 100 data_rest (wire es)
          (event_line-All newline e (omega arith) h.no_newline)
          (data_line-All newline e (omega arith) json.no_newline)
      ∙ ap (λ x. behind ((event_line e ++ newline ∷ x) ∷ []) (split_frames (wire es)))
          (append-nil (data_line e))
      ∙ ap (behind (frame_body stringify e ∷ [])) (split_frames-wire es hs)

  parse_each-bodies :
      (es : List (ParsedSseEvent D))
      → All (λ e. IsOneLine e.event) es
      → parse_each parse (body_frames es) ≡ ok es
  unfolding body_frames parse_each
  parse_each-bodies [] h = refl
  parse_each-bodies (e ∷ es) (h, hs) =
      let one = parse_frame-body e h in let rest = parse_each-bodies es hs in ground arith

  wire-IsPlain :
      (es : List (ParsedSseEvent D)) → All (λ e. IsOneLine e.event) es → IsPlain (wire es)
  unfolding write_sse_event
  wire-IsPlain [] h = tt
  wire-IsPlain (e ∷ es) (h, hs) =
      let event = event_line-All carriage_return e (omega arith) h.no_return in
      let value =
        data_line-All carriage_return e (omega arith) (laws.one_line e.event_data).no_return in
      let ends : IsPlain (newline ∷ newline ∷ []) = (omega arith, (omega arith, tt)) in
      All-append _ (frame_body stringify e ++ newline ∷ newline ∷ []) (wire es)
        (All-append _ (frame_body stringify e) (newline ∷ newline ∷ [])
          (All-append _ (event_line e) (newline ∷ data_line e) event (omega arith, value)) ends)
        (wire-IsPlain es hs)

  -- A round trip. If the values turn into one line of JSON each that parses back, and each name is one
  -- line, then however the text that the writer sends for some events is cut into chunks, with nothing
  -- left in the decoder at the end, the reader yields exactly these events, in order, and does not throw.
  pub read-written :
      (es : List (ParsedSseEvent D)) (chunks : List (List ℕ))
      → All (λ e. IsOneLine e.event) es
      → concat chunks ≡ wire es
      → read_sse_stream parse [] chunks [] ≡ (es, ok tt)
  unfolding split_frames
  read-written es chunks h cut =
      let frames = split_frames-wire es h in
      let whole : split_frames (concat chunks) ≡ (body_frames es, []) =
        ap split_frames cut ∙ frames in
      read-events parse chunks [] es (subst IsPlain (sym cut) (wire-IsPlain es h)) refl
        (subst (λ (q : Parts). parse_each parse q.0 ≡ ok es) (sym whole) (parse_each-bodies es h))
        (subst (λ (q : Parts). q.1 ≡ []) (sym whole) refl)
