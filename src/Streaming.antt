-- ===== src/Streaming.antt =====
-- chat.sse.ts of the backend and sse-parser.ts of the frontend: server-sent events, from the writer to
-- the reader. Texts are lists of UTF-16 code units; JSON.stringify and JSON.parse are arguments.
pub mod Frames
pub mod Reader
pub mod Roundtrip
mod Tests
use proxy_ai.Base.{
  ℕ, Bool, true, false, ◌&&◌, ◌||◌, Option, none, some, not, List, [], ◌∷◌, ◌++◌, Result, ok, err,
  leb, ◌==◌, if◌then◌else◌,
}

abbrev pub newline : ℕ
newline = 10

abbrev pub carriage_return : ℕ
carriage_return = 13

-- `replace(/\r\n/gu, "\n")`.
pub normalize_lines : List ℕ → List ℕ
normalize_lines [] = []
normalize_lines (c ∷ []) = c ∷ []
normalize_lines (c ∷ d ∷ cs) =
    let from_next = normalize_lines (d ∷ cs) in
    let behind = normalize_lines cs in
    if c == carriage_return && d == newline then newline ∷ behind else c ∷ from_next

-- A separated text: the parts before the separators, and the last one.
abbrev pub Parts : Type 0
Parts = List (List ℕ) × List ℕ

abbrev pub push : ℕ → Parts → Parts
push c ([], last) = ([], c ∷ last)
push c (p ∷ ps, last) = ((c ∷ p) ∷ ps, last)

-- `split("\n\n")` and `pop`.
pub split_frames : List ℕ → Parts
split_frames [] = ([], [])
split_frames (c ∷ []) = ([], c ∷ [])
split_frames (c ∷ d ∷ cs) =
    let (frames, last) = split_frames cs in
    let from_next = split_frames (d ∷ cs) in
    if c == newline && d == newline then ([] ∷ frames, last) else push c from_next

-- `split("\n")`.
pub split_lines : List ℕ → Parts
split_lines [] = ([], [])
split_lines (c ∷ cs) =
    let (lines, last) = split_lines cs in
    if c == newline then ([] ∷ lines, last) else push c (lines, last)

-- `trimStart` and `trim` take away these.
pub is_space : ℕ → Bool
is_space c =
    (leb 9 c && leb c 13)
    || c == 32
    || c == 160
    || c == 5760
    || (leb 8192 c && leb c 8202)
    || c == 8232
    || c == 8233
    || c == 8239
    || c == 8287
    || c == 12288
    || c == 65279

pub trim_start : List ℕ → List ℕ
unfolding is_space
trim_start [] = []
trim_start (c ∷ cs) = let rest = trim_start cs in if is_space c then rest else c ∷ cs

abbrev pub is_blank : List ℕ → Bool
is_blank [] = true
is_blank (c ∷ cs) = is_space c && is_blank cs

-- What follows a prefix that a line starts with.
pub strip_prefix : List ℕ → List ℕ → Option (List ℕ)
strip_prefix [] line = some line
strip_prefix (p ∷ ps) [] = none
strip_prefix (p ∷ ps) (c ∷ cs) = let rest = strip_prefix ps cs in if p == c then rest else none

abbrev pub event_field : List ℕ
event_field = b'e' ∷ b'v' ∷ b'e' ∷ b'n' ∷ b't' ∷ b':' ∷ []

abbrev pub data_field : List ℕ
data_field = b'd' ∷ b'a' ∷ b't' ∷ b'a' ∷ b':' ∷ []

abbrev pub comment_field : List ℕ
comment_field = b':' ∷ []

abbrev pub message_event : List ℕ
message_event = b'm' ∷ b'e' ∷ b's' ∷ b's' ∷ b'a' ∷ b'g' ∷ b'e' ∷ []

pub record ParsedSseEvent (D : Type 0) : Type 0 where
  pub event : List ℕ
  pub event_data : D

-- What JSON.parse throws.
pub data SyntaxError : Type 0 where
  syntax_error : SyntaxError

-- The name and the data lines of a frame, as far as it is read.
abbrev pub Fields : Type 0
Fields = List ℕ × List (List ℕ)

pub read_line : Fields → List ℕ → Fields
unfolding strip_prefix trim_start
read_line (name, lines) line = elim (strip_prefix comment_field line) [
  | some comment ↦ (name, lines)
  | none ↦ elim (strip_prefix event_field line) [
    | some value ↦ (trim_start value, lines)
    | none ↦ elim (strip_prefix data_field line) [
      | some value ↦ (name, lines ++ trim_start value ∷ [])
      | none ↦ (name, lines)
    ]
  ]
]

pub read_lines : Fields → List (List ℕ) → Fields
unfolding read_line
read_lines fields [] = fields
read_lines fields (line ∷ lines) = read_lines (read_line fields line) lines

-- `join("\n")`.
pub join_lines : List (List ℕ) → List ℕ
join_lines [] = []
join_lines (line ∷ []) = line
join_lines (line ∷ next ∷ lines) = line ++ newline ∷ join_lines (next ∷ lines)

module _ {D : Type 0} (parse : List ℕ → Result SyntaxError D) where
  abbrev pub parsed_event : Fields → Result SyntaxError (List (ParsedSseEvent D))
  parsed_event (name, []) = ok []
  parsed_event (name, line ∷ lines) = elim (parse (join_lines (line ∷ lines))) [
    | err e ↦ err e
    | ok value ↦ ok (record { event = name; event_data = value } ∷ [])
  ]

  pub parse_frame : List ℕ → Result SyntaxError (List (ParsedSseEvent D))
  unfolding split_lines read_lines join_lines
  parse_frame frame =
      let (lines, last) = split_lines frame in
      if is_blank frame
      then ok []
      else parsed_event (read_lines (message_event, []) (lines ++ last ∷ []))

  -- The `flatMap` over the frames.
  pub parse_each : List (List ℕ) → Result SyntaxError (List (ParsedSseEvent D))
  unfolding parse_frame
  parse_each [] = ok []
  parse_each (frame ∷ frames) = elim (parse_frame frame) [
    | err e ↦ err e
    | ok events ↦ elim (parse_each frames) [ err e ↦ err e | ok more ↦ ok (events ++ more) ]
  ]

  pub parse_sse_frames : List ℕ → Result SyntaxError (List (ParsedSseEvent D) × List ℕ)
  unfolding normalize_lines split_frames parse_each
  parse_sse_frames buffer =
      let (frames, remainder) = split_frames (normalize_lines buffer) in
      elim (parse_each frames) [ err e ↦ err e | ok events ↦ ok (events, remainder) ]

  -- The events that are yielded, and how the reading ends. `chunks` are the decoded ones, and `flush`
  -- is what the decoder gives at the end of the stream.
  pub read_sse_stream :
      List ℕ → List (List ℕ) → List ℕ → List (ParsedSseEvent D) × Result SyntaxError (Unit {0})
  unfolding parse_sse_frames
  read_sse_stream buffer [] flush = elim (parse_frame (buffer ++ flush)) [
    | err e ↦ ([], err e)
    | ok trailing ↦ (trailing, ok tt)
  ]
  read_sse_stream buffer (chunk ∷ chunks) flush = elim (parse_sse_frames (buffer ++ chunk)) [
    | err e ↦ ([], err e)
    | ok (events, remainder) ↦
        let (more, end) = read_sse_stream remainder chunks flush in (events ++ more, end)
  ]

module _ {D : Type 0} (stringify : D → List ℕ) where
  -- `event: ${event}\ndata: ${JSON.stringify(data)}`.
  abbrev pub frame_body : ParsedSseEvent D → List ℕ
  frame_body e =
      (event_field ++ 32 ∷ e.event) ++ newline ∷ (data_field ++ 32 ∷ stringify e.event_data)

  -- What is written, and the answer; `closed` and `closes` tell whether the response is destroyed or
  -- ended before the write and behind it, and `drained` what `response.write` returns.
  pub write_sse_event : Bool → Bool → Bool → ParsedSseEvent D → List ℕ × Bool
  write_sse_event closed drained closes e =
      if closed
      then ([], false)
      else (frame_body e ++ newline ∷ newline ∷ [], if drained then true else not closes)
