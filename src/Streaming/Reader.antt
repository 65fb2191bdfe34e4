-- ===== src/Streaming/Reader.antt =====
-- sse-parser.ts: a text of whole frames is read in chunks of any size.
use mathlib.Core.List.{append-nil, append_assoc}
use proxy_ai.Base.{
  ℕ, ◌≡◌, refl, sym, ap, subst, ◌∙◌, List, [], ◌∷◌, ◌++◌, length, length-append, All-prefix,
  All-suffix, All-append, Result, ok, Result-cases, inl, inr, arith,
}
use proxy_ai.Streaming.{
  Parts, split_frames, ParsedSseEvent, SyntaxError, parse_frame, parse_each, parse_sse_frames,
  read_sse_stream,
}
use proxy_ai.Streaming.Frames.{
  goes_on, IsWhole, split_frames-IsWhole, IsPlain, split_frames-append, normalize_lines-IsPlain,
  split_frames-IsPlain,
}

abbrev pub concat : List (List ℕ) → List ℕ
concat [] = []
concat (t ∷ ts) = t ++ concat ts

length_nil : {A : Type 0} (xs : List A) → length xs ≡ 0 → xs ≡ []
length_nil [] e = refl
length_nil (x ∷ xs) e = ground arith

nothing_behind : {A : Type 0} (xs ys : List A) → xs ≡ xs ++ ys → ys ≡ []
nothing_behind xs ys e =
    let size = ap length e in let sum = length-append xs ys in length_nil ys (omega arith)

-- What is left has no frame in it.
no_frames_left : (s : List ℕ) → (split_frames (split_frames s).1).0 ≡ []
no_frames_left s =
    let q = split_frames s in
    let again : q ≡ goes_on q [] =
      subst (λ x. split_frames x ≡ goes_on q []) (append-nil s) (split_frames-append s []) in
    subst (λ x. (split_frames x).0 ≡ []) (append-nil q.1)
      (nothing_behind q.0 _ (ap (λ x. x.0) again))

whole_empty : (t : List ℕ) (q : Parts) → IsWhole t q → q.0 ≡ [] → q.1 ≡ [] → t ≡ []
whole_empty t ([], last) h e f = sym h ∙ f
whole_empty t (p ∷ ps, last) h e f = ground arith

module _ {D : Type 0} (parse : List ℕ → Result SyntaxError D) where
  parse_each-append :
      (fs gs : List (List ℕ)) (es : List (ParsedSseEvent D))
      → parse_each parse (fs ++ gs) ≡ ok es
      → (ds : List (ParsedSseEvent D)) × (more : List (ParsedSseEvent D)) × (parse_each parse fs
          ≡ ok ds)
        × (parse_each parse gs ≡ ok more)
        × (es ≡ ds ++ more)
  unfolding parse_each
  parse_each-append [] gs es e = ([], es, refl, e, refl)
  parse_each-append (f ∷ fs) gs es e = elim (Result-cases (parse_frame parse f)) [
    | inr (x, bad) ↦ ground arith
    | inl (ds, good) ↦ elim (Result-cases (parse_each parse (fs ++ gs))) [
      | inr (x, bad) ↦ ground arith
      | inl (rest, fine) ↦
          let same : ds ++ rest ≡ es = ground arith in
          let (ds', more, e₁, e₂, e₃) = parse_each-append fs gs rest fine in
          (
            ds ++ ds',
            more,
            ground arith,
            e₂,
            sym same ∙ ap (λ x. ds ++ x) e₃ ∙ sym (append_assoc ds ds' more),
          )
    ]
  ]

  parse_plain :
      (t : List ℕ) (ds : List (ParsedSseEvent D))
      → IsPlain t
      → parse_each parse (split_frames t).0 ≡ ok ds
      → parse_sse_frames parse t ≡ ok (ds, (split_frames t).1)
  unfolding parse_sse_frames
  parse_plain t ds plain e = let same = normalize_lines-IsPlain t plain in ground arith

  read_chunk :
      (c : List ℕ) (cs : List (List ℕ)) (buffer : List ℕ) (ds : List (ParsedSseEvent D))
      (r : List ℕ) (more : List (ParsedSseEvent D))
      → parse_sse_frames parse (buffer ++ c) ≡ ok (ds, r)
      → read_sse_stream parse r cs [] ≡ (more, ok tt)
      → read_sse_stream parse buffer (c ∷ cs) [] ≡ (ds ++ more, ok tt)
  unfolding read_sse_stream
  read_chunk c cs buffer ds r more e f = ground arith

  -- A stream of whole frames, in chunks of any size.
  pub read-events :
      (chunks : List (List ℕ)) (buffer : List ℕ) (es : List (ParsedSseEvent D))
      → IsPlain (buffer ++ concat chunks)
      → (split_frames buffer).0 ≡ []
      → parse_each parse (split_frames (buffer ++ concat chunks)).0 ≡ ok es
      → (split_frames (buffer ++ concat chunks)).1 ≡ []
      → read_sse_stream parse buffer chunks [] ≡ (es, ok tt)
  unfolding read_sse_stream parse_sse_frames parse_frame parse_each
  read-events [] buffer es plain none_yet parsed ended =
      let left : (split_frames buffer).1 ≡ [] =
        subst (λ x. (split_frames x).1 ≡ []) (append-nil buffer) ended in
      let empty =
        whole_empty buffer (split_frames buffer) (split_frames-IsWhole buffer) none_yet left in
      let start : parse_each parse [] ≡ ok es =
        subst (λ x. parse_each parse x ≡ ok es)
          (ap (λ x. (split_frames x).0) (append-nil buffer) ∙ none_yet) parsed in
      let no_events : [] ≡ es = ground arith in
      subst (λ x. read_sse_stream parse x [] [] ≡ (es, ok tt)) (sym empty)
        (ap (λ x. (x, ok tt)) no_events)
  read-events (c ∷ cs) buffer es plain none_yet parsed ended =
      let whole = append_assoc buffer c (concat cs) in
      let (fs, r) = split_frames (buffer ++ c) in
      let split : split_frames (buffer ++ c ++ concat cs) ≡ goes_on (fs, r) (concat cs) =
        split_frames-append (buffer ++ c) (concat cs) in
      let plain' : IsPlain (buffer ++ c ++ concat cs) = subst IsPlain (sym whole) plain in
      let plain_chunk = All-prefix _ (buffer ++ c) (concat cs) plain' in
      let all = subst (λ x. split_frames x ≡ goes_on (fs, r) (concat cs)) whole split in
      let (ds, more, e₁, e₂, e₃) =
        parse_each-append fs (split_frames (r ++ concat cs)).0 es
          (subst (λ q. parse_each parse q.0 ≡ ok es) all parsed) in
      let plain'' =
        All-append _ r (concat cs) (split_frames-IsPlain (buffer ++ c) plain_chunk)
          (All-suffix _ (buffer ++ c) (concat cs) plain') in
      let rest =
        read-events cs r more plain'' (no_frames_left (buffer ++ c)) e₂
          (subst (λ q. q.1 ≡ []) all ended) in
      read_chunk c cs buffer ds r more (parse_plain (buffer ++ c) ds plain_chunk e₁) rest
      ∙ ap (λ x. (x, ok tt)) (sym e₃)
