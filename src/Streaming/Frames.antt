-- ===== src/Streaming/Frames.antt =====
-- sse-parser.ts: where a text is cut into chunks does not change its frames.
use mathlib.Core.List.{append-nil}
use proxy_ai.Base.{
  ℕ, ◌≡◌, ◌≢◌, refl, sym, ap, subst, ◌∙◌, Bool, true, false, ◌&&◌, List, [], ◌∷◌, ◌++◌, All,
  Bool-cases, inl, inr, ◌==◌, arith,
}
use proxy_ai.Streaming.{
  newline, carriage_return, normalize_lines, Parts, push, split_frames, split_lines,
}

abbrev pub behind : List (List ℕ) → Parts → Parts
behind ps (qs, last) = (ps ++ qs, last)

abbrev is_separator : ℕ → ℕ → Bool
is_separator c d = c == newline && d == newline

split_frames_sep :
    (c d : ℕ) (cs : List ℕ)
    → is_separator c d ≡ true
    → split_frames (c ∷ d ∷ cs) ≡ behind ([] ∷ []) (split_frames cs)
unfolding split_frames
split_frames_sep c d cs e = ground arith

split_frames_next :
    (c d : ℕ) (cs : List ℕ)
    → is_separator c d ≡ false
    → split_frames (c ∷ d ∷ cs) ≡ push c (split_frames (d ∷ cs))
unfolding split_frames
split_frames_next c d cs e = ground arith

-- A text in which no separator is found is what is left.
abbrev pub IsWhole : List ℕ → Parts → Type 0
IsWhole t ([], last) = last ≡ t
IsWhole t (p ∷ ps, last) = Unit {0}

push-IsWhole : (c : ℕ) (t : List ℕ) (q : Parts) → IsWhole t q → IsWhole (c ∷ t) (push c q)
push-IsWhole c t ([], last) h = ap (λ x. c ∷ x) h
push-IsWhole c t (p ∷ ps, last) h = tt

pub split_frames-IsWhole : (t : List ℕ) → IsWhole t (split_frames t)
unfolding split_frames
split_frames-IsWhole [] = refl
split_frames-IsWhole (c ∷ []) = refl
split_frames-IsWhole (c ∷ d ∷ cs) = elim (Bool-cases (is_separator c d)) [
  | inl e ↦ subst (IsWhole (c ∷ d ∷ cs)) (sym (split_frames_sep c d cs e)) tt
  | inr e ↦
      subst (IsWhole (c ∷ d ∷ cs)) (sym (split_frames_next c d cs e))
        (push-IsWhole c (d ∷ cs) (split_frames (d ∷ cs)) (split_frames-IsWhole (d ∷ cs)))
]

-- The parts of a text that goes on behind what was split.
abbrev pub goes_on : Parts → List ℕ → Parts
goes_on (ps, last) t = behind ps (split_frames (last ++ t))

push-goes_on :
    (c : ℕ) (s t : List ℕ) (q : Parts)
    → IsWhole s q
    → split_frames ((c ∷ s) ++ t) ≡ push c (split_frames (s ++ t))
    → push c (goes_on q t) ≡ goes_on (push c q) t
push-goes_on c s t ([], last) h e =
    subst (λ x. push c (split_frames (x ++ t)) ≡ split_frames ((c ∷ x) ++ t)) (sym h) (sym e)
push-goes_on c s t (p ∷ ps, last) h e = refl

-- Frames that are found in a text are found wherever the text is cut.
pub split_frames-append : (s t : List ℕ) → split_frames (s ++ t) ≡ goes_on (split_frames s) t
unfolding split_frames
split_frames-append [] t = refl
split_frames-append (c ∷ []) t = refl
split_frames-append (c ∷ d ∷ cs) t = elim (Bool-cases (is_separator c d)) [
  | inl e ↦
      split_frames_sep c d (cs ++ t) e
      ∙ ap (behind ([] ∷ [])) (split_frames-append cs t)
      ∙ ap (λ q. goes_on q t) (sym (split_frames_sep c d cs e))
  | inr e ↦
      let next = split_frames_next c d (cs ++ t) e in
      next
      ∙ ap (push c) (split_frames-append (d ∷ cs) t)
      ∙ push-goes_on c (d ∷ cs) t (split_frames (d ∷ cs)) (split_frames-IsWhole (d ∷ cs)) next
      ∙ ap (λ q. goes_on q t) (sym (split_frames_next c d cs e))
]

abbrev pub IsLine : List ℕ → Type 0
IsLine t = All (λ c. c ≢ newline) t

abbrev push_all : List ℕ → Parts → Parts
push_all [] q = q
push_all (c ∷ cs) q = push c (push_all cs q)

push_all-behind :
    (line p : List ℕ) (q : Parts) → push_all line (behind (p ∷ []) q) ≡ behind ((line ++ p) ∷ []) q
push_all-behind [] p q = refl
push_all-behind (c ∷ cs) p q = ap (push c) (push_all-behind cs p q)

split_frames-push :
    (c : ℕ) (t : List ℕ) → c ≢ newline → split_frames (c ∷ t) ≡ push c (split_frames t)
unfolding split_frames
split_frames-push c [] h = refl
split_frames-push c (d ∷ t) h = split_frames_next c d t (ground arith)

split_frames-line :
    (line t : List ℕ) → IsLine line → split_frames (line ++ t) ≡ push_all line (split_frames t)
split_frames-line [] t h = refl
split_frames-line (c ∷ cs) t h =
    split_frames-push c (cs ++ t) h.0 ∙ ap (push c) (split_frames-line cs t h.1)

-- Two lines and an empty one are a frame.
pub split_frames-frame :
    (line : List ℕ) (c : ℕ) (cs t : List ℕ)
    → IsLine line
    → IsLine (c ∷ cs)
    → split_frames (line ++ newline ∷ ((c ∷ cs) ++ newline ∷ newline ∷ t))
      ≡ behind ((line ++ newline ∷ ((c ∷ cs) ++ [])) ∷ []) (split_frames t)
split_frames-frame line c cs t h k =
    let rest = newline ∷ newline ∷ t in
    split_frames-line line (newline ∷ ((c ∷ cs) ++ rest)) h
    ∙ ap (push_all line) (
        split_frames_next newline c (cs ++ rest) (ground arith)
        ∙ ap (push newline) (
            split_frames-line (c ∷ cs) rest k
            ∙ ap (push_all (c ∷ cs)) (split_frames_sep newline newline t refl)
            ∙ push_all-behind (c ∷ cs) [] (split_frames t)))
    ∙ push_all-behind line (newline ∷ ((c ∷ cs) ++ [])) (split_frames t)

-- The lines of such a frame.
split_lines-push : (c : ℕ) (t : List ℕ) → c ≢ newline → split_lines (c ∷ t) ≡ push c (split_lines t)
unfolding split_lines
split_lines-push c t h = ground arith

split_lines-line :
    (line t : List ℕ) → IsLine line → split_lines (line ++ t) ≡ push_all line (split_lines t)
split_lines-line [] t h = refl
split_lines-line (c ∷ cs) t h =
    split_lines-push c (cs ++ t) h.0 ∙ ap (push c) (split_lines-line cs t h.1)

push_all_last : (line : List ℕ) → push_all line ([], []) ≡ ([], line)
push_all_last [] = refl
push_all_last (c ∷ cs) = ap (push c) (push_all_last cs)

split_lines-last : (last : List ℕ) → IsLine last → split_lines last ≡ ([], last)
unfolding split_lines
split_lines-last [] h = refl
split_lines-last (c ∷ cs) h = split_lines-push c cs h.0 ∙ ap (push c) (split_lines-last cs h.1)

pub split_lines-frame :
    (line last : List ℕ)
    → IsLine line
    → IsLine last
    → split_lines (line ++ newline ∷ last) ≡ (line ∷ [], last)
unfolding split_lines
split_lines-frame line last h k =
    let next : split_lines (newline ∷ last) ≡ behind ([] ∷ []) ([], last) =
      ap (behind ([] ∷ [])) (split_lines-last last k) in
    split_lines-line line (newline ∷ last) h
    ∙ ap (push_all line) next
    ∙ push_all-behind line [] ([], last)
    ∙ ap (λ x. (x ∷ [], last)) (append-nil line)

-- Nothing is normalized in a text without a carriage return.
abbrev pub IsPlain : List ℕ → Type 0
IsPlain t = All (λ c. c ≢ carriage_return) t

normalize_lines_next :
    (c d : ℕ) (cs : List ℕ)
    → c ≢ carriage_return
    → normalize_lines (c ∷ d ∷ cs) ≡ c ∷ normalize_lines (d ∷ cs)
unfolding normalize_lines
normalize_lines_next c d cs h = ground arith

pub normalize_lines-IsPlain : (t : List ℕ) → IsPlain t → normalize_lines t ≡ t
unfolding normalize_lines
normalize_lines-IsPlain [] h = refl
normalize_lines-IsPlain (c ∷ []) h = refl
normalize_lines-IsPlain (c ∷ d ∷ cs) h =
    normalize_lines_next c d cs h.0 ∙ ap (λ x. c ∷ x) (normalize_lines-IsPlain (d ∷ cs) h.1)

push-IsPlain : (c : ℕ) (q : Parts) → c ≢ carriage_return → IsPlain q.1 → IsPlain (push c q).1
push-IsPlain c ([], last) h k = (h, k)
push-IsPlain c (p ∷ ps, last) h k = k

pub split_frames-IsPlain : (t : List ℕ) → IsPlain t → IsPlain (split_frames t).1
unfolding split_frames
split_frames-IsPlain [] h = tt
split_frames-IsPlain (c ∷ []) h = h
split_frames-IsPlain (c ∷ d ∷ cs) h = elim (Bool-cases (is_separator c d)) [
  | inl e ↦
      subst (λ q. IsPlain q.1) (sym (split_frames_sep c d cs e)) (split_frames-IsPlain cs h.1.1)
  | inr e ↦
      subst (λ q. IsPlain q.1) (sym (split_frames_next c d cs e))
        (push-IsPlain c (split_frames (d ∷ cs)) h.0 (split_frames-IsPlain (d ∷ cs) h.1))
]
