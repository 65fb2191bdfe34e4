-- ===== src/Recovery/Discovery.antt =====
-- enqueue-recovery.service.ts: the discovery reaches every request of the log, and ends.
use mathlib.Core.List.{append_assoc}
use proxy_ai.Base.{
  ℕ, zero, suc, ◌≤◌, ◌<◌, ◌≡◌, refl, sym, ap, subst, ◌∙◌, Option, none, some, List, [], ◌∷◌, ◌++◌,
  All, Bool-cases, inl, inr, ltb, take, drop, length, if◌then◌else◌, arith,
}
use proxy_ai.Recovery.{
  RecoveryRequestSource, EnqueueRecoveryScope, expected_recovery_scopes, scopes_of, behind_cursor,
  list_request_log_batch, last_cursor, discover_loop, discover_missing_recovery_records,
}

-- The log is in the order of its cursors, which are all different.
abbrev pub IsAscending : List RecoveryRequestSource → Type 0
IsAscending [] = Unit {0}
IsAscending (s ∷ ss) = All (λ t. s.cursor_id < t.cursor_id) ss × IsAscending ss

behind_cursor-All :
    (c : ℕ) (logs : List RecoveryRequestSource)
    → All (λ t. c < t.cursor_id) logs
    → behind_cursor (some c) logs ≡ logs
unfolding behind_cursor
behind_cursor-All c [] h = refl
behind_cursor-All c (s ∷ logs) h =
    let rest = behind_cursor-All c logs h.1 in let first = h.0 in ground arith

head_before :
    (s x : RecoveryRequestSource) (xs ys : List RecoveryRequestSource)
    → All (λ t. s.cursor_id < t.cursor_id) (xs ++ x ∷ ys)
    → s.cursor_id < x.cursor_id
head_before s x [] ys h = h.0
head_before s x (y ∷ xs) ys h = head_before s x xs ys h.1

behind_cursor-cut :
    (x : RecoveryRequestSource) (xs ys : List RecoveryRequestSource)
    → IsAscending (xs ++ x ∷ ys)
    → behind_cursor (some x.cursor_id) (xs ++ x ∷ ys) ≡ ys
unfolding behind_cursor
behind_cursor-cut x [] ys h = let rest = behind_cursor-All x.cursor_id ys h.0 in ground arith
behind_cursor-cut x (s ∷ xs) ys h =
    let less = head_before s x xs ys h.0 in let rest = behind_cursor-cut x xs ys h.1 in ground arith

-- A list that is not empty, by its last entry.
last_cases :
    (s : RecoveryRequestSource) (ss : List RecoveryRequestSource)
    → (xs : List RecoveryRequestSource) × (x : RecoveryRequestSource) × (s ∷ ss ≡ xs ++ x ∷ [])
      × (last_cursor (s ∷ ss) ≡ some x.cursor_id)
unfolding last_cursor
last_cases s [] = ([], s, refl, refl)
last_cases s (t ∷ ss) = let (xs, x, e, l) = last_cases t ss in (s ∷ xs, x, ap (λ y. s ∷ y) e, l)

scopes_of-append :
    (xs ys : List RecoveryRequestSource) → scopes_of (xs ++ ys) ≡ scopes_of xs ++ scopes_of ys
unfolding scopes_of
scopes_of-append [] ys = refl
scopes_of-append (x ∷ xs) ys =
    let own = expected_recovery_scopes x in
    ap (λ z. own ++ z) (scopes_of-append xs ys)
    ∙ sym (append_assoc own (scopes_of xs) (scopes_of ys))

take_short : (k : ℕ) (ss : List RecoveryRequestSource) → length (take k ss) < k → take k ss ≡ ss
take_short zero ss h = ground arith
take_short (suc k) [] h = refl
take_short (suc k) (s ∷ ss) h = ap (λ y. s ∷ y) (take_short k ss (omega arith))

take-drop : (k : ℕ) (ss : List RecoveryRequestSource) → take k ss ++ drop k ss ≡ ss
take-drop zero ss = refl
take-drop (suc k) [] = refl
take-drop (suc k) (s ∷ ss) = ap (λ y. s ∷ y) (take-drop k ss)

length-drop_le : (k : ℕ) (ss : List RecoveryRequestSource) → length (drop k ss) ≤ length ss
length-drop_le zero ss = omega arith
length-drop_le (suc k) [] = omega arith
length-drop_le (suc k) (s ∷ ss) = let rest = length-drop_le k ss in omega arith

module _ (k : ℕ) where
  -- A round of the loop, with its batch.
  abbrev round :
      ℕ
      → List RecoveryRequestSource
      → List EnqueueRecoveryScope
      → List RecoveryRequestSource
      → Option (List EnqueueRecoveryScope)
  round fuel logs found records = elim (last_cursor records) [
    | none ↦ some (found ++ scopes_of records)
    | some c ↦
        if ltb (length records) (suc k)
        then some (found ++ scopes_of records)
        else discover_loop (suc k) fuel logs (some c) (found ++ scopes_of records)
  ]

  round_empty :
      (fuel : ℕ) (logs : List RecoveryRequestSource) (found : List EnqueueRecoveryScope)
      → round fuel logs found [] ≡ some (found ++ scopes_of [])
  unfolding last_cursor
  round_empty fuel logs found = refl

  loop_round :
      (fuel : ℕ) (logs : List RecoveryRequestSource) (after : Option ℕ)
      (found : List EnqueueRecoveryScope) (suf : List RecoveryRequestSource)
      → behind_cursor after logs ≡ suf
      → discover_loop (suc k) (suc fuel) logs after found ≡ round fuel logs found (take (suc k) suf)
  unfolding discover_loop list_request_log_batch
  loop_round fuel logs after found suf e = ap (λ b. round fuel logs found (take (suc k) b)) e

  -- The loop from any point of the log on, with enough fuel.
  loop-all :
      (fuel : ℕ) (pre suf : List RecoveryRequestSource) (after : Option ℕ)
      (found : List EnqueueRecoveryScope)
      → behind_cursor after (pre ++ suf) ≡ suf
      → IsAscending (pre ++ suf)
      → length suf < fuel
      → discover_loop (suc k) fuel (pre ++ suf) after found ≡ some (found ++ scopes_of suf)
  loop-all zero pre suf after found e order enough = ground arith
  loop-all (suc fuel) pre [] after found e order enough =
      loop_round fuel (pre ++ []) after found [] e ∙ round_empty fuel (pre ++ []) found
  loop-all (suc fuel) pre (s ∷ ss) after found e order enough =
      let logs = pre ++ s ∷ ss in
      let records = s ∷ take k ss in
      let (xs, x, cut, l) = last_cases s (take k ss) in
      let first = loop_round fuel logs after found (s ∷ ss) e in
      elim (Bool-cases (ltb (length records) (suc k))) [
        | inl short ↦
            let whole = take_short k ss (ground arith) in
            let ends : round fuel logs found records ≡ some (found ++ scopes_of records) =
              ground arith in
            first ∙ ends ∙ ap (λ z. some (found ++ scopes_of (s ∷ z))) whole
        | inr full ↦
            let goes_on : round fuel logs found records
                ≡ discover_loop (suc k) fuel logs (some x.cursor_id) (found ++ scopes_of records) =
              ground arith in
            let split : records ++ drop k ss ≡ s ∷ ss = ap (λ z. s ∷ z) (take-drop k ss) in
            let same : (pre ++ records) ++ drop k ss ≡ logs =
              append_assoc pre records (drop k ss) ∙ ap (λ z. pre ++ z) split in
            let ends_with : (pre ++ xs) ++ x ∷ drop k ss ≡ logs =
              append_assoc pre xs (x ∷ drop k ss)
              ∙ ap (λ z. pre ++ z)
                  (sym (append_assoc xs (x ∷ []) (drop k ss))
                    ∙ ap (λ z. z ++ drop k ss) (sym cut)
                    ∙ split) in
            let cursor =
              subst (λ z. behind_cursor (some x.cursor_id) z ≡ drop k ss) ends_with
                (behind_cursor-cut x (pre ++ xs) (drop k ss)
                  (subst IsAscending (sym ends_with) order)) in
            let size = length-drop_le k ss in
            let rest =
              loop-all fuel (pre ++ records) (drop k ss) (some x.cursor_id)
                (found ++ scopes_of records)
                (subst (λ z. behind_cursor (some x.cursor_id) z ≡ drop k ss) (sym same) cursor)
                (subst IsAscending (sym same) order) (omega arith) in
            let rest' =
              subst
                (λ z.
                  discover_loop (suc k) fuel z (some x.cursor_id) (found ++ scopes_of records)
                  ≡ some ((found ++ scopes_of records) ++ scopes_of (drop k ss)))
                same rest in
            first
            ∙ goes_on
            ∙ rest'
            ∙ ap some (
                append_assoc found (scopes_of records) (scopes_of (drop k ss))
                ∙ ap (λ z. found ++ z)
                    (sym (scopes_of-append records (drop k ss)) ∙ ap scopes_of split))
      ]

-- The discovery ends and reaches all: for a log in the order of its cursors, more rounds than the log
-- has requests are enough for the loop, and exactly the scopes of every request are made pending.
pub discover_missing_all :
    (fuel : ℕ) (logs : List RecoveryRequestSource)
    → IsAscending logs
    → length logs < fuel
    → discover_missing_recovery_records fuel logs ≡ some (scopes_of logs)
unfolding discover_missing_recovery_records behind_cursor
discover_missing_all fuel logs order enough = loop-all 99 fuel [] logs none [] refl order enough
