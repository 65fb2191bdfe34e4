-- ===== src/Chat/Rules.antt =====
-- Rules for what holds behind a computation over a trace: of its result, and of the calls made.
use proxy_ai.Base.{◌≡◌, refl, Bool, true, false, if◌then◌else◌, Result, ok, err}
use proxy_ai.Chat.Trace.{Trace, Act, map_error, catch, continue, ◌>>=◌}

module _ {E A B : Type 0} (P : Result E B → Trace → Type 0) where
  continue_rule :
      (r : Result E A) (f : A → Act E B) (h : Trace)
      → ((e : E) → r ≡ err e → P (err e) h)
      → ((a : A) → r ≡ ok a → P (f a h).0 (f a h).1)
      → let (r', h') = continue (r, h) f in P r' h'
  continue_rule (ok a) f h bad good = good a refl
  continue_rule (err e) f h bad good = bad e refl

  pub bind_rule :
      (m : Act E A) (f : A → Act E B) (h : Trace)
      → ((e : E) → (m h).0 ≡ err e → P (err e) (m h).1)
      → ((a : A) → (m h).0 ≡ ok a → P (f a (m h).1).0 (f a (m h).1).1)
      → let (r', h') = (m >>= f) h in P r' h'
  bind_rule m f h = continue_rule (m h).0 f (m h).1

module _ {E A : Type 0} (P : Result E A → Trace → Type 0) where
  pub either_rule :
      (b : Bool) (x y : Result E A × Trace)
      → P x.0 x.1
      → P y.0 y.1
      → let (r, h) = if b then x else y in P r h
  either_rule true x y p q = p
  either_rule false x y p q = q

module _ {E F A : Type 0} (P : Result F A → Trace → Type 0) where
  caught_rule :
      (r : Result E A) (handler : E → Act F A) (h : Trace)
      → ((a : A) → r ≡ ok a → P (ok a) h)
      → ((e : E) → r ≡ err e → P (handler e h).0 (handler e h).1)
      → let (r', h') = catch (λ _. (r, h)) handler h in P r' h'
  caught_rule (ok a) handler h good bad = good a refl
  caught_rule (err e) handler h good bad = bad e refl

  pub catch_rule :
      (m : Act E A) (handler : E → Act F A) (h : Trace)
      → ((a : A) → (m h).0 ≡ ok a → P (ok a) (m h).1)
      → ((e : E) → (m h).0 ≡ err e → P (handler e (m h).1).0 (handler e (m h).1).1)
      → let (r', h') = catch m handler h in P r' h'
  catch_rule m handler h = caught_rule (m h).0 handler (m h).1

  mapped_rule :
      (f : E → F) (r : Result E A) (h : Trace)
      → ((a : A) → r ≡ ok a → P (ok a) h)
      → ((e : E) → r ≡ err e → P (err (f e)) h)
      → let (r', h') = map_error f (λ _. (r, h)) h in P r' h'
  mapped_rule f (ok a) h good bad = good a refl
  mapped_rule f (err e) h good bad = bad e refl

  pub map_error_rule :
      (f : E → F) (m : Act E A) (h : Trace)
      → ((a : A) → (m h).0 ≡ ok a → P (ok a) (m h).1)
      → ((e : E) → (m h).0 ≡ err e → P (err (f e)) (m h).1)
      → let (r', h') = map_error f m h in P r' h'
  map_error_rule f m h = mapped_rule f (m h).0 (m h).1
