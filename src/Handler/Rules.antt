-- ===== src/Handler/Rules.antt =====
-- Rules for what an action leaves behind, whether it returns or throws.
use openapi_nestjs_auth_mong.Prelude.{
  if◌then◌else◌, map-eq-some, some-inj, keep, ◌≡◌, refl, subst, Bool, true, false, Option, none,
  some, arith,
}
use openapi_nestjs_auth_mong.Http.{Exception, failure}
use openapi_nestjs_auth_mong.Platform.{Platform}
use openapi_nestjs_auth_mong.Handler.{
  World, Outcome, returns, throws, Handler, go_on, ◌>>=◌, ◌>>◌, pure, not_null, catch_all, or_throw,
  tick, query, stored, write, SameDocuments,
}
use mathlib.Core.Option

module _ {A : Type 0} (Q : A → World → Type 0) (I : World → Type 0) where
  abbrev pub After : Outcome A → World → Type 0
  After (returns a) w = Q a w
  After (throws e) w = I w

-- From P the action ends in Q of its result, or in I if it throws.
pub record Ensures {A : Type 0} (I P : World → Type 0) (m : Handler A) (Q : A → World → Type 0)
    : Type 0 where
  pub at : (w : World) → P w → After Q I (m w).0 (m w).1

-- The action writes no document.
pub record IsQuiet {A : Type 0} (m : Handler A) : Type 0 where
  pub quiet : (w : World) → SameDocuments w (m w).1

-- The property reads nothing but the documents.
abbrev pub OnDocuments : (World → Type 0) → Type 0
OnDocuments P = (w v : World) → SameDocuments w v → P w → P v

module _ {A B : Type 0} (I : World → Type 0) where
  go_on-After :
      (Q : A → World → Type 0) (f : A → Handler B) (R : B → World → Type 0)
      → ((a : A) → Ensures I (Q a) (f a) R)
      → (o : Outcome A) (w : World) → After Q I o w
      → After R I (go_on f o w).0 (go_on f o w).1
  go_on-After Q f R h (returns a) w q = (h a).at w q
  go_on-After Q f R h (throws e) w q = q

  pub bind-Ensures :
      {P : World → Type 0} {m : Handler A} {f : A → Handler B} (Q : A → World → Type 0)
      {R : B → World → Type 0}
      → Ensures I P m Q
      → ((a : A) → Ensures I (Q a) (f a) R)
      → Ensures I P (m >>= f) R
  bind-Ensures {m} {f} Q {R} first rest = record {
    at = λ w q. go_on-After Q f R rest (m w).0 (m w).1 (first.at w q);
  }

  pub then-Ensures :
      {P : World → Type 0} {m : Handler A} {n : Handler B} (Q : A → World → Type 0)
      {R : B → World → Type 0}
      → Ensures I P m Q
      → ((a : A) → Ensures I (Q a) n R)
      → Ensures I P (m >> n) R
  then-Ensures {m} {n} Q {R} first rest = record {
    at = λ w q. go_on-After Q (λ _. n) R rest (m w).0 (m w).1 (first.at w q);
  }

module _ {A : Type 0} (I : World → Type 0) where
  catch-After :
      (e : Exception) (Q : A → World → Type 0) (o : Outcome A) (w : World)
      → After Q I o w
      → After Q I (catch_all e o) w
  catch-After e Q (returns a) w h = h
  catch-After e Q (throws _) w h = h

  After_kept : (o : Outcome A) (w : World) → After (λ _. I) I o w → I w
  After_kept (returns a) w h = h
  After_kept (throws e) w h = h

module _ {A : Type 0} {I : World → Type 0} where
  weakened :
      (P : World → Type 0)
      → ((w : World) → P w → I w)
      → (o : Outcome A) (w : World) → P w
      → After (λ _. P) I o w
  weakened P weaken (returns a) w h = h
  weakened P weaken (throws e) w h = weaken w h

  pub quiet-Ensures :
      {P : World → Type 0} {m : Handler A}
      → OnDocuments P
      → ((w : World) → P w → I w)
      → IsQuiet m
      → Ensures I P m (λ _. P)
  quiet-Ensures {P} {m} docs weaken q = record {
    at = λ w h. weakened P weaken (m w).0 (m w).1 (docs w (m w).1 (q.quiet w) h);
  }

  pub or_throw-Ensures :
      {P : World → Type 0} {m : Handler A} {Q : A → World → Type 0} (e : Exception)
      → Ensures I P m Q
      → Ensures I P (or_throw m e) Q
  or_throw-Ensures {m} {Q} e h = record { at = λ w q. catch-After I e Q (m w).0 (m w).1 (h.at w q) }

  -- What the action ensures, returning or not, holds in the world that it leaves.
  pub kept :
      {P : World → Type 0} {m : Handler A} → Ensures I P m (λ _. I) → (w : World) → P w → I (m w).1
  kept {m} h w i = After_kept I (m w).0 (m w).1 (h.at w i)

  pub weaken-Ensures :
      {P : World → Type 0} {m : Handler A} {Q : A → World → Type 0}
      → ((a : A) (w : World) → Q a w → I w)
      → Ensures I P m Q
      → Ensures I P m (λ _. I)
  weaken-Ensures {m} {Q} weaken h = record { at = λ w q. go (m w).0 (m w).1 (h.at w q) }
    where
      go : (o : Outcome A) (w : World) → After Q I o w → After (λ _. I) I o w
      go (returns a) w x = weaken a w x
      go (throws e) w x = x

  pub pure-Ensures : {P : World → Type 0} (a : A) → Ensures I P (pure a) (λ _. P)
  pure-Ensures a = record { at = λ w h. h }

module _ (p : Platform) (I : World → Type 0) where
  asked :
      {A : Type 0} (Q : A → World → Type 0) (b : Bool) (a : A) (w : World)
      → I w
      → Q a w
      → After Q I (if b then returns a else throws failure) w
  asked Q true a w i q = q
  asked Q false a w i q = i

  written :
      (b : Bool) (o : Option World) (w : World)
      → I w
      → ((w' : World) → o ≡ some w' → I w')
      → After
          (λ _. I)
          I
          (if b then stored p o w else (throws failure, w)).0
          (if b then stored p o w else (throws failure, w)).1
  written true none w i h = i
  written true (some w') w i h = h w' refl
  written false o w i h = i

module _ {A : Type 0} (I : World → Type 0) where
  pub not_null-Ensures : (o : Option A) → Ensures I I (not_null o) (λ _. I)
  not_null-Ensures none = record { at = λ w h. h }
  not_null-Ensures (some a) = record { at = λ w h. h }

  -- A quiet step before an action that keeps an invariant.
  pub skip-Ensures :
      {B : Type 0} {P : World → Type 0} {m : Handler A} {f : A → Handler B}
      → OnDocuments P
      → ((w : World) → P w → I w)
      → IsQuiet m
      → ((a : A) → Ensures I P (f a) (λ _. I))
      → Ensures I P (m >>= f) (λ _. I)
  skip-Ensures {P} docs weaken q rest = bind-Ensures I (λ _. P) (quiet-Ensures docs weaken q) rest

  pub skip_then-Ensures :
      {B : Type 0} {P : World → Type 0} {m : Handler A} {n : Handler B}
      → OnDocuments P
      → ((w : World) → P w → I w)
      → IsQuiet m
      → Ensures I P n (λ _. I)
      → Ensures I P (m >> n) (λ _. I)
  skip_then-Ensures {P} docs weaken q rest =
      then-Ensures I (λ _. P) (quiet-Ensures docs weaken q) (λ _. rest)

-- The two ways in which an action meets the database, and the moments.
module _ (p : Platform) {I P : World → Type 0} where
  pub query-Ensures :
      {A : Type 0} (f : World → A) (Q : A → World → Type 0)
      → ((w : World) → P w → I (tick w))
      → ((w : World) → P w → Q (f w) (tick w))
      → Ensures I P (query p f) Q
  query-Ensures f Q quiet found = record {
    at = λ w h. asked p I Q (p.reachable w.moment) (f w) (tick w) (quiet w h) (found w h);
  }

  pub write-Ensures :
      (f : World → Option World)
      → ((w : World) → P w → I (tick w))
      → ((w w' : World) → P w → f (tick w) ≡ some w' → I w')
      → Ensures I P (write p f) (λ _. I)
  write-Ensures f quiet wrote = record {
    at = λ w h.
        written p I (p.reachable w.moment) (f (tick w)) (tick w) (quiet w h)
          (λ w' e. wrote w w' h e);
  }

-- A write of what the driver made of the documents.
module _ (p : Platform) {I P : World → Type 0} (docs : OnDocuments I)
    (weaken : (w : World) → P w → I w) where
  tick_weaken : (w : World) → P w → I (tick w)
  tick_weaken w h = docs w (tick w) (ground arith) (weaken w h)

  pub store-Ensures :
      {A : Type 0} (put : World → A → World) (made : World → Option A)
      → ((w : World) (a : A) → P w → made (tick w) ≡ some a → I (put (tick w) a))
      → Ensures I P (write p (λ w. Option.map (put w) (made w))) (λ _. I)
  store-Ensures put made keep =
      write-Ensures p (λ w. Option.map (put w) (made w)) tick_weaken
        λ w w' h e.
          let (a, saved, is) = map-eq-some (put (tick w)) (made (tick w)) e in
          subst I is (keep w a h saved)

  pub remove-Ensures :
      (put : World → World)
      → ((w : World) → P w → I (put (tick w)))
      → Ensures I P (write p (λ w. some (put w))) (λ _. I)
  remove-Ensures put keep =
      write-Ensures p (λ w. some (put w)) tick_weaken λ w w' h e. subst I (some-inj e) (keep w h)

  pub ask-Ensures :
      {A : Type 0} (f : World → A) (Q : A → World → Type 0)
      → ((w : World) → P w → Q (f w) (tick w))
      → Ensures I P (query p f) Q
  ask-Ensures f Q found = query-Ensures p f Q tick_weaken found

-- A request that returns after a quiet guard did so from a world with the same documents.
module _ {A B : Type 0} (n : Handler B) (b : B) where
  went_on :
      (o : Outcome A) (v : World)
      → (go_on (λ _. n) o v).0 ≡ returns b
      → ((n v).0 ≡ returns b) × ((n v).1 ≡ (go_on (λ _. n) o v).1)
  went_on (returns a) v h = (h, refl)
  went_on (throws e) v h = ground arith

  pub past_guard :
      (m : Handler A) (w : World)
      → ((m >> n) w).0 ≡ returns b
      → ((n (m w).1).0 ≡ returns b) × ((n (m w).1).1 ≡ ((m >> n) w).1)
  past_guard m w h = went_on (m w).0 (m w).1 h

-- A bind that returns: what its first part returned, and that the rest went on from there.
module _ {A B : Type 0} (f : A → Handler B) (b : B) where
  bind_went_on :
      (o : Outcome A) (v : World)
      → (go_on f o v).0 ≡ returns b
      → (a : A) × (o ≡ returns a) × ((f a v).0 ≡ returns b) × ((f a v).1 ≡ (go_on f o v).1)
  bind_went_on (returns a) v h = (a, refl, h, refl)
  bind_went_on (throws e) v h = ground arith

  pub past_bind :
      (m : Handler A) (w : World)
      → ((m >>= f) w).0 ≡ returns b
      → (a : A) × ((m w).0 ≡ returns a)
        × ((f a (m w).1).0 ≡ returns b)
        × ((f a (m w).1).1 ≡ ((m >>= f) w).1)
  past_bind m w h = bind_went_on (m w).0 (m w).1 h
