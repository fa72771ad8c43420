-- ===== src/Integrity/Frame.antt =====
-- What is shared by the rules for the requests that write users and roles: a request starts in P and
-- leaves I, and both read nothing but the documents.
use openapi_nestjs_auth_mong.Prelude.{String, ◌≡◌, refl, arith}
use openapi_nestjs_auth_mong.Platform.{Platform}
use openapi_nestjs_auth_mong.Handler.{
  World, Outcome, returns, throws, Handler, go_on, ◌>>=◌, ◌>>◌, tick, query,
}
use openapi_nestjs_auth_mong.Handler.Rules.{
  After, Ensures, IsQuiet, OnDocuments, skip-Ensures, skip_then-Ensures, ask-Ensures,
}
use openapi_nestjs_auth_mong.Integrity.{HasRole}

pub record Frame (I P : World → Type 0) : Type 0 where
  pub before : OnDocuments P
  pub after : OnDocuments I
  pub weaken : (w : World) → P w → I w

-- What the handler returns has the property, wherever it starts.
pub record Finds {A : Type 0} (Q : A → Type 0) (m : Handler A) : Type 0 where
  pub finds : (w : World) (a : A) → (m w).0 ≡ returns a → Q a

-- The role exists beside P.
abbrev pub Ready : (World → Type 0) → Platform → String → World → Type 0
Ready P p role w = P w × HasRole p role w

module _ {I P : World → Type 0} (frame : Frame I P) where
  pub Ready-Frame : (p : Platform) (role : String) → Frame I (Ready P p role)
  Ready-Frame p role = record {
    before = λ w v same h. (frame.before w v same h.0, (h.1.0, rw same.1 (h.1.1)));
    after = frame.after;
    weaken = λ w h. frame.weaken w h.0;
  }

  pub skip :
      {A B : Type 0} {m : Handler A} {f : A → Handler B}
      → IsQuiet m
      → ((a : A) → Ensures I P (f a) (λ _. I))
      → Ensures I P (m >>= f) (λ _. I)
  skip {m} {f} quiet rest = skip-Ensures I {m = m} {f = f} frame.before frame.weaken quiet rest

  pub skip_then :
      {A B : Type 0} {m : Handler A} {n : Handler B}
      → IsQuiet m
      → Ensures I P n (λ _. I)
      → Ensures I P (m >> n) (λ _. I)
  skip_then {m} {n} quiet rest =
      skip_then-Ensures I {m = m} {n = n} frame.before frame.weaken quiet rest

  -- A quiet step whose result has a property.
  pub skip_found :
      {A B : Type 0} {m : Handler A} {f : A → Handler B} {Q : A → Type 0}
      → IsQuiet m
      → Finds Q m
      → ((a : A) → Q a → Ensures I P (f a) (λ _. I))
      → Ensures I P (m >>= f) (λ _. I)
  skip_found {A} {m} {f} {Q} quiet found rest = record {
    at = λ w h. go (m w).0 (m w).1 (found.finds w) (frame.before w (m w).1 (quiet.quiet w) h);
  }
    where
      go :
          (o : Outcome A) (v : World)
          → ((a : A) → o ≡ returns a → Q a)
          → P v
          → After (λ _. I) I (go_on f o v).0 (go_on f o v).1
      go (returns a) v q h = (rest a (q a refl)).at v h
      go (throws e) v q h = frame.weaken v h

  pub ask :
      {A : Type 0} (p : Platform) (f : World → A) (Q : A → World → Type 0)
      → ((w : World) → P (tick w) → Q (f w) (tick w))
      → Ensures I P (query p f) Q
  ask p f Q found =
      ask-Ensures p frame.after frame.weaken f Q
        λ w h. found w (frame.before w (tick w) (ground arith) h)
