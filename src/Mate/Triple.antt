-- ===== src/Mate/Triple.antt =====
-- Total-correctness triples of computations, with a rule for each way to build one.
use scrapemate.Prelude.{◌≡◌, refl, Bool, true, false, if◌then◌else◌, Option, none, some, ◌∷◌}
use scrapemate.Mate.Env.{Reply, replies, throws}
use scrapemate.Mate.Exec.{
  State, Event, call, answer, record_event, Outcome, returns, panics, out_of_fuel, Exec, and_then,
  ◌>>=◌, ◌>>◌, pure,
}

-- `R` after a return, `T` after a panic, and the fuel never runs out.
abbrev pub Ends : {S A : Type 0} → (A → S → Type 0) → (S → Type 0) → Outcome A → S → Type 0
Ends R T (returns a) s = R a s
Ends R T panics s = T s
Ends R T out_of_fuel s = ⊥

-- From every state that satisfies `P`, the computation ends so.
pub record Triple {S A : Type 0} (P : S → Type 0) (m : Exec S A) (R : A → S → Type 0)
    (T : S → Type 0) : Type 0 where
  pub at : (s : S) → P s → Ends R T (m s).0 (m s).1

module _ {S A B : Type 0} {T : S → Type 0} {R : A → S → Type 0} {Q : B → S → Type 0} where
  and_then-Ends :
      (f : A → Exec S B)
      → ((a : A) → Triple (R a) (f a) Q T)
      → (r : Outcome A × S) → Ends R T r.0 r.1
      → let b : Outcome B × S = and_then r f in Ends Q T b.0 b.1
  and_then-Ends f hf (returns a, s) h = (hf a).at s h
  and_then-Ends f hf (panics, s) h = h
  and_then-Ends f hf (out_of_fuel, s) h = h

  pub Triple-bind :
      {P : S → Type 0} (m : Exec S A) (f : A → Exec S B)
      → Triple P m R T
      → ((a : A) → Triple (R a) (f a) Q T)
      → Triple P (m >>= f) Q T
  Triple-bind m f hm hf = record { at = λ s p. and_then-Ends f hf (m s) (hm.at s p) }

module _ {S A : Type 0} {P T : S → Type 0} {R : A → S → Type 0} where
  pub Triple-if :
      (b : Bool) (m n : Exec S A)
      → (b ≡ true → Triple P m R T)
      → (b ≡ false → Triple P n R T)
      → Triple P (if b then m else n) R T
  Triple-if true m n hm hn = hm refl
  Triple-if false m n hm hn = hn refl

  pub Triple-pure : (a : A) → ((s : S) → P s → R a s) → Triple P (pure a) R T
  Triple-pure a h = record { at = h }

-- Without a panic the postcondition of the return holds.
pub Ends-returns :
    {S A : Type 0} (Q : S → Type 0) (o : Outcome A) (s : S) → Ends (λ _. Q) (λ _. ⊥) o s → Q s
Ends-returns Q (returns a) s h = h
Ends-returns Q panics s h = absurd h
Ends-returns Q out_of_fuel s h = absurd h

module _ {W J V : Type 0} {P T : State W J V → Type 0} where
  -- A call of foreign code changes only the world.
  pub Triple-call :
      {A : Type 0} {R : A → State W J V → Type 0} (f : W → Reply A × W)
      → ((s : State W J V) (w : W) (a : A) → P s → R a (record s { world = w }))
      → ((s : State W J V) (w : W) → P s → T (record s { world = w }))
      → Triple P (call f) R T
  Triple-call {A} {R} f h k = record { at = λ s p. go s p (f s.world) }
    where
      go : (s : State W J V) → P s → (r : Reply A × W) → Ends R T (answer s r).0 (answer s r).1
      go s p (replies a, w) = h s w a p
      go s p (throws, w) = k s w p

  pub Triple-event :
      {Q : State W J V → Type 0} (e : Event J V)
      → ((s : State W J V) → P s → Q (record s { trace = e ∷ s.trace }))
      → Triple P (record_event e) (λ _. Q) T
  Triple-event e h = record { at = h }

module _ {S B : Type 0} {T : S → Type 0} {R : S → Type 0} {Q : B → S → Type 0} where
  pub Triple-then :
      {P : S → Type 0} (m : Exec S (Unit {0})) (k : Exec S B)
      → Triple P m (λ _. R) T
      → Triple R k Q T
      → Triple P (m >> k) Q T
  Triple-then m k hm hk = Triple-bind m (λ _. k) hm (λ _. hk)

module _ {S A B : Type 0} {P T : S → Type 0} {R : B → S → Type 0} where
  pub Triple-option :
      (o : Option A) (m : Exec S B) (f : A → Exec S B)
      → (o ≡ none → Triple P m R T)
      → ((a : A) → o ≡ some a → Triple P (f a) R T)
      → Triple P (elim o [ none ↦ m | some a ↦ f a ]) R T
  Triple-option none m f hm hf = hm refl
  Triple-option (some a) m f hm hf = hf a refl

module _ {S A : Type 0} {P T T' : S → Type 0} {R R' : A → S → Type 0} where
  pub Triple-weaken :
      (m : Exec S A)
      → Triple P m R T
      → ((a : A) (s : S) → R a s → R' a s)
      → ((s : S) → T s → T' s)
      → Triple P m R' T'
  Triple-weaken m h f g = record { at = λ s p. go (m s) (h.at s p) }
    where
      go : (r : Outcome A × S) → Ends R T r.0 r.1 → Ends R' T' r.0 r.1
      go (returns a, s) x = f a s x
      go (panics, s) x = g s x
      go (out_of_fuel, s) x = x

module _ {S A : Type 0} {P P' : S → Type 0} {R R' : A → S → Type 0} where
  -- Two results about one computation that does not panic.
  pub Triple-both :
      (m : Exec S A)
      → Triple P m R (λ _. ⊥)
      → Triple P' m R' (λ _. ⊥)
      → Triple (λ s. P s × P' s) m (λ a s. R a s × R' a s) (λ _. ⊥)
  Triple-both m h k = record { at = λ s p. go (m s) (h.at s p.0) (k.at s p.1) }
    where
      go :
          (r : Outcome A × S)
          → Ends R (λ _. ⊥) r.0 r.1
          → Ends R' (λ _. ⊥) r.0 r.1
          → Ends (λ a s. R a s × R' a s) (λ _. ⊥) r.0 r.1
      go (returns a, s) x y = (x, y)
      go (panics, s) x y = x
      go (out_of_fuel, s) x y = x
