-- ===== src/Mate/Start/Sums.antt =====
-- Sums over the workers, and what one move changes of them.
use scrapemate.Prelude.{ℕ, zero, suc, ◌+◌, ◌≡◌, List, [], ◌∷◌, ◌++◌, replicate, refl, ap, arith}
use scrapemate.Mate.Start.{Pc, selecting, stopped, AllStopped}

module _ {J V : Type 0} (weight : Pc J V → ℕ) where
  abbrev pub sum : List (Pc J V) → ℕ
  sum [] = 0
  sum (p ∷ ps) = weight p + sum ps

  sum-append : (ps qs : List (Pc J V)) → sum (ps ++ qs) ≡ sum ps + sum qs
  sum-append [] qs = omega arith
  sum-append (p ∷ ps) qs = omega (arith, sum-append ps qs)

  -- One worker goes from `p` to `q`.
  pub sum-move :
      (ws before after : List (Pc J V)) (p q : Pc J V)
      → ws ≡ before ++ (p ∷ after)
      → sum (before ++ (q ∷ after)) + weight p ≡ sum ws + weight q
  sum-move ws before after p q h =
      let here = ap sum h in
      omega (arith, here, sum-append before (p ∷ after), sum-append before (q ∷ after))

  pub sum-AllStopped : weight stopped ≡ 0 → (ws : List (Pc J V)) → AllStopped ws → sum ws ≡ 0
  sum-AllStopped h [] a = refl
  sum-AllStopped h (p ∷ ws) (here, rest) =
      omega (arith, ap weight here, h, sum-AllStopped h ws rest)

  pub sum-replicate : weight selecting ≡ 0 → (n : ℕ) → sum (replicate n selecting) ≡ 0
  sum-replicate h zero = refl
  sum-replicate h (suc n) = omega (arith, h, sum-replicate h n)

pub AllStopped-at :
    {J V : Type 0} (before after : List (Pc J V)) (p : Pc J V)
    → AllStopped (before ++ (p ∷ after))
    → p ≡ stopped
AllStopped-at [] after p (h, _) = h
AllStopped-at (b ∷ before) after p (_, rest) = AllStopped-at before after p rest
