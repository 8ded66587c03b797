-- ===== src/Venue/Calls.antt =====
-- Calls in a row: how the first one's outcome decides the rest.
use wickra_exchange.Prelude.{◌≡◌, refl, ap, ◌⊎◌, inl, inr}
use wickra_exchange.Error.{Error, Result, ok, err}
use wickra_exchange.Venue.{Call, lift, ◌>>=◌, ◌>>◌}

-- Nothing but an error comes of a call: no state has changed.
abbrev pub IsRefused : {A S : Type 0} → Result A × S → S → Type 0
IsRefused {A} {S} outcome s = (e : Error) × (outcome ≡ (err e, s))

module _ {A B S : Type 0} (f : Call S A) (g : A → Call S B) (s t : S) where
  pub call_err : (e : Error) → f s ≡ (err e, t) → (f >>= g) s ≡ (err e, t)
  call_err e h =
      ap (λ p. let (r, after) = p in elim r [ err x ↦ (err x, after) | ok a ↦ g a after ]) h

  pub call_ok : (a : A) → f s ≡ (ok a, t) → (f >>= g) s ≡ g a t
  call_ok a h =
      ap (λ p. let (r, after) = p in elim r [ err x ↦ (err x, after) | ok b ↦ g b after ]) h

-- Three checks in front of a call: one of them fails, or only the call is left.
pub three_checks :
    {X B S : Type 0} (a b : Result (Unit {0})) (x : Result X) (k : X → Call S B) (s : S)
    → let outcome = (lift a >> lift b >> lift x >>= k) s in
      IsRefused outcome s ⊎ ((y : X) × (a ≡ ok tt) × (x ≡ ok y) × (outcome ≡ k y s))
three_checks (err e) b x k s = inl (e, refl)
three_checks (ok _) (err e) x k s = inl (e, refl)
three_checks (ok _) (ok _) (err e) k s = inl (e, refl)
three_checks (ok _) (ok _) (ok y) k s = inr (y, refl, refl, refl)
