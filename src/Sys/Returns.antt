-- ===== src/Sys/Returns.antt =====
-- When an action returns: no call fails, and nothing stands in its way.
use model_id.Base.{◌≡◌, refl, subst, []}
use model_id.Base.Results.{Result, ok, err}
use model_id.Sys.{Outcome, World, M, call, pure, try, continue, ◌>>=◌}

-- The run returns a value that is good in the world after it.
pub record Returns {A : Type 0} (Good : A → World → Type 0) (x : Result A × World) : Type 0 where
  pub value : A
  pub is_ok : x.0 ≡ ok value
  pub good : Good value x.1

module _ {A : Type 0} {Good : A → World → Type 0} where
  pub Returns-pure : (a : A) (w : World) → Good a w → Returns Good (pure a w)
  unfolding pure
  Returns-pure a w g = record { value = a; is_ok = refl; good = g }

  pub Returns-call :
      (act : World → Result A × World) (partly : Outcome → World → World) (w : World)
      → w.faults ≡ []
      → ((v : World) → v.fs ≡ w.fs → v.faults ≡ [] → Returns Good (act v))
      → Returns Good (call act partly w)
  unfolding call
  Returns-call act partly w none_fails h = rw none_fails (h _ refl refl)

  pub Returns-bind :
      {B : Type 0} {Good' : B → World → Type 0} (m : M A) (f : A → M B) (w : World)
      → Returns Good (m w)
      → ((a : A) (v : World) → Good a v → Returns Good' (f a v))
      → Returns Good' ((m >>= f) w)
  unfolding ◌>>=◌
  Returns-bind {B} {Good' = Good'} m f w h k = after (m w) h
    where
      same : {b c : A} → ok b ≡ ok c → c ≡ b
      same e = cc

      after : (x : Result A × World) → Returns Good x → Returns Good' (continue x.0 f x.1)
      after (ok b, v) h = k b v (subst (λ c. Good c v) (same h.is_ok) h.good)
      after (err x, v) h = absurd (clash h.is_ok)
        where
          clash : {c : A} → err x ≡ ok c → ⊥
          clash e = cc

  pub Returns-try :
      (m : M A) (w : World)
      → Returns Good (m w)
      → Returns (λ r v. (a : A) × (r ≡ ok a) × Good a v) (try m w)
  unfolding try
  Returns-try m w h = record { value = (m w).0; is_ok = refl; good = (h.value, h.is_ok, h.good) }

-- A `try` returns whatever becomes of the call.
pub Returns-tried : {A : Type 0} (m : M A) (w : World) → Returns (λ _ _. Unit) (try m w)
unfolding try
Returns-tried m w = record { value = (m w).0; is_ok = refl; good = tt }
