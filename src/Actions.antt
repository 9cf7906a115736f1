-- ===== src/Actions.antt =====
-- Actions on files, processes and links, as upgrade.go (cmd/grasshopper-server) and update.go
-- (internal/client) run them: what an action changed stays changed when a later one fails.
use grasshopper.Base.{Bool, true, false, ◌≡◌, refl, subst, ap, ◌∙◌, ◌≢◌, ◌⊎◌, inl, inr}

pub data Ran {σ ε ℓ} (S : Type σ) (E : Type ε) (A : Type ℓ) : Type (σ ⊔ ε ⊔ ℓ) where
  returned : A → S → Ran S E A
  stopped : E → S → Ran S E A

module _ {σ ε ℓ} {S : Type σ} {E : Type ε} {A : Type ℓ} where
  -- The state that is left, however the action ended.
  abbrev pub after : Ran S E A → S
  after (returned a s) = s
  after (stopped e s) = s

  abbrev pub give : A → S → Ran S E A
  give a s = returned a s

  abbrev pub stop : E → S → Ran S E A
  stop e s = stopped e s

  -- The error as a value: the caller goes on in either case.
  abbrev pub outcome : Ran S E A → Ran S E Bool
  outcome (returned a s) = returned true s
  outcome (stopped e s) = returned false s

  unfoldable pub attempt : (S → Ran S E A) → S → Ran S E Bool
  attempt act s = outcome (act s)

  -- An error, after what the caller does about it.
  abbrev pub handled : Ran S E A → (S → S) → Ran S E A
  handled (returned a s) handler = returned a s
  handled (stopped e s) handler = stopped e (handler s)

  unfoldable pub on_error : (S → Ran S E A) → (S → S) → S → Ran S E A
  on_error act handler s = handled (act s) handler

  unfoldable pub observe : (S → A) → S → Ran S E A
  observe f s = returned (f s) s

module _ {σ ε ℓ κ} {S : Type σ} {E : Type ε} {A : Type ℓ} {B : Type κ} where
  abbrev pub resume : Ran S E A → (A → S → Ran S E B) → Ran S E B
  resume (returned a s) f = f a s
  resume (stopped e s) f = stopped e s

  infixr 5 ◌>>=◌
  unfoldable pub ◌>>=◌ : (S → Ran S E A) → (A → S → Ran S E B) → S → Ran S E B
  ◌>>=◌ act f s = resume (act s) f

  infixr 5 ◌>>◌
  abbrev pub ◌>>◌ : (S → Ran S E A) → (S → Ran S E B) → S → Ran S E B
  ◌>>◌ act next = act >>= λ _. next

  -- What returns did its first part, and the rest from there.
  pub bind_returned :
      (act : S → Ran S E A) (f : A → S → Ran S E B) (s : S) {b : B} {end : S}
      → (act >>= f) s ≡ returned b end
      → (a : A) × (mid : S) × (act s ≡ returned a mid) × (f a mid ≡ returned b end)
  unfolding ◌>>=◌
  bind_returned act f s {b} {end} h = split (act s) refl h
    where
      split :
          (r : Ran S E A)
          → act s ≡ r
          → resume r f ≡ returned b end
          → (a : A) × (mid : S) × (act s ≡ returned a mid) × (f a mid ≡ returned b end)
      split (returned a mid) e k = (a, mid, e, k)
      split (stopped x mid) e k = cc

  -- What stops did so in its first part, or in the rest.
  pub bind_stopped :
      (act : S → Ran S E A) (f : A → S → Ran S E B) (s : S) {x : E} {end : S}
      → (act >>= f) s ≡ stopped x end
      → (act s ≡ stopped x end)
        ⊎ ((a : A) × (mid : S) × (act s ≡ returned a mid) × (f a mid ≡ stopped x end))
  unfolding ◌>>=◌
  bind_stopped act f s {x} {end} h = split (act s) refl h
    where
      split :
          (r : Ran S E A)
          → act s ≡ r
          → resume r f ≡ stopped x end
          → (act s ≡ stopped x end)
            ⊎ ((a : A) × (mid : S) × (act s ≡ returned a mid) × (f a mid ≡ stopped x end))
      split (returned a mid) e k = inr (a, mid, e, k)
      split (stopped y mid) e k = inl (e ∙ cc)

  -- What holds where the first part stops, and after the rest where it returns, holds at the end.
  pub after_bind :
      (Q : S → Type 0) (act : S → Ran S E A) (f : A → S → Ran S E B) (s : S)
      → ((x : E) (mid : S) → act s ≡ stopped x mid → Q mid)
      → ((a : A) (mid : S) → act s ≡ returned a mid → Q (after (f a mid)))
      → Q (after ((act >>= f) s))
  unfolding ◌>>=◌
  after_bind Q act f s at_stop at_return = split (act s) refl
    where
      split : (r : Ran S E A) → act s ≡ r → Q (after (resume r f))
      split (returned a mid) e = at_return a mid e
      split (stopped x mid) e = at_stop x mid e

-- What holds of a state still holds after the action, whether it returns or stops.
abbrev pub Keeps {σ ε ℓ κ} :
    {S : Type σ} {E : Type ε} {A : Type ℓ} (P : S → Type κ) → (S → Ran S E A) → Type (σ ⊔ κ)
Keeps {S} P act = (s : S) → P s → P (after (act s))

module _ {σ ε ℓ κ ν} {S : Type σ} {E : Type ε} {A : Type ℓ} {B : Type κ} (P : S → Type ν) where
  pub Keeps-bind :
      (act : S → Ran S E A) (f : A → S → Ran S E B)
      → Keeps P act
      → ((a : A) → Keeps P (f a))
      → Keeps P (act >>= f)
  unfolding ◌>>=◌
  Keeps-bind act f first next s p = split (act s) refl
    where
      split : (r : Ran S E A) → act s ≡ r → P (after (resume r f))
      split (returned a mid) e = next a mid (subst (λ r. P (after r)) e (first s p))
      split (stopped x mid) e = subst (λ r. P (after r)) e (first s p)

module _ {σ ε ℓ ν} {S : Type σ} {E : Type ε} {A : Type ℓ} (P : S → Type ν) where
  pub Keeps-attempt : (act : S → Ran S E A) → Keeps P act → Keeps P (attempt act)
  unfolding attempt
  Keeps-attempt act first s p = split (act s) refl
    where
      split : (r : Ran S E A) → act s ≡ r → P (after (outcome r))
      split (returned a mid) e = subst (λ r. P (after r)) e (first s p)
      split (stopped x mid) e = subst (λ r. P (after r)) e (first s p)

module _ {σ ε ℓ} {S : Type σ} {E : Type ε} {A : Type ℓ} where
  pub after_returned : {a : A} {end : S} (r : Ran S E A) → r ≡ returned a end → after r ≡ end
  after_returned r e = ap after e

  pub after_stopped : {x : E} {end : S} (r : Ran S E A) → r ≡ stopped x end → after r ≡ end
  after_stopped r e = ap after e

  pub returned_state :
      {a b : A} {s t : S} → ◌≡◌ {A = Ran S E A} (returned a s) (returned b t) → s ≡ t
  returned_state h = cc

  pub returned_value :
      {a b : A} {s t : S} → ◌≡◌ {A = Ran S E A} (returned a s) (returned b t) → a ≡ b
  returned_value h = cc

  pub stopped_state : {x y : E} {s t : S} → ◌≡◌ {A = Ran S E A} (stopped x s) (stopped y t) → s ≡ t
  stopped_state h = cc

  pub stopped_error : {x y : E} {s t : S} → ◌≡◌ {A = Ran S E A} (stopped x s) (stopped y t) → x ≡ y
  stopped_error h = cc

  -- A caller that tries an action gets its verdict, and the state that the action left.
  pub attempt_returned :
      (act : S → Ran S E A) (s : S) {works : Bool} {end : S}
      → attempt act s ≡ returned works end
      → ((works ≡ true) × (a : A) × (act s ≡ returned a end))
        ⊎ ((works ≡ false) × (x : E) × (act s ≡ stopped x end))
  unfolding attempt
  attempt_returned act s {works} {end} h = split (act s) refl h
    where
      split :
          (r : Ran S E A)
          → act s ≡ r
          → outcome r ≡ returned works end
          → ((works ≡ true) × (a : A) × (act s ≡ returned a end))
            ⊎ ((works ≡ false) × (x : E) × (act s ≡ stopped x end))
      split (returned a mid) e k = inl (cc, a, e ∙ cc)
      split (stopped x mid) e k = inr (cc, x, e ∙ cc)

  pub attempt_worked :
      (act : S → Ran S E A) (s : S) {works : Bool} {end : S}
      → attempt act s ≡ returned works end
      → works ≡ true
      → (a : A) × (act s ≡ returned a end)
  attempt_worked act s h good = elim (attempt_returned act s h) [
    | inl (_, a, e) ↦ (a, e)
    | inr (bad, _, _) ↦ cc
  ]

  pub attempt-stopped :
      (act : S → Ran S E A) (s : S) (x : E) (end : S) → attempt act s ≢ stopped x end
  unfolding attempt
  attempt-stopped act s x end h = split (act s) h
    where
      split : (r : Ran S E A) → outcome r ≢ stopped x end
      split (returned a mid) k = cc
      split (stopped y mid) k = cc

module _ {σ ε ℓ ν} {S : Type σ} {E : Type ε} {A : Type ℓ} (P : S → Type ν)
    (act : S → Ran S E A) where
  pub kept_returned :
      Keeps P act → (s : S) → P s → {a : A} {end : S} → act s ≡ returned a end → P end
  kept_returned keeps s p h = subst (λ r. P (after r)) h (keeps s p)

  pub kept_stopped : Keeps P act → (s : S) → P s → {x : E} {end : S} → act s ≡ stopped x end → P end
  kept_stopped keeps s p h = subst (λ r. P (after r)) h (keeps s p)

module _ {σ ε ℓ} {S : Type σ} {E : Type ε} {A : Type ℓ} (act : S → Ran S E A)
    (handler : S → S) where
  -- An action whose errors are handled returns what it returns.
  pub on_error_returned :
      (s : S) {a : A} {end : S} → on_error act handler s ≡ returned a end → act s ≡ returned a end
  unfolding on_error
  on_error_returned s {a} {end} h = split (act s) refl h
    where
      split :
          (r : Ran S E A) → act s ≡ r → handled r handler ≡ returned a end → act s ≡ returned a end
      split (returned b mid) e k = e ∙ k
      split (stopped x mid) e k = cc

  -- It stops where the action did, and then the handler runs.
  pub on_error_stopped :
      (s : S) {x : E} {end : S}
      → on_error act handler s ≡ stopped x end
      → (mid : S) × (act s ≡ stopped x mid) × (handler mid ≡ end)
  unfolding on_error
  on_error_stopped s {x} {end} h = split (act s) refl h
    where
      split :
          (r : Ran S E A)
          → act s ≡ r
          → handled r handler ≡ stopped x end
          → (mid : S) × (act s ≡ stopped x mid) × (handler mid ≡ end)
      split (returned b mid) e k = absurd cc
      split (stopped y mid) e k =
          (mid, e ∙ ap (λ z. stopped z mid) (stopped_error {A = A} k), stopped_state {A = A} k)

-- What holds of a state still holds where the action stops.
abbrev pub Spares {σ ε ℓ κ} :
    {S : Type σ} {E : Type ε} {A : Type ℓ} (P : S → Type κ) → (S → Ran S E A) → Type (σ ⊔ ε ⊔ ℓ ⊔ κ)
Spares {S} {E} P act = (s end : S) (x : E) → P s → act s ≡ stopped x end → P end

module _ {σ ε ℓ ν} {S : Type σ} {E : Type ε} {A : Type ℓ} (P : S → Type ν) where
  pub Spares-Keeps : (act : S → Ran S E A) → Keeps P act → Spares P act
  Spares-Keeps act keeps s end x p h = kept_stopped P act keeps s p h

module _ {σ ε ℓ κ ν} {S : Type σ} {E : Type ε} {A : Type ℓ} {B : Type κ} (P : S → Type ν) where
  pub Spares-bind :
      (act : S → Ran S E A) (f : A → S → Ran S E B)
      → Keeps P act
      → ((a : A) → Spares P (f a))
      → Spares P (act >>= f)
  Spares-bind act f first next s end x p h = elim (bind_stopped act f s h) [
    | inl e ↦ kept_stopped P act first s p e
    | inr (a, mid, e, k) ↦ next a mid end x (kept_returned P act first s p e) k
  ]
