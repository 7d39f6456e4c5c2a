-- ===== src/Notifier/Deliver.antt =====
-- One delivery: it ends, and when it succeeds.
use modelsrv.Prelude.{
  ℕ, zero, suc, ◌+◌, ◌≡◌, refl, Bool, true, false, some, arith, ◌↔◌, ◌⊎◌, inl, inr, Bool-cases, leb,
}
use modelsrv.Notifier.{Attempts, deliver, deliver_from}

-- An attempt from this one on reaches the subscriber, and no wait before it is cut short.
abbrev pub Reached : ℕ → Attempts → ℕ → Type 0
Reached zero env attempt = env.reaches attempt ≡ true
Reached (suc left) env attempt =
    (env.reaches attempt ≡ true) ⊎ ((env.stops attempt ≡ false) × Reached left env (attempt + 1))

-- Where this attempt fails, what is reached is reached later.
later_of :
    {x y : Bool} (P : Type 0) (b : Bool)
    → x ≡ false
    → ((b ≡ true) ↔ P)
    → (x ≡ true) ⊎ ((y ≡ false) × P)
    → b ≡ true
later_of P b e i (inl r) = cc
later_of P b e i (inr p) = i.1 p.1

deliver_from_lem :
    (left : ℕ) (env : Attempts) (attempt : ℕ)
    → attempt + left ≡ 5
    → (b : Bool) × (deliver_from (suc left) env attempt ≡ some b)
      × ((b ≡ true) ↔ Reached left env attempt)
unfolding deliver_from
deliver_from_lem zero env attempt h = elim (Bool-cases (env.reaches attempt)) [
  | inl e ↦ (true, rw e, (λ _. e, λ _. refl))
  | inr e ↦ (false, rw e (ground arith), (λ f. cc, λ f. cc))
]
deliver_from_lem (suc left) env attempt h = elim (Bool-cases (env.reaches attempt)) [
  | inl e ↦ (true, rw e, (λ _. inl e, λ _. refl))
  | inr e ↦
      let more : leb 5 attempt ≡ false = ground arith in
      elim (Bool-cases (env.stops attempt)) [
        | inl s ↦ (false, rw (e, more, s), (λ f. cc, λ f. ground arith))
        | inr s ↦
            let (b, r, i) = deliver_from_lem left env (attempt + 1) (omega arith) in
            (
              b,
              rw (e, more, s) r,
              (λ t. inr (s, i.0 t), later_of (Reached left env (attempt + 1)) b e i),
            )
      ]
]

-- A delivery always ends, after five attempts at most, and it reports true exactly when one of the
-- five reached the subscriber with no wait before it cut short by a stop.
pub deliver_total :
    (env : Attempts) → (b : Bool) × (deliver env ≡ some b) × ((b ≡ true) ↔ Reached 4 env 1)
unfolding deliver
deliver_total env = deliver_from_lem 4 env 1 refl
