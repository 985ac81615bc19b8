-- ===== src/Admission/Termination.antt =====
-- `pump` (internal/admission/owner.go): its outer loop, and the fuel.
use ssemaphore.Prelude.{
  ℕ, zero, suc, ◌<◌, ◌≡◌, refl, inl, inr, Bool, false, ◌&&◌, ◌||◌, not, arith, ◌==◌, length,
  Ensures, Ensures-mono, Ensures-bind, Bool-cases,
}
use ssemaphore.Admission.State.{OwnerState, Env}
use ssemaphore.Admission.Pump.{saturated, returned, onward, round, rounds, pump_fuel, pump}
use ssemaphore.Admission.Invariant.{Inv, Post, Post-trans, Same-refl}
use ssemaphore.Admission.Moves.{cursor-Inv}
use ssemaphore.Admission.Measure.{measure, measure-le}
use ssemaphore.Admission.Turns.{flag}
use ssemaphore.Admission.Rounds.{Flows, round-Flows}

reset_cursor-Post : (s : OwnerState) → Inv s → Post s (record s { cursor = 0 })
reset_cursor-Post s v = record {
  inv = cursor-Inv 0 s (omega (arith, v.cursor)) v;
  same = record { config = refl; tenants = refl; received = refl; accepting = refl };
}

flag_raised : (d n : Bool) → (not d && not n) ≡ false → flag d n ≡ 1
flag_raised d n h = ground arith

-- A round that calls for another one has taken a unit off the measure.
rounds-Post :
    (env : Env) (f : ℕ) (s : OwnerState) → Inv s → measure s < f → Ensures (rounds env f s) (Post s)
unfolding rounds
rounds-Post env zero s v lt = absurd (omega arith)
rounds-Post env (suc f) s v lt = elim (Bool-cases (s.global.queued_count == 0)) [
  | inl none_left ↦ simp (none_left, rounds) (record { inv = v; same = Same-refl s })
  | inr waiting ↦
      simp (waiting, rounds)
        (Ensures-bind (round env (length s.tenants) s false false) _ (Flows false false s) (Post s)
          (round-Flows env (length s.tenants) s false false v)
          (elim [
            | returned s' ↦ λ p. p
            | onward s' d n ↦ λ (p, le). elim (Bool-cases (s'.global.queued_count == 0)) [
              | inl emptied ↦
                  simp emptied
                    (Post-trans s s' (record s' { cursor = 0 }) p (reset_cursor-Post s' p.inv))
              | inr more ↦ elim (Bool-cases (not d && not n)) [
                | inl idle ↦ simp (more, idle) p
                | inr work ↦
                    simp (more, work)
                      (Ensures-mono (rounds env f s') (Post s') (Post s)
                        (rounds-Post env f s' p.inv (omega (arith, flag_raised d n work, le)))
                        (λ u. Post-trans s s' u p))
              ]
            ]
          ]))
]

-- In a sound state, `pump` ends without a panic and within its fuel, and leaves a sound state with
-- the same configuration, number of tenants and IDs received, that accepts as before.
pub pump-Post : (env : Env) (s : OwnerState) → Inv s → Ensures (pump env s) (Post s)
unfolding pump pump_fuel
pump-Post env s v = elim (Bool-cases (length s.tenants == 0 || saturated s)) [
  | inl full ↦ simp (full, pump) (record { inv = v; same = Same-refl s })
  | inr room ↦ simp (room, pump) (rounds-Post env (pump_fuel s) s v (omega (arith, measure-le s)))
]
