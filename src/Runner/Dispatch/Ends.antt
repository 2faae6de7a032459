-- ===== src/Runner/Dispatch/Ends.antt =====
-- crates/runner/src/runner.rs: how the dispatcher loop ends.
use phpunit_rust.Prelude.{
  ℕ, suc, ◌+◌, ◌-◌, ◌≤◌, true, ◌||◌, ◌≡◌, refl, sym, ap, ◌∙◌, ◌⊎◌, inl, inr, Option, none, some,
  List, [], ◌∷◌, nat_eq, set, get_elem?, arith, subst, Bool-cases, Option-cases, String,
}
use phpunit_rust.Types.{BatchPlan}
use phpunit_rust.ForkPool.Bind.{ok_injective, >>=-eq-ok}
use phpunit_rust.ForkPool.{Result, ok, err, ◌>>=◌, PhpForkPool, write_batch, is_open}
use phpunit_rust.Runner.Dispatch.Pick.{pick_best_for_slot, loaded_of}
use phpunit_rust.Runner.Dispatch.Moves.{dispatch-live_readers}
use phpunit_rust.Runner.Dispatch.{
  State, Settings, Event, outcome, batch_done, slot_died, eof, timeout, on_outcome, on_last_eof,
  on_eof, drain, on_batch_done, on_slot_died, recover, master_lost, handle, run_loop, dispatch,
  send_plan,
}

abbrev pub eofs : List Event → ℕ
eofs [] = 0
eofs (eof slot ∷ es) = suc (eofs es)
eofs (_ ∷ es) = eofs es

-- A loop that is over leaves the state.
pub over :
    (cfg : Settings) (e : Event) (es : List Event) (s t : State)
    → (nat_eq s.live_readers 0 || s.watchdog_fired) ≡ true
    → run_loop cfg (e ∷ es) s ≡ ok t
    → s ≡ t
unfolding run_loop
over cfg e es s t done h = ok_injective (rw (done, run_loop) at h)

recover-live_readers :
    (cfg : Settings) (slot : ℕ) (o : Option (Option BatchPlan)) (s : State)
    → (recover cfg slot o s).live_readers ≡ s.live_readers
recover-live_readers cfg slot none s = refl
recover-live_readers cfg slot (some none) s = refl
recover-live_readers cfg slot (some (some lost)) s = refl

on_eof-live_readers :
    (cfg : Settings) (s : State) → (on_eof cfg s).live_readers ≡ s.live_readers - 1
unfolding on_eof on_last_eof drain
on_eof-live_readers cfg s = elim (Bool-cases (nat_eq (s.live_readers - 1) 0)) [
  | inl last ↦
      rw last
        (elim (Bool-cases (master_lost cfg (record s { live_readers = s.live_readers - 1 }))) [
          | inl lost ↦ rw lost
          | inr kept ↦ rw kept
        ])
  | inr more ↦ rw more
]

eofs-cons : (e : Event) (es : List Event) → eofs (e ∷ es) ≡ eofs (e ∷ []) + eofs es
eofs-cons (outcome slot o) es = omega arith
eofs-cons (batch_done slot) es = omega arith
eofs-cons (slot_died slot) es = omega arith
eofs-cons (eof slot) es = omega arith
eofs-cons timeout es = omega arith

abbrev Ends : State → Type 0
Ends t = (t.live_readers ≡ 0) ⊎ (t.watchdog_fired ≡ true)

ended : (s : State) → (nat_eq s.live_readers 0 || s.watchdog_fired) ≡ true → Ends s
ended s h = ground arith

handle-live_readers :
    (cfg : Settings) (e : Event) (s t : State)
    → handle cfg e s ≡ ok t
    → t.live_readers ≡ s.live_readers - eofs (e ∷ [])
unfolding handle
handle-live_readers cfg (outcome slot o) s t h =
    sym (ap State.live_readers (ok_injective h)) ∙ unfold on_outcome in omega arith
handle-live_readers cfg (batch_done slot) s t h =
    unfold on_batch_done in
    omega (
      arith,
      dispatch-live_readers slot (record s { slot_in_flight = set s.slot_in_flight slot none }) t h,
    )
handle-live_readers cfg (slot_died slot) s t h =
    unfold on_slot_died in
    omega (
      arith,
      dispatch-live_readers slot (recover cfg slot (get_elem? s.slot_in_flight slot) s) t h,
      recover-live_readers cfg slot (get_elem? s.slot_in_flight slot) s,
    )
handle-live_readers cfg (eof slot) s t h =
    sym (ap State.live_readers (ok_injective h)) ∙ on_eof-live_readers cfg s
handle-live_readers cfg timeout s t h = sym (ap State.live_readers (ok_injective h)) ∙ ground arith

pub run_loop_ok-Ends :
    (cfg : Settings) (es : List Event) (s t : State)
    → s.live_readers ≤ eofs es
    → run_loop cfg es s ≡ ok t
    → (t.live_readers ≡ 0) ⊎ (t.watchdog_fired ≡ true)
unfolding run_loop
run_loop_ok-Ends cfg [] s t n h = inl (omega (arith, ap State.live_readers (ok_injective h)))
run_loop_ok-Ends cfg (e ∷ es) s t n h =
    elim (Bool-cases (nat_eq s.live_readers 0 || s.watchdog_fired)) [
      | inl done ↦ subst Ends (over cfg e es s t done h) (ended s done)
      | inr on ↦
          let (u, hu, rest) =
            >>=-eq-ok (handle cfg e s) (run_loop cfg es) (rw (on, run_loop) at h) in
          run_loop_ok-Ends cfg es u t
            (omega (arith, handle-live_readers cfg e s u hu, eofs-cons e es)) rest
    ]

-- The two errors of a write to a slot.
abbrev IsWriteError : String → Type 0
IsWriteError w = (w ≡ "writing BatchPlan") ⊎ (w ≡ "write end already closed")

-- A state at the end, or the error of a write.
abbrev pub EndsOrFails : Result State → Type 0
EndsOrFails (ok t) = (t.live_readers ≡ 0) ⊎ (t.watchdog_fired ≡ true)
EndsOrFails (err w) = IsWriteError w

-- A step goes on, or fails at a write.
abbrev GoesOn : {A : Type 0} → Result A → Type 0
GoesOn (ok a) = Unit {0}
GoesOn (err w) = IsWriteError w

write_batch-GoesOn :
    (slot : ℕ) (plan : BatchPlan) (p : PhpForkPool) → GoesOn (write_batch slot plan p)
unfolding write_batch
write_batch-GoesOn slot plan p = elim (Bool-cases (is_open (get_elem? p.write_ends slot))) [
  | inl opened ↦ elim (Bool-cases (p.accepts slot plan)) [
    | inl takes ↦ rw (opened, takes) tt
    | inr refuses ↦ rw (opened, refuses) (inl refl)
  ]
  | inr shut ↦ rw shut (inr refl)
]

onward :
    {A B : Type 0} (r : Result A) (f : A → Result B)
    → GoesOn r
    → ((a : A) → GoesOn (f a))
    → GoesOn (r >>= f)
onward (ok a) f h rest = rest a
onward (err w) f h rest = h

dispatch-GoesOn : (slot : ℕ) (s : State) → GoesOn (dispatch slot s)
unfolding dispatch send_plan
dispatch-GoesOn slot s =
    elim (Option-cases (pick_best_for_slot s.queue (loaded_of s.slot_loaded slot))) [
      | inl e ↦ rw (e, dispatch) tt
      | inr ((plan, rest), e) ↦
          rw (e, dispatch)
            (onward (write_batch slot plan s.pool) _ (write_batch-GoesOn slot plan s.pool)
              (λ p. tt))
    ]

handle-GoesOn : (cfg : Settings) (e : Event) (s : State) → GoesOn (handle cfg e s)
unfolding handle on_batch_done on_slot_died
handle-GoesOn cfg (outcome slot o) s = tt
handle-GoesOn cfg (batch_done slot) s =
    dispatch-GoesOn slot (record s { slot_in_flight = set s.slot_in_flight slot none })
handle-GoesOn cfg (slot_died slot) s =
    dispatch-GoesOn slot (recover cfg slot (get_elem? s.slot_in_flight slot) s)
handle-GoesOn cfg (eof slot) s = tt
handle-GoesOn cfg timeout s = tt

run_loop-GoesOn : (cfg : Settings) (es : List Event) (s : State) → GoesOn (run_loop cfg es s)
unfolding run_loop
run_loop-GoesOn cfg [] s = tt
run_loop-GoesOn cfg (e ∷ es) s = elim (Bool-cases (nat_eq s.live_readers 0 || s.watchdog_fired)) [
  | inl done ↦ rw (done, run_loop) tt
  | inr on ↦
      rw (on, run_loop)
        (onward (handle cfg e s) (run_loop cfg es) (handle-GoesOn cfg e s) (run_loop-GoesOn cfg es))
]

EndsOrFails-of : (r : Result State) → GoesOn r → ((t : State) → r ≡ ok t → Ends t) → EndsOrFails r
EndsOrFails-of (ok t) h ends = ends t refl
EndsOrFails-of (err w) h ends = h

-- Where the events hold the end of every reader's pipe, the loop returns a state with no reader left, or
-- with the watchdog fired, or one of the two errors of a write to a slot, whatever the workers send.
pub run_loop_ends :
    (cfg : Settings) (es : List Event) (s : State)
    → s.live_readers ≤ eofs es
    → EndsOrFails (run_loop cfg es s)
run_loop_ends cfg es s n =
    EndsOrFails-of (run_loop cfg es s) (run_loop-GoesOn cfg es s)
      (λ t. run_loop_ok-Ends cfg es s t n)
