-- ===== src/Storage/Engine/Race.antt =====
-- Start and RequestStop beside a coordinator: what holds of their interleavings, and what the gap
-- between the parts of RequestStop allows.
use rapidbench.Prelude.{
  ℕ, ◌≡◌, ◌≢◌, refl, ap, Bool, true, false, ◌&&◌, Option, none, some, List, [], ◌∷◌, Bool-cases,
  inl, inr,
}
use rapidbench.Prelude.Int.{ℤ}
use rapidbench.Prelude.Doubles.{Doubles}
use rapidbench.Storage.Types.{StorageRequest, StorageSnapshot, k_stopping}
use rapidbench.Storage.Tests.{is_terminal}
use rapidbench.Storage.Engine.{
  StorageEngine, status_busy, status_invalid_argument, check, after_check, start, is_valid_request,
  initial_snapshot, may_stop, raise_stop, publish_stopping, make_engine, publish,
}
use rapidbench.Storage.Engine.Runs.{
  System, Starting, s_none, s_begun, passed, Step, Steps, checks, begins, launches, cannot_launch,
  looks, raises, stops, publishes, ends, here, then_step, was_started,
}

module _ (num : Doubles) where
  abbrev pub at_rest : List ℕ → System num
  at_rest directory = record {
    engine = make_engine num directory;
    coordinator = none;
    starting = s_none;
    copies = [];
    raised = [];
  }

  abbrev IsBusy : StorageEngine num → Type 0
  IsBusy e = is_terminal e.snapshot.state ≡ false

  -- A run that has not ended shows a state that is not terminal, and no Start is past its check; a
  -- Start that has published shows such a state.
  abbrev IsGuarded : System num → Type 0
  IsGuarded y =
      ((n : ℕ) → y.coordinator ≡ some n → IsBusy y.engine × (y.starting ≡ s_none))
      × ((i : StorageSnapshot num) → y.starting ≡ s_begun i → IsBusy y.engine)

  start-refuses :
      (o h : Bool) (r : StorageRequest) (e : StorageEngine num)
      → IsBusy e
      → (status : ℤ) × (check num o r e ≡ some status) × (start num o h r e ≡ ((status, none), e))
  unfolding start after_check check
  start-refuses o h r e busy = elim (Bool-cases (o && is_valid_request num e r)) [
    | inl v ↦ (status_busy, rw (v, busy) refl, rw (v, busy) refl)
    | inr v ↦ (status_invalid_argument, rw v refl, rw v refl)
  ]

  passed_busy :
      (o : Bool) (r : StorageRequest) (e : StorageEngine num)
      → IsBusy e
      → passed num r e.snapshot.results (check num o r e) ≡ s_none
  passed_busy o r e busy =
      let (status, refused, same) = start-refuses o true r e busy in
      ap (passed num r e.snapshot.results) refused

  not_begun :
      (r : StorageRequest) (e : StorageEngine num) (o : Option ℤ) (i : StorageSnapshot num)
      → passed num r e.snapshot.results o ≢ s_begun i
  not_begun r e none i same = cc
  not_begun r e (some status) i same = cc

  no_start : (i : StorageSnapshot num) (st : Starting num) → st ≡ s_none → st ≢ s_begun i
  no_start i st none_yet at = cc

  step-IsGuarded : (y z : System num) → Step num y z → IsGuarded y → IsGuarded z
  unfolding publish_stopping initial_snapshot
  step-IsGuarded y z (checks _ o r free) (g, b) = (
    λ n at. ((g n at).0, passed_busy o r y.engine (g n at).0),
    λ i at. absurd (not_begun r y.engine (check num o r y.engine) i at),
  )
  step-IsGuarded y z (begins _ r results at idle) (g, b) = ((λ n is. cc), (λ i is. refl))
  step-IsGuarded y z (launches _ initial at) (g, b) = ((λ n is. (b initial at, refl)), (λ i is. cc))
  step-IsGuarded y z (cannot_launch _ initial at) (g, b) =
      ((λ n is. absurd (no_start initial y.starting (g n is).1 at)), (λ i is. cc))
  step-IsGuarded y z (looks _ n may) g = g
  step-IsGuarded y z (raises _ before after c at) g = g
  step-IsGuarded y z (stops _ before after c at) (g, b) =
      ((λ n is. (refl, (g n is).1)), (λ i is. refl))
  step-IsGuarded y z (publishes _ n s at own t) (g, b) = ((λ m is. (t, (g m is).1)), (λ i is. t))
  step-IsGuarded y z (ends _ n s at own t) (g, b) =
      ((λ m is. cc), (λ i is. absurd (no_start i y.starting (g n at).1 is)))

  Steps-IsGuarded : (y z : System num) → Steps num y z → IsGuarded y → IsGuarded z
  Steps-IsGuarded y z (here _) g = g
  Steps-IsGuarded y z (then_step _ x _ s rest) g = Steps-IsGuarded x z rest (step-IsGuarded y x s g)

  -- No run is ever started while another one has not ended. Calls of Start do not overlap each other;
  -- the check of a Start, its Publish and the making of its thread are three actions, the copy, the
  -- flag and the Publish of a RequestStop are three too, any number of calls of RequestStop may be
  -- under way, and the coordinator publishes between any two actions. In every order of these on a new
  -- engine, while a coordinator has not published its last snapshot no Start is past its check, and
  -- the check of every Start refuses, so that Start changes nothing.
  pub start-alone :
      (directory : List ℕ) (y : System num) (n : ℕ)
      → Steps num (at_rest directory) y
      → y.coordinator ≡ some n
      → (y.starting ≡ s_none)
        × ((o h : Bool) (r : StorageRequest)
            → (status : ℤ) × (check num o r y.engine ≡ some status)
              × (start num o h r y.engine ≡ ((status, none), y.engine)))
  start-alone directory y n path at =
      let (g, b) = Steps-IsGuarded (at_rest directory) y path ((λ m is. cc), (λ i is. cc)) in
      let (busy, free) = g n at in (free, λ o h r. start-refuses o h r y.engine busy)

  -- The coordinator has ended, no Start is past its check, and the state does not say that the run is
  -- over.
  Stuck : System num → Type 0
  Stuck y = (y.coordinator ≡ none) × (y.starting ≡ s_none) × (y.engine.snapshot.state ≡ k_stopping)

  nobody {ℓ} : {A : Type ℓ} (n : ℕ) (c : Option ℕ) → c ≡ none → c ≡ some n → A
  nobody n c idle at = cc

  step-Stuck : (y z : System num) → Step num y z → Stuck y → Stuck z
  unfolding Stuck publish_stopping
  step-Stuck y z (checks _ o r free) (idle, none_yet, s) =
      (idle, passed_busy o r y.engine (ap is_terminal s), s)
  step-Stuck y z (begins _ r results at free) (idle, none_yet, s) = cc
  step-Stuck y z (launches _ initial at) (idle, none_yet, s) = cc
  step-Stuck y z (cannot_launch _ initial at) (idle, none_yet, s) = cc
  step-Stuck y z (looks _ n may) stuck = stuck
  step-Stuck y z (raises _ before after c at) stuck = stuck
  step-Stuck y z (stops _ before after c at) (idle, none_yet, s) = (idle, none_yet, refl)
  step-Stuck y z (publishes _ n s at own t) (idle, none_yet, k) = nobody n y.coordinator idle at
  step-Stuck y z (ends _ n s at own t) (idle, none_yet, k) = nobody n y.coordinator idle at

  Steps-Stuck : (y z : System num) → Steps num y z → Stuck y → Stuck z
  Steps-Stuck y z (here _) stuck = stuck
  Steps-Stuck y z (then_step _ x _ s rest) stuck = Steps-Stuck x z rest (step-Stuck y x s stuck)

  -- RequestStop may lose the end of a run for good. If, while a run is under way and no Start is past
  -- its check, a RequestStop for it has made its copy and then the coordinator publishes its last
  -- snapshot, whichever it is, the state that RequestStop then publishes is never left again: from
  -- there on, whatever is called, no Start succeeds, although no coordinator is at work.
  pub request_stop-stuck :
      (y : System num) (run_id : ℕ) (final : StorageSnapshot num)
      → y.coordinator ≡ some run_id
      → y.starting ≡ s_none
      → may_stop num run_id y.engine.snapshot ≡ true
      → final.run_id ≡ run_id
      → is_terminal final.state ≡ true
      → (z : System num) × Steps num y z
        × ((w : System num)
            → Steps num z w
            → (w.coordinator ≡ none)
              × ((o h : Bool) (r : StorageRequest)
                  → was_started num (start num o h r w.engine) ≡ false))
  unfolding Stuck
  request_stop-stuck y run_id final run free may own ended =
      let copy = y.engine.snapshot in
      let looked : System num = record y { copies = copy ∷ y.copies } in
      let over : System num = record looked {
        engine = publish num final y.engine;
        coordinator = none;
      } in
      let raised : System num = record over {
        engine = raise_stop num over.engine;
        copies = y.copies;
        raised = copy ∷ y.raised;
      } in
      let after : System num = record raised {
        engine = publish_stopping num copy raised.engine;
        raised = y.raised;
      } in
      let path = then_step y looked after (looks y run_id may) (
        then_step looked over after (ends looked run_id final run own ended) (
          then_step over raised after (raises over [] y.copies copy refl)
            (then_step raised after after (stops raised [] y.raised copy refl) (here after)))) in
      (
        after,
        path,
        λ w rest.
            let (idle, none_yet, s) =
              Steps-Stuck after w rest (refl, free, unfold publish_stopping in refl) in
            (
              idle,
              λ o h r.
                  let (status, refused, same) = start-refuses o h r w.engine (ap is_terminal s) in
                  ap (was_started num) same,
            ),
      )
