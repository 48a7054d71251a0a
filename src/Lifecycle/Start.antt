-- ===== src/Lifecycle/Start.antt =====
-- Start is a transaction: either every resource starts, or those that did are taken down again.
use edp_threading.Base.{
  ℕ, zero, suc, ◌+◌, ◌≤◌, ◌<◌, ◌≡◌, ◌∙◌, ◌⊎◌, refl, sym, ap, true, List, [], ◌∷◌, ◌++◌, ltb,
  if◌then◌else◌, arith, inl, inr,
}
use edp_threading.Types.{ThreadingStartResult}
use edp_threading.Lifecycle.{
  InfrastructureState, Outcome, is_success, Call, Platform, InfrastructureLifecycle, read_state,
  start_next, wake_started, join_started, destroy_all, roll_back, start_in, start, publish_state,
}
use edp_threading.Lifecycle.Calls.{
  perform, calls, selected-true, selected_below, perform-append, traverse-perform, AllSucceed,
  Outcome-cases,
}
use native.Mathlib.Nat.{add-zero, zero-add}

module _ {W : Type 0} (platform : Platform W) where
  -- The first `k` of the calls succeed, and the next one fails.
  abbrev pub FailsAt : (ℕ → Call) → W → ℕ → ℕ → ℕ → Type 0
  FailsAt call w i k e =
      AllSucceed platform w (calls call k i)
      × ((platform (call (i + k)) (perform platform w (calls call k i))).1 ≡ Outcome.failed e)

  abbrev StartsFrom : ℕ → ℕ → W → ℕ → W × Outcome × ℕ → Type 0
  StartsFrom n i w count r =
      (AllSucceed platform w (calls Call.start_infrastructure n i)
        × (r ≡ (
          perform platform w (calls Call.start_infrastructure n i),
          Outcome.succeeded,
          count + n,
        )))
      ⊎ ((k : ℕ) × (e : ℕ) × (k < n)
          × FailsAt Call.start_infrastructure w i k e
          × (r ≡ (
            perform platform w (calls Call.start_infrastructure (suc k) i),
            Outcome.failed e,
            count + k,
          )))

  start_step :
      (n i : ℕ) (w : W) (count : ℕ)
      → StartsFrom n
          (i + 1)
          (platform (Call.start_infrastructure i) w).0
          (count + 1)
          (start_next platform n (i + 1) (platform (Call.start_infrastructure i) w).0 (count + 1))
      → StartsFrom (suc n) i w count (start_next platform (suc n) i w count)
  unfolding start_next
  start_step n i w count (inl (all, rest)) =
      elim (Outcome-cases (platform (Call.start_infrastructure i) w).1) [
        | inl done ↦ inl ((done, all), rw (done, start_next) (rest ∙ ground arith))
        | inr (e, bad) ↦
            inr (0, e, omega arith, (tt, rw add-zero bad), rw (bad, start_next) (ground arith))
      ]
  start_step n i w count (inr (k, e, lt, (all, bad), rest)) =
      elim (Outcome-cases (platform (Call.start_infrastructure i) w).1) [
        | inl done ↦
            let shift : i + suc k ≡ i + 1 + k = omega arith in
            inr (
              suc k,
              e,
              omega arith,
              ((done, all), rw shift bad),
              rw (done, start_next) (rest ∙ ground arith),
            )
        | inr (e', bad') ↦
            inr (0, e', omega arith, (tt, rw add-zero bad'), rw (bad', start_next) (ground arith))
      ]

  start_next_lem :
      (n i : ℕ) (w : W) (count : ℕ) → StartsFrom n i w count (start_next platform n i w count)
  unfolding start_next
  start_next_lem zero i w count = inl (tt, ground arith)
  start_next_lem (suc n) i w count =
      start_step n i w count
        (start_next_lem n (i + 1) (platform (Call.start_infrastructure i) w).0 (count + 1))

  -- The calls that take the first `k` of `n` resources down again: the state is published before
  -- any of them, they are woken and joined, and every resource of the topology is destroyed.
  abbrev pub rollback_calls : ℕ → ℕ → List Call
  rollback_calls n k =
      Call.release_state_lock
      ∷ (calls Call.request_termination k 0
          ++ (calls Call.join_infrastructure k 0 ++ calls Call.destroy_infrastructure n 0))

  roll_back-perform :
      (n k : ℕ) (l : InfrastructureLifecycle W)
      → k ≤ n
      → roll_back platform n k l ≡ (
        record {
          state = InfrastructureState.start_rollback;
          world = perform platform l.world (rollback_calls n k);
        },
        ThreadingStartResult.provider_failure,
      )
  unfolding roll_back publish_state wake_started join_started destroy_all
  roll_back-perform n k l h = rw (
    perform-append platform (platform Call.release_state_lock l.world).0
        (calls Call.request_termination k 0)
        (calls Call.join_infrastructure k 0 ++ calls Call.destroy_infrastructure n 0),
    perform-append platform _ (calls Call.join_infrastructure k 0)
        (calls Call.destroy_infrastructure n 0),
    traverse-perform platform Call.request_termination (λ i. ltb i k) n 0 _,
    traverse-perform platform Call.join_infrastructure (λ i. ltb i k) n 0 _,
    traverse-perform platform Call.destroy_infrastructure (λ i. true) n 0 _,
    selected_below Call.request_termination k n 0 k h (omega arith),
    selected_below Call.join_infrastructure k n 0 k h (omega arith),
    selected-true Call.destroy_infrastructure n 0,
  )

  -- What Start does from the state Initialized and the world `w`.
  abbrev pub StartsTransactionally :
      ℕ → W → InfrastructureLifecycle W × ThreadingStartResult → Type 0
  StartsTransactionally n w r =
      (AllSucceed platform w (calls Call.start_infrastructure n 0)
        × (r.0.state ≡ InfrastructureState.started)
        × (r.0.world
            ≡ perform platform w
                (calls Call.start_infrastructure n 0 ++ Call.release_state_lock ∷ []))
        × (r.1 ≡ (
            if is_success
              (platform Call.release_state_lock
                (perform platform w (calls Call.start_infrastructure n 0))).1
            then ThreadingStartResult.succeeded
            else ThreadingStartResult.provider_failure)))
      ⊎ ((k : ℕ) × (e : ℕ) × (k < n)
          × FailsAt Call.start_infrastructure w 0 k e
          × (r ≡ (
            record {
              state = InfrastructureState.start_rollback;
              world =
                  perform platform w
                    (calls Call.start_infrastructure (suc k) 0 ++ rollback_calls n k);
            },
            ThreadingStartResult.provider_failure,
          )))

  started_by :
      (n : ℕ) (l : InfrastructureLifecycle W)
      → StartsFrom n 0 l.world 0 (start_next platform n 0 l.world 0)
      → StartsTransactionally n l.world (start_in platform n l InfrastructureState.initialized)
  unfolding start_in publish_state
  started_by n l (inl (all, whole)) = rw whole (
      inl (
        all,
        refl,
        sym (
            perform-append platform l.world (calls Call.start_infrastructure n 0)
              (Call.release_state_lock ∷ [])),
        refl,
      ))
  started_by n l (inr (k, code, lt, fails, whole)) =
      rw (whole, zero-add)
        (inr (
          k,
          code,
          lt,
          fails,
          roll_back-perform n k
                (record l {
                  world = perform platform l.world (calls Call.start_infrastructure (suc k) 0);
                })
                (omega arith)
              ∙ ap
                  (λ w. (
                    record { state = InfrastructureState.start_rollback; world = w },
                    ThreadingStartResult.provider_failure,
                  ))
                  (sym (
                    perform-append platform l.world (calls Call.start_infrastructure (suc k) 0)
                      (rollback_calls n k))),
        ))

  -- What Start does, by the state that it reads.
  abbrev pub StartsIn :
      ℕ
      → InfrastructureLifecycle W
      → InfrastructureState
      → InfrastructureLifecycle W × ThreadingStartResult
      → Type 0
  StartsIn n l InfrastructureState.initialized r =
      StartsTransactionally n (read_state platform l).0.world r
  StartsIn n l InfrastructureState.started r =
      r ≡ ((read_state platform l).0, ThreadingStartResult.already_started)
  StartsIn n l _ r = r ≡ ((read_state platform l).0, ThreadingStartResult.not_initialized)

  start_in-StartsIn :
      (n : ℕ) (l : InfrastructureLifecycle W) (s : InfrastructureState)
      → StartsIn n l s (start_in platform n (read_state platform l).0 s)
  unfolding start_in
  start_in-StartsIn n l InfrastructureState.initialized =
      started_by n (read_state platform l).0 (start_next_lem n 0 (read_state platform l).0.world 0)
  start_in-StartsIn n l InfrastructureState.started = refl
  start_in-StartsIn n l InfrastructureState.uninitialized = refl
  start_in-StartsIn n l InfrastructureState.start_rollback = refl
  start_in-StartsIn n l InfrastructureState.shutting_down = refl
  start_in-StartsIn n l InfrastructureState.shutdown_complete = refl

  -- Start is a transaction, for any platform and any number of resources. From Initialized,
  -- either every resource was started in order, the state is Started, and the answer is
  -- Succeeded or, if the state's lock was not released, ProviderFailure; or the first `k`
  -- resources started and the next one failed, and then StartRollback was published, those `k`
  -- and no other were woken and joined in order, every resource was destroyed, and the answer
  -- is ProviderFailure. From Started it answers AlreadyStarted, from any other state
  -- NotInitialized, and does nothing but read the state.
  pub start_lem :
      (n : ℕ) (l : InfrastructureLifecycle W) → StartsIn n l l.state (start platform n l)
  unfolding start
  start_lem n l = start_in-StartsIn n l l.state
