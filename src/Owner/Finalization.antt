-- ===== src/Owner/Finalization.antt =====
-- When FinalizeShutdown completes, and what it has done by then.
use edp_threading.Base.{
  ℕ, ◌+◌, ◌≡◌, ◌∙◌, refl, sym, ap, subst, true, List, [], ◌∷◌, ◌++◌, arith, Bool-cases, inl, inr,
}
use edp_threading.Types.{ThreadingFinalizationResult}
use edp_threading.Lifecycle.{
  InfrastructureState, Call, Platform, InfrastructureLifecycle, read_state, publish_state,
  publish_shutdown_complete,
}
use edp_threading.Lifecycle.Calls.{perform, perform-append, AllSucceed}
use edp_threading.Owner.{
  ResourceKind, finalize_all, destroy_joined, all_quiescent, finalize_shutdown, finalize_in,
  finalize_quiescent, publish_completion,
}

-- The calls that take down the resources from `i` on: each is woken, joined and destroyed.
abbrev pub finalization_calls : List ResourceKind → ℕ → List Call
finalization_calls [] i = []
finalization_calls (k ∷ ks) i =
    Call.request_termination i
    ∷ Call.join_infrastructure i
    ∷ Call.destroy_infrastructure i
    ∷ finalization_calls ks (i + 1)

abbrev pub quiescence_calls : List ResourceKind → ℕ → List Call
quiescence_calls [] i = []
quiescence_calls (k ∷ ks) i = Call.is_execution_quiescent i ∷ quiescence_calls ks (i + 1)

module _ {W : Type 0} (platform : Platform W) where
  -- The traversal completes exactly when each of its calls succeeds, and then it has made them all.
  finalize_all_completed :
      (ks : List ResourceKind) (i : ℕ) (w : W)
      → (finalize_all platform ks i w).1 ≡ ThreadingFinalizationResult.completed
      → AllSucceed platform w (finalization_calls ks i)
        × ((finalize_all platform ks i w).0 ≡ perform platform w (finalization_calls ks i))
  unfolding finalize_all destroy_joined
  finalize_all_completed [] i w h = (tt, refl)
  finalize_all_completed (k ∷ ks) i w h = ground (
    arith,
    finalize_all_completed ks (i + 1)
        (platform (Call.destroy_infrastructure i)
          (platform (Call.join_infrastructure i) (platform (Call.request_termination i) w).0).0).0,
  )

  all_quiescent-true :
      (ks : List ResourceKind) (i : ℕ) (w : W)
      → (all_quiescent platform ks i w).1 ≡ true
      → AllSucceed platform w (quiescence_calls ks i)
        × ((all_quiescent platform ks i w).0 ≡ perform platform w (quiescence_calls ks i))
  unfolding all_quiescent
  all_quiescent-true [] i w h = (tt, refl)
  all_quiescent-true (k ∷ ks) i w h =
      ground (arith, all_quiescent-true ks (i + 1) (platform (Call.is_execution_quiescent i) w).0)

  -- The calls that publish the completion.
  abbrev pub closing_calls : List Call
  closing_calls = Call.release_state_lock ∷ Call.wake_shutdown_waiters ∷ []

  -- The calls of a finalization that completes, in order.
  abbrev pub completion_calls : List ResourceKind → List Call
  completion_calls ks = quiescence_calls ks 0 ++ (finalization_calls ks 0 ++ closing_calls)

  AllSucceed-append :
      (w : W) (cs ds : List Call)
      → AllSucceed platform w cs
      → AllSucceed platform (perform platform w cs) ds
      → AllSucceed platform w (cs ++ ds)
  AllSucceed-append w [] ds hc hd = hd
  AllSucceed-append w (c ∷ cs) ds hc hd = (hc.0, AllSucceed-append (platform c w).0 cs ds hc.1 hd)

  abbrev pub EndsWith : W → List Call → InfrastructureLifecycle W → Type 0
  EndsWith w cs l =
      AllSucceed platform w cs
      × (l.state ≡ InfrastructureState.shutdown_complete)
      × (l.world ≡ perform platform w cs)

  publish_completion-EndsWith :
      (l : InfrastructureLifecycle W)
      → (publish_completion platform l).1 ≡ ThreadingFinalizationResult.completed
      → EndsWith l.world closing_calls (publish_completion platform l).0
  unfolding publish_completion publish_shutdown_complete publish_state
  publish_completion-EndsWith l h = ground arith

  -- The traversal and the publication, each completed, one after the other.
  completed-EndsWith :
      (cs ds : List Call) (l : InfrastructureLifecycle W) (w : W)
      → AllSucceed platform w cs
      → (l.world ≡ perform platform w cs)
      → (e : InfrastructureLifecycle W) → EndsWith l.world ds e
      → EndsWith w (cs ++ ds) e
  completed-EndsWith cs ds l w hc hw e he = (
    AllSucceed-append w cs ds hc (subst (λ x. AllSucceed platform x ds) hw he.0),
    he.1,
    he.2 ∙ ap (λ x. perform platform x ds) hw ∙ sym (perform-append platform w cs ds),
  )

  quiescent_eq :
      (ks : List ResourceKind) (l : InfrastructureLifecycle W)
      → (finalize_all platform ks 0 l.world).1 ≡ ThreadingFinalizationResult.completed
      → finalize_quiescent platform ks l
        ≡ publish_completion platform (record l { world = (finalize_all platform ks 0 l.world).0 })
  unfolding finalize_quiescent
  quiescent_eq ks l e = rw (e, finalize_quiescent) refl

  not_quiescent :
      (ks : List ResourceKind) (l : InfrastructureLifecycle W)
      → (finalize_quiescent platform ks l).1 ≡ ThreadingFinalizationResult.completed
      → (finalize_all platform ks 0 l.world).1 ≡ ThreadingFinalizationResult.completed
  unfolding finalize_quiescent
  not_quiescent ks l h = ground arith

  quiescent-EndsWith :
      (ks : List ResourceKind) (l : InfrastructureLifecycle W)
      → (finalize_quiescent platform ks l).1 ≡ ThreadingFinalizationResult.completed
      → EndsWith l.world
          (finalization_calls ks 0 ++ closing_calls)
          (finalize_quiescent platform ks l).0
  quiescent-EndsWith ks l h =
      let e = not_quiescent ks l h in
      let same = quiescent_eq ks l e in
      let (ok, after) = finalize_all_completed ks 0 l.world e in
      let l' = record l { world = (finalize_all platform ks 0 l.world).0 } in
      completed-EndsWith (finalization_calls ks 0) _ l' l.world ok after
        (finalize_quiescent platform ks l).0
        (subst (λ r. EndsWith l'.world closing_calls r.0) (sym same)
          (publish_completion-EndsWith l' (sym (ap (λ r. r.1) same) ∙ h)))

  shutting_down-EndsWith :
      (ks : List ResourceKind) (l : InfrastructureLifecycle W)
      → (finalize_in platform ks l InfrastructureState.shutting_down).1
        ≡ ThreadingFinalizationResult.completed
      → EndsWith l.world
          (completion_calls ks)
          (finalize_in platform ks l InfrastructureState.shutting_down).0
  unfolding finalize_in
  shutting_down-EndsWith ks l h = elim (Bool-cases (all_quiescent platform ks 0 l.world).1) [
    | inl yes' ↦
        (let (ok, after) = all_quiescent-true ks 0 l.world yes' in
          let l' = record l { world = (all_quiescent platform ks 0 l.world).0 } in
          let same : finalize_in platform ks l InfrastructureState.shutting_down
              ≡ finalize_quiescent platform ks l' =
            rw (yes', finalize_in) refl in
          completed-EndsWith (quiescence_calls ks 0) _ l' l.world ok after
            (finalize_in platform ks l InfrastructureState.shutting_down).0
            (subst (λ r. EndsWith l'.world (finalization_calls ks 0 ++ closing_calls) r.0)
              (sym same) (quiescent-EndsWith ks l' (sym (ap (λ r. r.1) same) ∙ h))))
    | inr no' ↦ absurd (ground arith)
  ]

  finalize_in-EndsWith :
      (ks : List ResourceKind) (l : InfrastructureLifecycle W) (s : InfrastructureState)
      → (finalize_in platform ks l s).1 ≡ ThreadingFinalizationResult.completed
      → (s ≡ InfrastructureState.shutting_down)
        × EndsWith l.world (completion_calls ks) (finalize_in platform ks l s).0
  unfolding finalize_in
  finalize_in-EndsWith ks l InfrastructureState.shutting_down h =
      (refl, shutting_down-EndsWith ks l h)
  finalize_in-EndsWith ks l s h = absurd (ground arith)

  -- When FinalizeShutdown answers Completed, the state was ShuttingDown and every call that it
  -- has made, besides the read of the state, has succeeded: each resource was found quiescent,
  -- then each in turn was woken, joined and destroyed, the completion was published and the
  -- shutdown waiters were woken. The state is ShutdownComplete and no other call was made.
  pub finalize_shutdown-EndsWith :
      (ks : List ResourceKind) (l : InfrastructureLifecycle W)
      → (finalize_shutdown platform ks l).1 ≡ ThreadingFinalizationResult.completed
      → (l.state ≡ InfrastructureState.shutting_down)
        × EndsWith
            (read_state platform l).0.world
            (completion_calls ks)
            (finalize_shutdown platform ks l).0
  unfolding finalize_shutdown read_state
  finalize_shutdown-EndsWith ks l h = finalize_in-EndsWith ks (read_state platform l).0 l.state h
