-- ===== src/Channels/Bridge/Dispatches.antt =====
-- The turns that are pushed to src/app/channels/sessionBridge.ts, and what its handlers are given.
use athena_flow_cli.Common.{
  ℕ, some, List, [], ◌∷◌, ◌++◌, map, append-nil, append_assoc, Bool, false, not, ◌&&◌, ◌==◌, nat_eq,
  option_eq, arith, ◌≡◌, refl, Bool-cases, inl, inr, ◌⊎◌, if◌then◌else◌, length, keep, ◌≤◌, ◌<◌,
  leb, ltb, ap, sym, ◌∙◌, All,
}
use athena_flow_cli.Channels.Bridge.{
  SessionBridge, new_session_bridge, start, client_connected, register_succeeded, connect_failed,
  register_failed, timer_fired, client_closed, begin_stop, end_stop, push_turn, on_turn_dispatch,
  off_turn_dispatch, Call, call_start, stop_ends, push, subscribe, unsubscribe, step, replay,
}
use athena_flow_cli.Channels.Bridge.Life.{run, Sequential}

-- With a handler there, nothing is buffered.
record Drained {P : Type 0} (b : SessionBridge P) : Type 0 where
  drained : 0 < length b.handlers → b.buffered ≡ []

length-keep-le {ℓ} : {A : Type ℓ} (p : A → Bool) (xs : List A) → length (keep p xs) ≤ length xs
length-keep-le p [] = omega arith
length-keep-le p (x ∷ xs) = ground (arith, length-keep-le p xs)

List-cases {ℓ} : {A : Type ℓ} (xs : List A) → (xs ≡ []) ⊎ ((x : A) × (ys : List A) × (xs ≡ x ∷ ys))
List-cases [] = inl refl
List-cases (x ∷ xs) = inr (x, xs, refl)

module _ {P : Type 0} where
  -- The turns that reach the bridge: those pushed over the client that it listens on.
  unfoldable pub accepted : SessionBridge P → Call P → List P
  accepted b (push c payload) = if b.subscribed == some c then payload ∷ [] else []
  accepted b _ = []

  -- The turns that a step hands over: a pushed one to all handlers at once, buffered ones to the new one.
  unfoldable pub handed_over : Call P → List (ℕ × P) → List P
  handed_over (push c payload) [] = []
  handed_over (push c payload) (d ∷ ds) = payload ∷ []
  handed_over _ ds = map (λ (d : ℕ × P). d.1) ds

  -- What a step gives to the handlers: a push over the client that the bridge listens on goes to every
  -- handler once, in their order, and no other push to any; a new handler is given turns alone; and
  -- no other call gives any.
  abbrev pub Handed : SessionBridge P → Call P → List (ℕ × P) → Type 0
  Handed b (push c payload) ds =
      ds ≡ map (λ (h : ℕ). (h, payload)) (if b.subscribed == some c then b.handlers else [])
  Handed b (subscribe h) ds = ds ≡ replay h (map (λ (d : ℕ × P). d.1) ds)
  Handed b _ ds = ds ≡ []

  -- Only the end of `stop` throws buffered turns away.
  abbrev pub Keeps : Call P → Type 0
  Keeps stop_ends = ⊥
  Keeps call_start = Unit
  Keeps _ = Unit

  map-replay : (h : ℕ) (ps : List P) → map (λ (d : ℕ × P). d.1) (replay h ps) ≡ ps
  map-replay h [] = refl
  map-replay h (p ∷ ps) = ap (◌∷◌ p) (map-replay h ps)

  nil_of_length : (ps : List P) → ltb 0 (length ps) ≡ false → ps ≡ []
  nil_of_length [] h = refl
  nil_of_length (p ∷ ps) h = absurd (ground arith)

  push_turn-Handed :
      (b : SessionBridge P) (c : ℕ) (payload : P)
      → Handed b (push c payload) (push_turn c payload b).1
  unfolding push_turn
  push_turn-Handed b c payload = elim (Bool-cases (b.subscribed == some c)) [
    | inr e ↦ ground (arith, e)
    | inl e ↦ elim (List-cases b.handlers) [
      | inl q ↦ rw (e, q) refl
      | inr (h, hs, q) ↦
          let more : leb (length b.handlers) 0 ≡ false = rw q (ground arith) in rw (e, more) refl
    ]
  ]

  on_turn_dispatch-Handed :
      (b : SessionBridge P) (h : ℕ) → Handed b (subscribe h) (on_turn_dispatch h b).1
  unfolding on_turn_dispatch
  on_turn_dispatch-Handed b h =
      elim (Bool-cases (leb (length b.handlers) 0 && ltb 0 (length b.buffered))) [
        | inl e ↦ rw (e, on_turn_dispatch) (ap (replay h) (sym (map-replay h b.buffered)))
        | inr e ↦ rw (e, on_turn_dispatch) refl
      ]

  step-Handed : (b : SessionBridge P) (c : Call P) → Handed b c (step b c).1
  unfolding step
  step-Handed b (push c payload) = push_turn-Handed b c payload
  step-Handed b (subscribe h) = on_turn_dispatch-Handed b h
  step-Handed b _ = refl

  -- Each step of the run hands over exactly so.
  abbrev pub AllHanded : SessionBridge P → List (Call P) → Type 0
  AllHanded b [] = Unit
  AllHanded b (c ∷ cs) = Handed b c (step b c).1 × AllHanded (step b c).0 cs

  run-AllHanded : (b : SessionBridge P) (cs : List (Call P)) → AllHanded b cs
  run-AllHanded b [] = tt
  run-AllHanded b (c ∷ cs) = (step-Handed b c, run-AllHanded (step b c).0 cs)

  step-Drained : (b : SessionBridge P) (c : Call P) → Drained b → Drained (step b c).0
  unfolding step start client_connected connect_failed register_succeeded register_failed
      timer_fired client_closed begin_stop end_stop push_turn on_turn_dispatch off_turn_dispatch
  step-Drained b call_start d = ground (arith, d)
  step-Drained b (subscribe h) d = elim (Bool-cases (ltb 0 (length b.buffered))) [
    | inl e ↦ ground (arith, d)
    | inr e ↦ ground (arith, d, nil_of_length b.buffered e)
  ]
  step-Drained b (unsubscribe h) d =
      ground (arith, d, length-keep-le {0} (λ i. not (i == h)) b.handlers)
  step-Drained b _ d = ground (arith, d)

  push-order :
      (b : SessionBridge P) (c : ℕ) (payload : P)
      → Drained b
      → b.buffered ++ accepted b (push c payload)
        ≡ handed_over (push c payload) (push_turn c payload b).1
          ++ (push_turn c payload b).0.buffered
  unfolding push_turn accepted handed_over
  push-order b c payload d = elim (Bool-cases (b.subscribed == some c)) [
    | inr e ↦ ground (arith, append-nil b.buffered)
    | inl e ↦ elim (List-cases b.handlers) [
      | inl q ↦ ground (arith, q)
      | inr (h, hs, q) ↦ ground (arith, q, d.drained (rw q (omega arith)))
    ]
  ]

  subscribe-order :
      (b : SessionBridge P) (h : ℕ)
      → b.buffered ++ []
        ≡ map (λ (d : ℕ × P). d.1) (on_turn_dispatch h b).1 ++ (on_turn_dispatch h b).0.buffered
  unfolding on_turn_dispatch
  subscribe-order b h =
      append-nil b.buffered
      ∙ elim (Bool-cases (leb (length b.handlers) 0 && ltb 0 (length b.buffered))) [
        | inl e ↦ rw (e, on_turn_dispatch) (sym (append-nil _ ∙ map-replay h b.buffered))
        | inr e ↦ rw (e, on_turn_dispatch) refl
      ]

  -- What a step accepts it hands over or buffers, after what was buffered.
  step-order :
      (b : SessionBridge P) (c : Call P)
      → Drained b
      → Keeps c
      → b.buffered ++ accepted b c ≡ handed_over c (step b c).1 ++ (step b c).0.buffered
  unfolding step start client_connected connect_failed register_succeeded register_failed
      timer_fired client_closed begin_stop push_turn on_turn_dispatch off_turn_dispatch accepted
      handed_over
  step-order b call_start d k = append-nil b.buffered ∙ ground arith
  step-order b stop_ends d k = absurd k
  step-order b (push c payload) d k = push-order b c payload d
  step-order b (subscribe h) d k = subscribe-order b h
  step-order b _ d k = append-nil b.buffered ∙ ground arith

  -- The turns of some calls, and what is left buffered.
  pub all_accepted : SessionBridge P → List (Call P) → List P
  all_accepted b [] = []
  all_accepted b (c ∷ cs) = accepted b c ++ all_accepted (step b c).0 cs

  pub all_handed_over : SessionBridge P → List (Call P) → List P
  all_handed_over b [] = []
  all_handed_over b (c ∷ cs) = handed_over c (step b c).1 ++ all_handed_over (step b c).0 cs

  run-order :
      (b : SessionBridge P) (cs : List (Call P))
      → Drained b
      → All Keeps cs
      → b.buffered ++ all_accepted b cs ≡ all_handed_over b cs ++ (run b cs).buffered
  unfolding run all_accepted all_handed_over
  run-order b [] d k = append-nil b.buffered
  run-order b (c ∷ cs) d k =
      let b' = (step b c).0 in
      sym (append_assoc b.buffered (accepted b c) (all_accepted b' cs))
      ∙ ap (λ ps. ps ++ all_accepted b' cs) (step-order b c d k.0)
      ∙ append_assoc (handed_over c (step b c).1) b'.buffered (all_accepted b' cs)
      ∙ ap (λ ps. handed_over c (step b c).1 ++ ps) (run-order b' cs (step-Drained b c d) k.1)
      ∙ sym (append_assoc (handed_over c (step b c).1) (all_handed_over b' cs) (run b' cs).buffered)

  -- Over any calls of a new bridge, reconnections and changing handlers included, in which no `start`
  -- begins while another is under way, up to the end of a `stop`: the turns that are handed over, and
  -- those that are still buffered, are the turns that were pushed over the client it listened on, in the
  -- order in which they came, each once. A turn that is pushed while there are handlers goes to each of
  -- them once, buffered turns go to the first handler that comes, and no other step hands anything over.
  pub run-Hands :
      (cs : List (Call P))
      → All Keeps cs
      → Sequential new_session_bridge cs
      → (all_accepted new_session_bridge cs
          ≡ all_handed_over new_session_bridge cs ++ (run new_session_bridge cs).buffered)
        × AllHanded new_session_bridge cs
  run-Hands cs k alone = (
    run-order new_session_bridge cs (record { drained = λ h. refl }) k,
    run-AllHanded new_session_bridge cs,
  )
