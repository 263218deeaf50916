-- ===== src/Dashboard/AssignmentIntake/Answers.antt =====
-- The answers to the assignments that arrive.
use mathlib.Core.Logic.{◌⊎◌, inl, inr}
use athena_flow_cli.Common.{
  ℕ, String, Option, none, List, [], ◌∷◌, ◌++◌, map-append_lem, map, arith, ◌≡◌, refl, sym, ap, ◌∙◌,
  Option-cases, append-nil, append_assoc, is_some, true,
}
use athena_flow_cli.Dashboard.PairedExecution.{
  PairedExecution, Rejection, accepted, admission_rejected, Admission,
}
use athena_flow_cli.Dashboard.AssignmentIntake.{
  JobAssignmentFrame, ValidatedAssignment, Answer, assignment_accepted, assignment_rejected, Intake,
  Call, receives, ready, not_ready, executes, handle, handle_all, receive, mark_ready,
  mark_not_ready, step, validate_dashboard_assignment, refuse, answer_of, admit_resolved,
  handle_validated,
}

-- The runs that are answered, that wait, and that calls assign.
abbrev pub answered : Answer → String
answered (assignment_accepted id) = id
answered (assignment_rejected id rejection) = id

abbrev pub assigned_ids : {R : Type 0} → List (JobAssignmentFrame R) → List String
assigned_ids [] = []
assigned_ids (f ∷ fs) = f.run_id ∷ assigned_ids fs

abbrev pub received : {R C : Type 0} → List (Call R C) → List String
received [] = []
received (receives f now ∷ cs) = f.run_id ∷ received cs
received (ready c now ∷ cs) = received cs
received (not_ready ∷ cs) = received cs
received (executes c ∷ cs) = received cs

abbrev pub new_intake : {R C : Type 0} → PairedExecution → Intake R C
new_intake e = record { pending = []; context = none; execution = e }

module _ {R S C : Type 0} (parse : R → Option S)
    (resolve : ValidatedAssignment R S → C → String ⊎ Rejection) where
  -- The state after some calls, and all that was answered.
  unfoldable pub run : Intake R C → List (Call R C) → Intake R C × List Answer
  run i [] = (i, [])
  run i (c ∷ cs) =
      let (i', answers) = step parse resolve i c in
      let (i'', more) = run i' cs in (i'', answers ++ more)

  answered-answer_of : (id : String) (o : Admission) → answered (answer_of id o) ≡ id
  answered-answer_of id accepted = refl
  answered-answer_of id (admission_rejected r) = refl

  admit_resolved-answered :
      (f : JobAssignmentFrame R) (a : ValidatedAssignment R S) (w : String ⊎ Rejection) (now : ℕ)
      (e : PairedExecution)
      → answered (admit_resolved f a w now e).1 ≡ f.run_id
  unfolding admit_resolved refuse
  admit_resolved-answered f a (inr r) now e = refl
  admit_resolved-answered f a (inl dir) now e = answered-answer_of f.run_id _

  handle_validated-answered :
      (f : JobAssignmentFrame R) (v : ValidatedAssignment R S ⊎ Rejection) (c : C) (now : ℕ)
      (e : PairedExecution)
      → answered (handle_validated parse resolve f v c now e).1 ≡ f.run_id
  unfolding handle_validated refuse
  handle_validated-answered f (inr r) c now e = refl
  handle_validated-answered f (inl a) c now e = admit_resolved-answered f a (resolve a c) now e

  handle-answered :
      (f : JobAssignmentFrame R) (c : C) (now : ℕ) (e : PairedExecution)
      → answered (handle parse resolve f c now e).1 ≡ f.run_id
  unfolding handle
  handle-answered f c now e =
      handle_validated-answered f (validate_dashboard_assignment parse f) c now e

  assigned_ids-append :
      (fs gs : List (JobAssignmentFrame R))
      → assigned_ids (fs ++ gs) ≡ assigned_ids fs ++ assigned_ids gs
  assigned_ids-append [] gs = refl
  assigned_ids-append (f ∷ fs) gs = ap (◌∷◌ f.run_id) (assigned_ids-append fs gs)

  handle_all-answered :
      (fs : List (JobAssignmentFrame R)) (c : C) (now : ℕ) (e : PairedExecution)
      → map answered (handle_all parse resolve fs c now e).1 ≡ assigned_ids fs
  unfolding handle_all
  handle_all-answered [] c now e = refl
  handle_all-answered (f ∷ fs) c now e = ground (
    arith,
    handle-answered f c now e,
    handle_all-answered fs c now (handle parse resolve f c now e).0,
  )

  -- While the daemon is ready nothing waits.
  abbrev pub Prompt : Intake R C → Type 0
  Prompt i = is_some i.context ≡ true → i.pending ≡ []

  -- What a step answers, with what waits before and after it.
  abbrev pub Orders : Intake R C → Call R C → Intake R C × List Answer → Type 0
  Orders i c (i', answers) =
      Prompt i'
      × (map answered answers ++ assigned_ids i'.pending
          ≡ assigned_ids i.pending ++ received (c ∷ []))

  receive-Orders :
      (f : JobAssignmentFrame R) (now : ℕ) (i : Intake R C)
      → Prompt i
      → Orders i (receives f now) (receive parse resolve f now i)
  unfolding receive
  receive-Orders f now i h = elim (Option-cases i.context) [
    | inl p ↦ rw p (λ q. absurd (ground arith), assigned_ids-append i.pending (f ∷ []))
    | inr (c, p) ↦
        rw p (λ q. h (ground arith), ground (arith, handle-answered f c now i.execution, h))
  ]

  step-Orders : (i : Intake R C) (c : Call R C) → Prompt i → Orders i c (step parse resolve i c)
  unfolding step mark_ready mark_not_ready
  step-Orders i (receives f now) h = receive-Orders f now i h
  step-Orders i (ready c now) h = (
    λ p. refl,
    append-nil _ ∙ handle_all-answered i.pending c now i.execution ∙ sym (append-nil _),
  )
  step-Orders i not_ready h = ((λ p. absurd (ground arith)), sym (append-nil _))
  step-Orders i (executes call) h = (h, sym (append-nil _))

  received-step :
      (c : Call R C) (cs : List (Call R C)) → received (c ∷ cs) ≡ received (c ∷ []) ++ received cs
  received-step (receives f now) cs = refl
  received-step (ready c now) cs = refl
  received-step not_ready cs = refl
  received-step (executes c) cs = refl

  run-Orders :
      (cs : List (Call R C)) (i : Intake R C)
      → Prompt i
      → Prompt (run i cs).0
        × (map answered (run i cs).1 ++ assigned_ids (run i cs).0.pending
            ≡ assigned_ids i.pending ++ received cs)
  unfolding run
  run-Orders [] i h = (h, sym (append-nil _))
  run-Orders (c ∷ cs) i h =
      let (p, first) = step-Orders i c h in
      let (q, rest) = run-Orders cs (step parse resolve i c).0 p in
      let here = map answered (step parse resolve i c).1 in
      (
        q,
        ap (λ ids. ids ++ assigned_ids (run (step parse resolve i c).0 cs).0.pending)
              (map-append_lem answered (step parse resolve i c).1
                (run (step parse resolve i c).0 cs).1)
            ∙ append_assoc here _ _
            ∙ ap (λ ids. here ++ ids) rest
            ∙ sym (append_assoc here _ _)
            ∙ ap (λ ids. ids ++ received cs) first
            ∙ append_assoc (assigned_ids i.pending) _ _
            ∙ ap (λ ids. assigned_ids i.pending ++ ids) (sym (received-step c cs)),
      )

  -- Whatever assignments arrive, whenever the daemon becomes ready or not, and whatever runs end
  -- meanwhile: the runs that were answered, and after them those that wait, are the assigned runs in the
  -- order of arrival, each once; and none waits while the daemon is ready.
  pub run-Answers :
      (cs : List (Call R C)) (e : PairedExecution)
      → let (i, answers) = run (new_intake e) cs in
        (map answered answers ++ assigned_ids i.pending ≡ received cs)
        × (is_some i.context ≡ true → i.pending ≡ [])
  run-Answers cs e = let (h, k) = run-Orders cs (new_intake e) (λ p. refl) in (k, h)
