-- ===== src/Feed/Subagents/Nested.antt =====
-- The stack of subagents under starts and stops.
use athena_flow_cli.Common.{
  String, Option, some, List, [], ◌∷◌, ◌++◌, ◌==◌, string_eq, true, false, any, or_else, arith, ◌≡◌,
  refl, ap, ◌∙◌, ==_refl,
}
use athena_flow_cli.Feed.Subagents.{
  ActorId, root, subagent, actor_id_eq, remove_last, peek, Subagents, start_subagent, stop_subagent,
  current_actor,
}

any-append_self : (id : ActorId) (xs : List ActorId) → any (λ y. y == id) (xs ++ id ∷ []) ≡ true
any-append_self id [] = ground (arith, ==_refl id)
any-append_self id (x ∷ xs) = ground (arith, any-append_self id xs)

remove_last-append : (id : ActorId) (xs : List ActorId) → remove_last id (xs ++ id ∷ []) ≡ xs
unfolding remove_last
remove_last-append id [] = ground (arith, ==_refl id)
remove_last-append id (x ∷ xs) = ground (arith, any-append_self id xs, remove_last-append id xs)

peek-append : (id : ActorId) (xs : List ActorId) → peek (xs ++ id ∷ []) ≡ some id
unfolding peek
peek-append id [] = refl
peek-append id (x ∷ []) = refl
peek-append id (x ∷ y ∷ xs) = peek-append id (y ∷ xs)

-- Starts and stops that are well nested: each subagent is stopped after those that it contains.
pub data Nest : Type 0 where
  done : Nest
  within : (id : String) (agent_type fallback : Option String) → Nest → Nest → Nest

pub run_nest : Nest → Subagents → Subagents
run_nest done s = s
run_nest (within id agent_type fallback inner rest) s =
    let s' = run_nest inner (start_subagent (some id) agent_type fallback s).0 in
    run_nest rest (stop_subagent (some id) s').0

-- Every id is one, as the hooks' are.
abbrev pub Named : Nest → Type 0
Named done = Unit
Named (within id agent_type fallback inner rest) = ((id == "") ≡ false) × Named inner × Named rest

start-stack :
    (id : String) (agent_type fallback : Option String) (s : Subagents)
    → (id == "") ≡ false
    → (start_subagent (some id) agent_type fallback s).0.tracker.stack
      ≡ s.tracker.stack ++ subagent id ∷ []
unfolding start_subagent
start-stack id agent_type fallback s h = rw h refl

stop-stack :
    (id : String) (s : Subagents)
    → (id == "") ≡ false
    → (stop_subagent (some id) s).0.tracker.stack ≡ remove_last (subagent id) s.tracker.stack
unfolding stop_subagent
stop-stack id s h = rw h refl

-- After well nested starts and stops of subagents whose ids are not empty the stack is as before, so
-- that the same actor acts.
pub run_nest-stack :
    (n : Nest) (s : Subagents) → Named n → (run_nest n s).tracker.stack ≡ s.tracker.stack
unfolding run_nest
run_nest-stack done s h = refl
run_nest-stack (within id agent_type fallback inner rest) s (named, h, k) =
    let s' = (start_subagent (some id) agent_type fallback s).0 in
    let s'' = run_nest inner s' in
    run_nest-stack rest (stop_subagent (some id) s'').0 k
    ∙ stop-stack id s'' named
    ∙ ap (remove_last (subagent id))
        (run_nest-stack inner s' h ∙ start-stack id agent_type fallback s named)
    ∙ remove_last-append (subagent id) s.tracker.stack

-- A started subagent acts until it stops, whatever it starts and stops inside.
pub run_nest-current_actor :
    (id : String) (agent_type fallback : Option String) (inner : Nest) (s : Subagents)
    → (id == "") ≡ false
    → Named inner
    → current_actor (run_nest inner (start_subagent (some id) agent_type fallback s).0)
      ≡ subagent id
unfolding current_actor
run_nest-current_actor id agent_type fallback inner s named h =
    ap (λ o. or_else (peek o) root)
      (run_nest-stack inner _ h ∙ start-stack id agent_type fallback s named)
    ∙ ap (λ o. or_else o root) (peek-append (subagent id) s.tracker.stack)
