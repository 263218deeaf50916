-- ===== src/Gateway/BindingStore/Timers.antt =====
-- The pending timers of the binding store, under `clearTimeout` and `setTimeout`.
use athena_flow_cli.Common.{
  ℕ, ◌≤◌, ◌<◌, String, ◌≡◌, ◌≢◌, ◌⊎◌, inl, inr, Option, none, some, List, [], ◌∷◌, arith,
  Bool-cases, nat_eq, ◌==◌,
}
use athena_flow_cli.Gateway.Types.{AttachmentKey}
use athena_flow_cli.Gateway.BindingStore.{Timer, clear_timeout}

-- Timer ids fall along the list and stay below the next one.
abbrev pub Below : ℕ → List Timer → Type 0
Below n [] = Unit {0}
Below n (t ∷ ts) = (t.timer_id < n) × Below t.timer_id ts

-- A timer that will expire the slot of `key`, if `runtime` still holds it.
abbrev pub Pending : AttachmentKey → String → List Timer → Type 0
Pending key runtime [] = ⊥
Pending key runtime (t ∷ ts) = ((t.key ≡ key) × (t.runtime_id ≡ runtime)) ⊎ Pending key runtime ts

-- The timers with this id are `key`'s.
abbrev pub Owned : AttachmentKey → ℕ → List Timer → Type 0
Owned key i [] = Unit {0}
Owned key i (t ∷ ts) = (t.timer_id ≡ i → t.key ≡ key) × Owned key i ts

abbrev pub OwnedBy : AttachmentKey → Option ℕ → ℕ → List Timer → Type 0
OwnedBy key none n ts = Unit {0}
OwnedBy key (some i) n ts = (i < n) × Owned key i ts

abbrev pub Scheduled : Timer → List Timer → Type 0
Scheduled t [] = ⊥
Scheduled t (u ∷ ts) = (u ≡ t) ⊎ Scheduled t ts

Below-mono : {m n : ℕ} (ts : List Timer) → m ≤ n → Below m ts → Below n ts
Below-mono [] h b = tt
Below-mono (t ∷ ts) h b = (omega arith, b.1)

pub clear-Below :
    (o : Option ℕ) (n : ℕ) (ts : List Timer) → Below n ts → Below n (clear_timeout o ts)
unfolding clear_timeout
clear-Below none n ts b = b
clear-Below (some i) n [] b = tt
clear-Below (some i) n (t ∷ ts) b = ground (
  arith,
  clear-Below (some i) t.timer_id ts b.1,
  Below-mono {m = t.timer_id} {n = n} (clear_timeout (some i) ts),
)

pub clear-Owned :
    (o : Option ℕ) (key : AttachmentKey) (j : ℕ) (ts : List Timer)
    → Owned key j ts
    → Owned key j (clear_timeout o ts)
unfolding clear_timeout
clear-Owned none key j ts h = h
clear-Owned (some i) key j [] h = tt
clear-Owned (some i) key j (t ∷ ts) (h, hs) = elim (Bool-cases (t.timer_id == i)) [
  | inl e ↦ rw e (clear-Owned (some i) key j ts hs)
  | inr e ↦ rw e (h, clear-Owned (some i) key j ts hs)
]

pub clear-OwnedBy :
    (o : Option ℕ) (key : AttachmentKey) (j : Option ℕ) (n : ℕ) (ts : List Timer)
    → OwnedBy key j n ts
    → OwnedBy key j n (clear_timeout o ts)
clear-OwnedBy o key none n ts h = tt
clear-OwnedBy o key (some j) n ts h = (h.0, clear-Owned o key j ts h.1)

-- Clearing a timer of one slot leaves the other slots' timers pending.
pub clear-Pending :
    (own : AttachmentKey) (o : Option ℕ) (n : ℕ) (key : AttachmentKey) (r : String)
    (ts : List Timer)
    → OwnedBy own o n ts
    → own ≢ key
    → Pending key r ts
    → Pending key r (clear_timeout o ts)
unfolding clear_timeout
clear-Pending own none n key r ts h ne p = p
clear-Pending own (some i) n key r [] h ne p = p
clear-Pending own (some i) n key r (t ∷ ts) (lt, (h, hs)) ne p =
    ground (arith, clear-Pending own (some i) n key r ts (lt, hs) ne)

-- A fresh id belongs to no pending timer.
pub fresh-Owned : (key : AttachmentKey) (n : ℕ) (ts : List Timer) → Below n ts → Owned key n ts
fresh-Owned key n [] b = tt
fresh-Owned key n (t ∷ ts) b =
    (λ e. absurd (omega arith), fresh-Owned key n ts (Below-mono ts (omega arith) b.1))

-- Ids are unique, so clearing a scheduled timer leaves those of other slots and runtimes.
fired-Pending-Below :
    (t : Timer) (key : AttachmentKey) (r : String) (ts : List Timer)
    → Below t.timer_id ts
    → Pending key r ts
    → Pending key r (clear_timeout (some t.timer_id) ts)
unfolding clear_timeout
fired-Pending-Below t key r [] b p = p
fired-Pending-Below t key r (u ∷ ts) b (inl same) = ground arith
fired-Pending-Below t key r (u ∷ ts) b (inr later) = ground (
  arith,
  fired-Pending-Below t key r ts (Below-mono {m = u.timer_id} {n = t.timer_id} ts (omega arith) b.1)
      later,
)

Scheduled-lt : (t : Timer) (n : ℕ) (ts : List Timer) → Below n ts → Scheduled t ts → t.timer_id < n
Scheduled-lt t n (u ∷ ts) b (inl here) = rw (← here) b.0
Scheduled-lt t n (u ∷ ts) b (inr there) = omega (arith, Scheduled-lt t u.timer_id ts b.1 there, b.0)
Scheduled-lt t n [] b s = elim s [ ]

pub fired-Pending :
    (t : Timer) (n : ℕ) (key : AttachmentKey) (r : String) (ts : List Timer)
    → Below n ts
    → Scheduled t ts
    → ((t.key ≢ key) ⊎ (t.runtime_id ≢ r))
    → Pending key r ts
    → Pending key r (clear_timeout (some t.timer_id) ts)
unfolding clear_timeout
fired-Pending t n key r [] b s ne p = p
fired-Pending t n key r (u ∷ ts) b (inl here) ne (inl same) = ground arith
fired-Pending t n key r (u ∷ ts) b (inl here) ne (inr later) =
    ground (arith, fired-Pending-Below t key r ts (rw here at b.1) later)
fired-Pending t n key r (u ∷ ts) b (inr there) ne (inl same) =
    ground (arith, Scheduled-lt t u.timer_id ts b.1 there)
fired-Pending t n key r (u ∷ ts) b (inr there) ne (inr later) =
    ground (arith, fired-Pending t u.timer_id key r ts b.1 there ne later)
