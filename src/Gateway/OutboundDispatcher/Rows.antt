-- ===== src/Gateway/OutboundDispatcher/Rows.antt =====
-- The table of parked messages: rising ids, and what a deletion or a failure does to its rows.
use athena_flow_cli.Common.{
  ℕ, suc, ◌+◌, ◌≤◌, ◌<◌, String, ◌≡◌, refl, some, ap, ◌≢◌, List, [], ◌∷◌, ◌++◌, arith, ◌==◌, nat_eq,
  Bool-cases, length, keep, map, not, Bool, All, inl, inr, ◌⊎◌,
}
use athena_flow_cli.Gateway.Outbox.{OutboxRow, failed_row}

-- Row ids, as in the inbound queue: they rise along the table.
abbrev pub Rising : ℕ → ℕ → List OutboxRow → Type 0
Rising lo hi [] = lo ≤ hi
Rising lo hi (r ∷ rs) = (lo ≤ r.id) × Rising (suc r.id) hi rs

pub Rising-append :
    (lo : ℕ) (rs : List OutboxRow) (r : OutboxRow)
    → Rising lo r.id rs
    → Rising lo (suc r.id) (rs ++ r ∷ [])
Rising-append lo [] r h = (h, omega arith)
Rising-append lo (x ∷ xs) r h = (h.0, Rising-append (suc x.id) xs r h.1)

Rising-lower : (lo lo' hi : ℕ) (rs : List OutboxRow) → lo' ≤ lo → Rising lo hi rs → Rising lo' hi rs
Rising-lower lo lo' hi [] h r = omega arith
Rising-lower lo lo' hi (x ∷ xs) h r = (omega arith, r.1)

pub keep-Rising :
    (p : OutboxRow → Bool) (lo hi : ℕ) (rs : List OutboxRow)
    → Rising lo hi rs
    → Rising lo hi (keep p rs)
keep-Rising p lo hi [] h = h
keep-Rising p lo hi (x ∷ xs) h = elim (Bool-cases (p x)) [
  | inl e ↦ rw e (h.0, keep-Rising p (suc x.id) hi xs h.1)
  | inr e ↦
      rw e (
        Rising-lower (suc x.id) lo hi (keep p xs) (omega arith)
          (keep-Rising p (suc x.id) hi xs h.1))
]

pub keep-All :
    (P : OutboxRow → Type 0) (p : OutboxRow → Bool) (rs : List OutboxRow)
    → All P rs
    → All P (keep p rs)
keep-All P p [] h = tt
keep-All P p (x ∷ xs) h = elim (Bool-cases (p x)) [
  | inl e ↦ rw e (h.0, keep-All P p xs h.1)
  | inr e ↦ rw e (keep-All P p xs h.1)
]

failed_row-id : (id at : ℕ) (error : String) (r : OutboxRow) → (failed_row id at error r).id ≡ r.id
failed_row-id id at error r = ground arith

pub failed-Rising :
    (id at : ℕ) (error : String) (lo hi : ℕ) (rs : List OutboxRow)
    → Rising lo hi rs
    → Rising lo hi (map (failed_row id at error) rs)
failed-Rising id at error lo hi [] h = h
failed-Rising id at error lo hi (x ∷ xs) h =
    rw (failed_row-id id at error x) (h.0, failed-Rising id at error (suc x.id) hi xs h.1)

-- A row that stands in the table.
abbrev pub In : OutboxRow → List OutboxRow → Type 0
In r [] = ⊥
In r (x ∷ xs) = (x ≡ r) ⊎ In r xs

above : (lo hi : ℕ) (r : OutboxRow) (rs : List OutboxRow) → Rising lo hi rs → In r rs → lo ≤ r.id
above lo hi r (x ∷ xs) h (inl e) = rw (← e) h.0
above lo hi r (x ∷ xs) h (inr i) = omega (arith, above (suc x.id) hi r xs h.1 i, h.0)
above lo hi r [] h i = elim i [ ]

keep_others :
    (id lo hi : ℕ) (rs : List OutboxRow)
    → Rising lo hi rs
    → id < lo
    → length (keep (λ r. not (r.id == id)) rs) ≡ length rs
keep_others id lo hi [] h lt = refl
keep_others id lo hi (x ∷ xs) h lt = ground (arith, keep_others id (suc x.id) hi xs h.1)

-- Deleting the row of an id that is there takes one row away.
pub length-delete :
    (lo hi : ℕ) (r : OutboxRow) (rs : List OutboxRow)
    → Rising lo hi rs
    → In r rs
    → length (keep (λ x. not (x.id == r.id)) rs) + 1 ≡ length rs
length-delete lo hi r (x ∷ xs) h (inl e) =
    ground (arith, keep_others r.id (suc x.id) hi xs h.1, ap (λ (t : OutboxRow). t.id) e)
length-delete lo hi r (x ∷ xs) h (inr i) =
    ground (arith, length-delete (suc x.id) hi r xs h.1 i, above (suc x.id) hi r xs h.1 i)
length-delete lo hi r [] h i = elim i [ ]

pub length-failed :
    (id at : ℕ) (error : String) (rs : List OutboxRow)
    → length (map (failed_row id at error) rs) ≡ length rs
length-failed id at error [] = refl
length-failed id at error (x ∷ xs) = ap suc (length-failed id at error xs)

-- A row of another id stays.
pub In-delete :
    (id : ℕ) (r : OutboxRow) (rs : List OutboxRow)
    → r.id ≢ id
    → In r rs
    → In r (keep (λ x. not (x.id == id)) rs)
In-delete id r (x ∷ xs) ne (inl e) = elim (Bool-cases (not (x.id == id))) [
  | inl k ↦ rw k (inl e)
  | inr k ↦ absurd (ground (arith, ap (λ (t : OutboxRow). t.id) e))
]
In-delete id r (x ∷ xs) ne (inr i) = elim (Bool-cases (not (x.id == id))) [
  | inl k ↦ rw k (inr (In-delete id r xs ne i))
  | inr k ↦ rw k (In-delete id r xs ne i)
]
In-delete id r [] ne i = elim i [ ]

pub In-failed :
    (id at : ℕ) (error : String) (r : OutboxRow) (rs : List OutboxRow)
    → r.id ≢ id
    → In r rs
    → In r (map (failed_row id at error) rs)
In-failed id at error r (x ∷ xs) ne (inl e) = inl (ground (arith, ap (λ (t : OutboxRow). t.id) e))
In-failed id at error r (x ∷ xs) ne (inr i) = inr (In-failed id at error r xs ne i)
In-failed id at error r [] ne i = elim i [ ]

-- A failure adds one try to its row; with a try to spare, every row stays below the limit.
untouched :
    (id at lo hi most : ℕ) (error : String) (rs : List OutboxRow)
    → Rising lo hi rs
    → id < lo
    → All (λ r. r.attempt < most) rs
    → All (λ r. r.attempt < most) (map (failed_row id at error) rs)
untouched id at lo hi most error [] h lt a = tt
untouched id at lo hi most error (x ∷ xs) h lt (a, b) =
    (ground arith, untouched id at (suc x.id) hi most error xs h.1 (omega arith) b)

pub failed-tries :
    (r : OutboxRow) (at lo hi most : ℕ) (error : String) (rs : List OutboxRow)
    → Rising lo hi rs
    → In r rs
    → r.attempt + 1 < most
    → All (λ r. r.attempt < most) rs
    → All (λ r. r.attempt < most) (map (failed_row r.id at error) rs)
failed-tries r at lo hi most error (x ∷ xs) h (inl e) lt (a, b) = (
  ground (arith, ap (λ (t : OutboxRow). t.attempt) e),
  untouched r.id at (suc x.id) hi most error xs h.1 (omega (arith, ap (λ (t : OutboxRow). t.id) e))
      b,
)
failed-tries r at lo hi most error (x ∷ xs) h (inr i) lt (a, b) = (
  ground (arith, above (suc x.id) hi r xs h.1 i),
  failed-tries r at (suc x.id) hi most error xs h.1 i lt b,
)
failed-tries r at lo hi most error [] h i lt a = elim i [ ]

-- No row of this id is in the table.
abbrev pub Gone : ℕ → List OutboxRow → Type 0
Gone id rs = All (λ s. s.id ≢ id) rs

pub delete-Gone : (id : ℕ) (rs : List OutboxRow) → Gone id (keep (λ r. not (r.id == id)) rs)
delete-Gone id [] = tt
delete-Gone id (x ∷ xs) = elim (Bool-cases (x.id == id)) [
  | inl e ↦ rw e (delete-Gone id xs)
  | inr e ↦ rw e (ground (arith, e), delete-Gone id xs)
]

pub failed-Gone :
    (id j at : ℕ) (error : String) (rs : List OutboxRow)
    → Gone j rs
    → Gone j (map (failed_row id at error) rs)
failed-Gone id j at error [] h = tt
failed-Gone id j at error (x ∷ xs) h =
    (rw (failed_row-id id at error x) h.0, failed-Gone id j at error xs h.1)

-- A row after a failed attempt.
abbrev pub tried : OutboxRow → ℕ → String → OutboxRow
tried r at error = record r {
  attempt = r.attempt + 1;
  next_attempt_at = at;
  last_error = some error;
}

pub In-tried :
    (r : OutboxRow) (at : ℕ) (error : String) (rs : List OutboxRow)
    → In r rs
    → In (tried r at error) (map (failed_row r.id at error) rs)
In-tried r at error (x ∷ xs) (inl e) = inl (rw e (ground arith))
In-tried r at error (x ∷ xs) (inr i) = inr (In-tried r at error xs i)
In-tried r at error [] i = elim i [ ]
