-- ===== src/Gateway/ChannelManager/Window.antt =====
-- The window of recent messages: its specification is the list of all the keys that were let through.
use Prim.Native.Nat.{◌-◌}
use athena_flow_cli.Common.{
  ℕ, zero, suc, ◌≤◌, String, none, some, List, [], ◌∷◌, ◌++◌, if◌then◌else◌, ◌==◌, string_eq, true,
  false, not, ◌&&◌, ◌||◌, length, length-append, ltb, arith, ◌≡◌, refl, sym, ap, ◌∙◌, Bool-cases,
  inl, inr,
}
use athena_flow_cli.Gateway.Types.{NormalizedInbound}
use athena_flow_cli.Gateway.ChannelManager.{
  ChannelManager, get_attachment_id, has, remove, evict, handle_inbound,
}

pub drop : ℕ → List String → List String
drop zero xs = xs
drop (suc n) [] = []
drop (suc n) (x ∷ xs) = drop n xs

-- The last `n` of a list.
abbrev pub last : ℕ → List String → List String
last n xs = drop (length xs - n) xs

abbrev Distinct : List String → Type 0
Distinct [] = Unit
Distinct (x ∷ xs) = (has x xs ≡ false) × Distinct xs

evict-last : (n : ℕ) (q keys : List String) → (evict n q keys).0 ≡ last n q
unfolding evict drop
evict-last n [] keys = unfold drop in ground arith
evict-last n (x ∷ q) keys = elim (Bool-cases (ltb n (length (x ∷ q)))) [
  | inl e ↦
      let less : length (x ∷ q) - n ≡ suc (length q - n) = ground arith in
      rw (e, less) (evict-last n q (remove x keys))
  | inr e ↦ let all : length (x ∷ q) - n ≡ 0 = ground arith in rw (e, all) refl
]

last-append :
    (n : ℕ) (xs : List String) (k : String) → last n (last n xs ++ k ∷ []) ≡ last n (xs ++ k ∷ [])
unfolding drop
last-append n [] k = unfold drop in ground arith
last-append n (x ∷ xs) k = elim (Bool-cases (ltb n (length (x ∷ xs)))) [
  | inl e ↦
      let less : length (x ∷ xs) - n ≡ suc (length xs - n) = ground arith in
      let less' : length (x ∷ xs ++ k ∷ []) - n ≡ suc (length (xs ++ k ∷ []) - n) =
        ground (arith, length-append {0} xs (k ∷ [])) in
      rw (less, less') (last-append n xs k)
  | inr e ↦ let all : length (x ∷ xs) - n ≡ 0 = ground arith in rw all refl
]

has-remove :
    (k y : String) (keys : List String) → has k (remove y keys) ≡ (not (y == k) && has k keys)
has-remove k y [] = ground arith
has-remove k y (x ∷ keys) = ground (arith, has-remove k y keys)

evict-set :
    (n : ℕ) (q keys : List String)
    → Distinct q
    → ((k : String) → has k keys ≡ has k q)
    → (k : String) → has k (evict n q keys).1 ≡ has k (evict n q keys).0
unfolding evict
evict-set n [] keys d h k = h k
evict-set n (x ∷ q) keys d h k = elim (Bool-cases (ltb n (length (x ∷ q)))) [
  | inl e ↦
      rw e
        (evict-set n q (remove x keys) d.1 (λ j. ground (arith, has-remove j x keys, h j, d.0)) k)
  | inr e ↦ rw e (h k)
]

evict-Distinct : (n : ℕ) (q keys : List String) → Distinct q → Distinct (evict n q keys).0
unfolding evict
evict-Distinct n [] keys d = tt
evict-Distinct n (x ∷ q) keys d = elim (Bool-cases (ltb n (length (x ∷ q)))) [
  | inl e ↦ rw e (evict-Distinct n q (remove x keys) d.1)
  | inr e ↦ rw e d
]

has-append : (k j : String) (xs : List String) → has k (xs ++ j ∷ []) ≡ (has k xs || (j == k))
has-append k j [] = ground arith
has-append k j (x ∷ xs) = ground (arith, has-append k j xs)

append-Distinct :
    (xs : List String) (k : String) → has k xs ≡ false → Distinct xs → Distinct (xs ++ k ∷ [])
append-Distinct [] k h d = (refl, tt)
append-Distinct (x ∷ xs) k h d =
    (ground (arith, has-append x k xs, d.0), append-Distinct xs k (ground arith) d.1)

-- The keys that a window of `n` lets through, in order.
pub passes : ℕ → List String → List String → List String
passes n seen [] = seen
passes n seen (k ∷ ks) = passes n (if has k (last n seen) then seen else seen ++ k ∷ []) ks

record Inv (seen : List String) (m : ChannelManager) : Type 0 where
  window : m.dedup ≡ last m.dedup_max seen
  members : (k : String) → has k m.dedup_set ≡ has k m.dedup
  distinct : Distinct m.dedup

-- What a message leaves, whether or not there is a sink.
unfoldable pub after_inbound : String → ChannelManager → ChannelManager
unfolding evict
after_inbound key m =
    let (dedup, keys) = evict m.dedup_max (m.dedup ++ key ∷ []) (m.dedup_set ++ key ∷ []) in
    if has key m.dedup_set then m else record m { dedup = dedup; dedup_set = keys }

handle_inbound-after :
    (channel : String) (msg : NormalizedInbound) (m : ChannelManager)
    → (handle_inbound channel msg m).0 ≡ after_inbound msg.idempotency_key m
unfolding handle_inbound after_inbound
handle_inbound-after channel msg m = ground arith

after_inbound-Inv :
    (seen : List String) (key : String) (m : ChannelManager)
    → Inv seen m
    → Inv (if has key (last m.dedup_max seen) then seen else seen ++ key ∷ []) (after_inbound key m)
unfolding after_inbound
after_inbound-Inv seen key m v =
    let same : has key (last m.dedup_max seen) ≡ has key m.dedup_set =
      ap (has key) (sym v.window) ∙ sym (v.members key) in
    elim (Bool-cases (has key m.dedup_set)) [
      | inl e ↦ rw (same, e) v
      | inr e ↦
          let absent : has key m.dedup ≡ false = sym (v.members key) ∙ e in
          let distinct : Distinct (m.dedup ++ key ∷ []) =
            append-Distinct m.dedup key absent v.distinct in
          rw (same, e)
            (record {
              window =
                  evict-last m.dedup_max (m.dedup ++ key ∷ []) (m.dedup_set ++ key ∷ [])
                  ∙ ap (λ q. last m.dedup_max (q ++ key ∷ [])) v.window
                  ∙ last-append m.dedup_max seen key;
              members =
                  evict-set m.dedup_max (m.dedup ++ key ∷ []) (m.dedup_set ++ key ∷ []) distinct
                    (λ k.
                      ground (
                        arith,
                        has-append k key m.dedup,
                        has-append k key m.dedup_set,
                        v.members k,
                      ));
              distinct = evict-Distinct m.dedup_max _ _ distinct;
            })
    ]

-- Inbound messages, each from a channel.
unfoldable pub run_inbound : List (String × NormalizedInbound) → ChannelManager → ChannelManager
run_inbound [] m = m
run_inbound ((channel, msg) ∷ calls) m = run_inbound calls (handle_inbound channel msg m).0

abbrev pub keys_of : List (String × NormalizedInbound) → List String
keys_of [] = []
keys_of ((channel, msg) ∷ calls) = msg.idempotency_key ∷ keys_of calls

after_inbound_max :
    (key : String) (m : ChannelManager) → (after_inbound key m).dedup_max ≡ m.dedup_max
unfolding after_inbound
after_inbound_max key m = ground arith

run_inbound-Inv :
    (n : ℕ) (seen : List String) (calls : List (String × NormalizedInbound)) (m : ChannelManager)
    → m.dedup_max ≡ n
    → Inv seen m
    → Inv (passes n seen (keys_of calls)) (run_inbound calls m)
unfolding passes run_inbound
run_inbound-Inv n seen [] m e v = v
run_inbound-Inv n seen ((channel, msg) ∷ calls) m e v =
    let key = msg.idempotency_key in
    rw handle_inbound-after (
      rw (← e) (
        run_inbound-Inv m.dedup_max
          (if has key (last m.dedup_max seen) then seen else seen ++ key ∷ []) calls
          (after_inbound key m) (after_inbound_max key m) (after_inbound-Inv seen key m v)))

length-drop : (n : ℕ) (xs : List String) → length (drop n xs) ≡ length xs - n
unfolding drop
length-drop zero xs = omega arith
length-drop (suc n) [] = omega arith
length-drop (suc n) (x ∷ xs) = omega (arith, length-drop n xs)

handle_inbound-kept :
    (channel : String) (msg : NormalizedInbound) (m : ChannelManager)
    → let m' = (handle_inbound channel msg m).0 in
      (m'.has_sink ≡ m.has_sink) × (m'.entries ≡ m.entries) × (m'.dedup_max ≡ m.dedup_max)
unfolding handle_inbound
handle_inbound-kept channel msg m = ground arith

run_inbound-kept :
    (calls : List (String × NormalizedInbound)) (m : ChannelManager)
    → ((run_inbound calls m).has_sink ≡ m.has_sink)
      × ((run_inbound calls m).entries ≡ m.entries)
      × ((run_inbound calls m).dedup_max ≡ m.dedup_max)
unfolding run_inbound
run_inbound-kept [] m = (refl, refl, refl)
run_inbound-kept ((channel, msg) ∷ calls) m =
    let rest = run_inbound-kept calls (handle_inbound channel msg m).0 in
    let first = handle_inbound-kept channel msg m in
    (rest.0 ∙ first.0, rest.1 ∙ first.1, rest.2 ∙ first.2)

-- Over a manager with a sink that has let nothing through yet, after any messages from any channels:
-- the window holds as many keys as it is wide at most, and a message is passed to the sink, with the
-- attachment of its channel, exactly when its key is not among the last keys, as many as the window is
-- wide, that were let through.
pub handle_inbound-Passes :
    (m : ChannelManager) (calls : List (String × NormalizedInbound)) (channel : String)
    (msg : NormalizedInbound)
    → m.has_sink ≡ true
    → m.dedup ≡ []
    → m.dedup_set ≡ []
    → let m' = run_inbound calls m in
      (length m'.dedup ≤ m.dedup_max)
      × ((handle_inbound channel msg m').1 ≡ (
          if has msg.idempotency_key (last m.dedup_max (passes m.dedup_max [] (keys_of calls)))
          then none
          else some (msg, get_attachment_id channel m)))
unfolding handle_inbound get_attachment_id
handle_inbound-Passes m calls channel msg sink empty empty_set =
    let n : ℕ = m.dedup_max in
    let key = msg.idempotency_key in
    let start : Inv [] m = record {
      window = unfold drop in ground arith;
      members = λ k. rw (empty, empty_set) refl;
      distinct = rw empty tt;
    } in
    let v = run_inbound-Inv n [] calls m refl start in
    let kept = run_inbound-kept calls m in
    let seen = passes n [] (keys_of calls) in
    let window : (run_inbound calls m).dedup ≡ last n seen =
      v.window ∙ ap (λ w. last w seen) kept.2 in
    let member : has key (run_inbound calls m).dedup_set ≡ has key (last n seen) =
      v.members key ∙ ap (has key) window in
    (
      ground (arith, window, length-drop (length seen - n) seen),
      ground (arith, member, kept.0, kept.1, sink),
    )
