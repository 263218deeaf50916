-- ===== src/Feed/ToolCorrelation/Stream.antt =====
-- The streamed output of a tool, beside all that it has written.
use athena_flow_cli.Common.{
  subst, leb→le, ==_refl, eq_of_==, fold_left, ◌<◌, ℕ, ◌≤◌, String, none, some, List, [], ◌∷◌, ◌++◌,
  if◌then◌else◌, ltb, leb, ◌==◌, string_eq, eq_of_==, true, false, length, length-append, or_else,
  is_some, ◌≡◌, refl, sym, ◌∙◌, arith, Bool-cases, inl, inr, fold_left,
}
use athena_flow_cli.Common.Dict.{get-set_self, get-set_self, get, get-set, get-delete}
use athena_flow_cli.Common.Text.{Text}
use athena_flow_cli.Feed.ToolCorrelation.{
  ToolCorrelation, no_tools, tail, record_pre, forget_tool, cumulative, with_notice, add_delta,
  append_delta, ToolCall, pre, forget, delta, reset, tool_step,
}

tail-fits : (limit : ℕ) (s : Text) → length s ≤ limit → tail limit s ≡ s
tail-fits limit [] h = refl
tail-fits limit (c ∷ s) h = ground arith

length-tail-le : (limit : ℕ) (s : Text) → length (tail limit s) ≤ limit
length-tail-le limit [] = omega arith
length-tail-le limit (c ∷ s) = ground (arith, length-tail-le limit s)

longer :
    (limit c : ℕ) (s t : Text)
    → ltb limit (length (c ∷ s)) ≡ true
    → ltb limit (length (c ∷ s ++ t)) ≡ true
longer limit c s t h = ground (arith, length-append s t)

tail_absorbs : (limit : ℕ) (s t : Text) → tail limit (tail limit s ++ t) ≡ tail limit (s ++ t)
tail_absorbs limit [] t = refl
tail_absorbs limit (c ∷ s) t = elim (Bool-cases (ltb limit (length (c ∷ s)))) [
  | inl e ↦ rw (e, longer limit c s t e) (tail_absorbs limit s t)
  | inr e ↦ rw e refl
]

length-tail-full : (limit : ℕ) (s : Text) → limit ≤ length s → length (tail limit s) ≡ limit
length-tail-full limit [] h = omega arith
length-tail-full limit (c ∷ s) h = ground (arith, length-tail-full limit s)

-- What a tool has written since it was last forgotten, after one more call.
abbrev pub hears : String → Text → ToolCall → Text
hears id text (pre use_id event_id) = text
hears id text (forget use_id) = if use_id == id then [] else text
hears id text (delta none chunk) = text
hears id text (delta (some use_id) chunk) = if use_id == id then text ++ chunk else text
hears id text reset = []

abbrev pub written : String → List ToolCall → Text
written id calls = fold_left (hears id) [] calls

length-tail-le_self : (limit : ℕ) (s : Text) → length (tail limit s) ≤ length s
length-tail-le_self limit [] = omega arith
length-tail-le_self limit (c ∷ s) = ground (arith, length-tail-le_self limit s)

record Holds (limit : ℕ) (t : ToolCorrelation) (id : String) (text : Text) : Type 0 where
  text_is : or_else (get id t.tool_delta_text_by_use_id) [] ≡ tail limit text
  truncated_is : is_some (get id t.truncated_tool_delta_use_ids) ≡ ltb limit (length text)

still_fits :
    (limit : ℕ) (s t : Text)
    → length (tail limit s ++ t) ≤ limit
    → ltb limit (length s) ≡ ltb limit (length (s ++ t))
still_fits limit s t h = elim (Bool-cases (ltb limit (length s))) [
  | inl e ↦ ground (arith, length-append s t)
  | inr e ↦ fits e (rw (tail-fits limit s (ground arith)) at h)
]
  where
    fits :
        ltb limit (length s) ≡ false
        → length (s ++ t) ≤ limit
        → ltb limit (length s) ≡ ltb limit (length (s ++ t))
    fits e k = ground (arith, length-append s t)

overflows :
    (limit : ℕ) (s t : Text)
    → limit < length (tail limit s ++ t)
    → ltb limit (length (s ++ t)) ≡ true
overflows limit s t h =
    ground (arith, length-append s t, length-append (tail limit s) t, length-tail-le_self limit s)

-- The output that is shown for what a tool has written.
abbrev pub shown : ℕ → Text → Text
shown limit text = with_notice (ltb limit (length text)) (tail limit text)

kept :
    (limit : ℕ) (text chunk : Text)
    → leb (length (tail limit text ++ chunk)) limit ≡ true
    → tail limit text ++ chunk ≡ tail limit (text ++ chunk)
kept limit text chunk e =
    sym (tail-fits limit (tail limit text ++ chunk) (ground arith)) ∙ tail_absorbs limit text chunk

add_delta-Holds :
    (limit : ℕ) (id : String) (chunk : Text) (t : ToolCorrelation) (text : Text)
    → Holds limit t id text
    → Holds limit (add_delta limit id chunk t).0 id (text ++ chunk)
      × ((add_delta limit id chunk t).1 ≡ shown limit (text ++ chunk))
unfolding add_delta
add_delta-Holds limit id chunk t text h =
    elim (Bool-cases (leb (length (tail limit text ++ chunk)) limit)) [
      | inl e ↦
          let flag = h.truncated_is ∙ still_fits limit text chunk (leb→le _ _ e) in
          rw (h.text_is, e)
            (
              record {
                text_is = simp (get-set_self) (kept limit text chunk e);
                truncated_is = flag;
              },
              rw (flag, kept limit text chunk e) refl,
            )
      | inr e ↦
          let over = overflows limit text chunk (ground arith) in
          rw (h.text_is, e)
            (
              record {
                text_is = simp (get-set_self) (tail_absorbs limit text chunk);
                truncated_is = simp (get-set_self) (sym over);
              },
              rw (over, tail_absorbs limit text chunk) refl,
            )
    ]

add_delta-Holds_other :
    (limit : ℕ) (use_id id : String) (chunk : Text) (t : ToolCorrelation) (text : Text)
    → (use_id == id) ≡ false
    → Holds limit t id text
    → Holds limit (add_delta limit use_id chunk t).0 id text
unfolding add_delta
add_delta-Holds_other limit use_id id chunk t text e h =
    elim (Bool-cases (leb (length (cumulative use_id chunk t)) limit)) [
      | inl f ↦
          rw f (record { text_is = simp (e, get-set) h.text_is; truncated_is = h.truncated_is })
      | inr f ↦ rw f (record {
        text_is = simp (e, get-set) h.text_is;
        truncated_is = simp (e, get-set) h.truncated_is;
      })
    ]

append_delta-some :
    (limit : ℕ) (id : String) (chunk : Text) (t : ToolCorrelation)
    → (id == "") ≡ false
    → append_delta limit (some id) chunk t ≡ add_delta limit id chunk t
unfolding append_delta
append_delta-some limit id chunk t n = rw n refl

append_delta-empty :
    (limit : ℕ) (id : String) (chunk : Text) (t : ToolCorrelation)
    → (id == "") ≡ true
    → append_delta limit (some id) chunk t ≡ (t, chunk)
unfolding append_delta
append_delta-empty limit id chunk t n = rw n refl

tool_step-Holds :
    (limit : ℕ) (c : ToolCall) (t : ToolCorrelation) (id : String) (text : Text)
    → (id == "") ≡ false
    → Holds limit t id text
    → Holds limit (tool_step limit t c) id (hears id text c)
unfolding tool_step record_pre forget_tool append_delta
tool_step-Holds limit (pre use_id event_id) t id text n h = record {
  text_is = h.text_is;
  truncated_is = h.truncated_is;
}
tool_step-Holds limit (forget use_id) t id text n h = elim (Bool-cases (use_id == id)) [
  | inl e ↦ rw e (record {
    text_is = simp (e, get-delete) refl;
    truncated_is = simp (e, get-delete) (ground arith);
  })
  | inr e ↦ rw e (record {
    text_is = simp (e, get-delete) h.text_is;
    truncated_is = simp (e, get-delete) h.truncated_is;
  })
]
tool_step-Holds limit (delta none chunk) t id text n h = h
tool_step-Holds limit (delta (some use_id) chunk) t id text n h = elim (Bool-cases (use_id == id)) [
  | inl e ↦
      rw (eq_of_== use_id id e, ==_refl id)
        (subst (kept_by (text ++ chunk)) (sym (append_delta-some limit id chunk t n))
          (add_delta-Holds limit id chunk t text h).0)
  | inr e ↦ elim (Bool-cases (use_id == "")) [
    | inl f ↦ rw e (subst (kept_by text) (sym (append_delta-empty limit use_id chunk t f)) h)
    | inr f ↦ rw e (
        subst (kept_by text) (sym (append_delta-some limit use_id chunk t f))
          (add_delta-Holds_other limit use_id id chunk t text e h))
  ]
]
  where
    kept_by : Text → ToolCorrelation × Text → Type 0
    kept_by after r = Holds limit r.0 id after
tool_step-Holds limit reset t id text n h = record { text_is = refl; truncated_is = ground arith }

calls-Holds :
    (limit : ℕ) (calls : List ToolCall) (t : ToolCorrelation) (id : String) (text : Text)
    → (id == "") ≡ false
    → Holds limit t id text
    → Holds limit (fold_left (tool_step limit) t calls) id (fold_left (hears id) text calls)
calls-Holds limit [] t id text n h = h
calls-Holds limit (c ∷ calls) t id text n h =
    calls-Holds limit calls (tool_step limit t c) id (hears id text c) n
      (tool_step-Holds limit c t id text n h)

-- After any calls, for a tool with an id: what a chunk shows is all that the tool has written since it
-- was last forgotten or a run began, when that fits the limit, and otherwise the notice and the end of
-- it, cut to the limit; other tools' calls have no part in it.
pub append_delta-written :
    (limit : ℕ) (calls : List ToolCall) (id : String) (chunk : Text)
    → (id == "") ≡ false
    → ((append_delta limit (some id) chunk (fold_left (tool_step limit) no_tools calls)).1
        ≡ shown limit (written id calls ++ chunk))
      × (length (tail limit (written id calls ++ chunk)) ≤ limit)
unfolding append_delta
append_delta-written limit calls id chunk n = (
  rw n
      (add_delta-Holds limit id chunk (fold_left (tool_step limit) no_tools calls)
        (written id calls)
        (calls-Holds limit calls no_tools id [] n
          (record { text_is = refl; truncated_is = ground arith }))).1,
  length-tail-le limit (written id calls ++ chunk),
)
