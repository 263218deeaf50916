-- ===== src/Shell/Resolve/Settled.antt =====
-- A state that is fitted twice to one layout.
use Prim.Native.Nat.{◌-◌}
use athena_flow_cli.Common.{
  ℕ, zero, suc, ◌≤◌, ◌<◌, String, Option, none, some, List, [], ◌∷◌, Bool, true, false, ltb, arith,
  ◌≡◌, refl, ap, ◌∙◌, length, string_eq, Bool-cases, inl, inr,
}
use athena_flow_cli.Shell.UiState.{SessionUiState, SessionUiContext}
use athena_flow_cli.Shell.Scroll.{
  max, clamp, scroll_to, max_start, compute_scroll_state, compute_feed_state, floor_of,
  resolve_index_to_id, index_of, resolve_id_to_index, max_message_cursor,
  max_message_viewport_start, scroll_to_line, message_start, compute_message_state,
  resolve_todo_scroll,
}
use athena_flow_cli.Shell.Resolve.{
  resolve_parts, resolve_todo_cursor, index_or_last, cursor_index, resolve_session_ui_state,
  put_resolved, resolve_focus, resolve_match, preferred_todo,
}
use athena_flow_cli.Shell.Resolve.Kept.{resolve_session_ui_state_lem}
use athena_flow_cli.Shell.Resolve.Shows.{Within, clamp_range, clamp-Within, scroll_to-Within}

-- No id occurs twice.
abbrev pub Distinct : List String → Type 0
Distinct [] = Unit
Distinct (e ∷ es) = (index_of es e ≡ none) × Distinct es

index_of-resolve_index_to_id :
    (es : List String) (i : ℕ) (id : String)
    → Distinct es
    → resolve_index_to_id es i ≡ some id
    → index_of es id ≡ some i
unfolding index_of resolve_index_to_id
index_of-resolve_index_to_id [] i id d h = cc
index_of-resolve_index_to_id (e ∷ es) zero id d h = ground arith
index_of-resolve_index_to_id (e ∷ es) (suc i) id d h =
    ground (arith, index_of-resolve_index_to_id es i id d.1 h)

resolve_index_to_id-some :
    (es : List String) (i : ℕ)
    → i < length es
    → (id : String) × (resolve_index_to_id es i ≡ some id)
unfolding resolve_index_to_id
resolve_index_to_id-some [] i h = absurd (omega arith)
resolve_index_to_id-some (e ∷ es) zero h = (e, refl)
resolve_index_to_id-some (e ∷ es) (suc i) h = resolve_index_to_id-some es i (omega arith)

clamp_twice : (v low high : ℕ) → clamp (clamp v low high) low high ≡ clamp v low high
unfolding clamp
clamp_twice v low high = ground arith

scroll_to-kept :
    (cursor start rows : ℕ) → Within cursor start rows → scroll_to cursor start rows ≡ start
unfolding scroll_to
scroll_to-kept cursor start rows h = ground arith

-- The viewport's start, fitted and fitted again.
abbrev fitted : ℕ → ℕ → ℕ → ℕ → ℕ → ℕ
fitted cursor start rows floor last = clamp (scroll_to cursor start rows) floor last

fitted_twice :
    (cursor start rows floor count : ℕ)
    → floor ≤ cursor
    → cursor < count
    → let last = max_start count rows in
      let start' = fitted cursor start rows floor last in
      fitted cursor (clamp start' floor last) rows floor last ≡ start'
fitted_twice cursor start zero floor count h k = unfold scroll_to clamp in ground arith
fitted_twice cursor start (suc rows) floor count h k =
    let last : ℕ = max_start count (suc rows) in
    let x : ℕ = scroll_to cursor start (suc rows) in
    let shown : Within cursor (clamp x floor last) (suc rows) =
      clamp-Within cursor x (suc rows) floor count
        (scroll_to-Within cursor start (suc rows) (omega arith)) h k in
    rw (clamp_twice x floor last, scroll_to-kept cursor (clamp x floor last) (suc rows) shown)
      (clamp_twice x floor last)

compute_scroll_state_twice :
    (cursor start count rows floor : ℕ) (tail : Bool)
    → floor < count
    → let s = compute_scroll_state cursor start tail count rows floor in
      compute_scroll_state s.cursor s.viewport_start s.tail_follow count rows floor ≡ s
unfolding compute_scroll_state
compute_scroll_state_twice cursor start count rows floor true h = refl
compute_scroll_state_twice cursor start count rows floor false h =
    let last : ℕ = max floor (count - 1) in
    let range : (floor ≤ clamp cursor floor last) × (clamp cursor floor last ≤ last) =
      clamp_range cursor floor last (ground arith) in
    rw
      (
        clamp_twice cursor floor last,
        fitted_twice (clamp cursor floor last) (clamp start floor (max_start count rows)) rows floor
            count range.0 (ground arith),
      )
      refl

message_start_twice :
    (line start rows last : ℕ)
    → (rows ≡ 0 → last ≡ 0)
    → message_start (some line) (clamp (message_start (some line) start rows last) 0 last) rows last
      ≡ message_start (some line) start rows last
unfolding message_start scroll_to_line clamp
message_start_twice line start zero last h = let z : last ≡ 0 = h refl in ground arith
message_start_twice line start (suc rows) last h = ground arith

compute_scroll_state-lt :
    (cursor start count rows floor : ℕ) (tail : Bool)
    → floor < count
    → (compute_scroll_state cursor start tail count rows floor).cursor < count
unfolding compute_scroll_state clamp
compute_scroll_state-lt cursor start count rows floor true h = ground arith
compute_scroll_state-lt cursor start count rows floor false h = ground arith

-- An entry's id leads back to its index.
index_or_last-entry :
    (ctx : SessionUiContext) (c : ℕ)
    → Distinct ctx.feed_entries
    → c < length ctx.feed_entries
    → index_or_last (resolve_index_to_id ctx.feed_entries c) ctx ≡ c
unfolding index_or_last resolve_id_to_index
index_or_last-entry ctx c d lt =
    let (id, f) = resolve_index_to_id-some ctx.feed_entries c lt in
    rw f (rw (index_of-resolve_index_to_id ctx.feed_entries c id d f, index_or_last) refl)

compute_feed_state_twice :
    (s : SessionUiState) (ctx : SessionUiContext) (cursor start : ℕ) (tail : Bool)
    → Distinct ctx.feed_entries
    → length ctx.feed_entries ≡ ctx.feed_entry_count
    → floor_of ctx < ctx.feed_entry_count
    → let f = compute_feed_state cursor start tail ctx in
      s.feed_cursor_id ≡ f.feed_cursor_id
      → compute_feed_state (cursor_index s ctx) f.feed_viewport_start f.tail_follow ctx ≡ f
unfolding compute_feed_state
compute_feed_state_twice s ctx cursor start tail d len floor e =
    let count : ℕ = ctx.feed_entry_count in
    let rows : ℕ = ctx.feed_content_rows in
    let low : ℕ = floor_of ctx in
    let c : ℕ = (compute_scroll_state cursor start tail count rows low).cursor in
    let lt : c < length ctx.feed_entries =
      rw len (compute_scroll_state-lt cursor start count rows low tail floor) in
    rw
      (
        e,
        index_or_last-entry ctx c d lt,
        compute_scroll_state_twice cursor start count rows low tail floor,
      )
      refl

message_start_kept :
    (offset : Option ℕ) (start rows last : ℕ)
    → (rows ≡ 0 → last ≡ 0)
    → start ≤ last
    → message_start offset (clamp (message_start offset start rows last) 0 last) rows last
      ≡ message_start offset start rows last
message_start_kept none start rows last h k = unfold message_start clamp in ground arith
message_start_kept (some line) start rows last h k = message_start_twice line start rows last h

compute_message_state_twice :
    (ctx : SessionUiContext) (start cursor : ℕ) (tail : Bool)
    → let m = compute_message_state start tail cursor ctx in
      compute_message_state m.message_viewport_start m.message_tail_follow m.message_cursor_index
        ctx
      ≡ m
unfolding compute_message_state max_message_viewport_start
compute_message_state_twice ctx start cursor true = refl
compute_message_state_twice ctx start cursor false =
    let last : ℕ = max_start ctx.message_entry_count ctx.message_content_rows in
    let top : ℕ = max_message_cursor ctx in
    let kept = λ (o : Option ℕ).
      message_start_kept o (clamp start 0 last) ctx.message_content_rows last (ground arith)
        (clamp_range start 0 last (omega arith)).1 in
    elim (Bool-cases (ltb 0 ctx.message_entry_length)) [
      | inl e ↦ rw (e, clamp_twice cursor 0 top, kept _) refl
      | inr e ↦ rw (e, kept _) refl
    ]

resolve_todo_scroll_twice :
    (cursor scroll : ℕ) (ctx : SessionUiContext)
    → resolve_todo_scroll cursor (resolve_todo_scroll cursor scroll ctx) ctx
      ≡ resolve_todo_scroll cursor scroll ctx
unfolding resolve_todo_scroll clamp
resolve_todo_scroll_twice cursor scroll ctx = ground arith

-- The fields that a fitted state `t` has from `s`.
module _ (s t : SessionUiState) (ctx : SessionUiContext) where
  resolve_todo_cursor_twice :
      t.todo_cursor_mode ≡ s.todo_cursor_mode
      → t.todo_cursor ≡ resolve_todo_cursor s ctx
      → resolve_todo_cursor t ctx ≡ resolve_todo_cursor s ctx
  unfolding resolve_todo_cursor preferred_todo clamp
  resolve_todo_cursor_twice m e = ground arith

  resolve_focus_twice :
      t.todo_visible ≡ s.todo_visible
      → t.focus_mode ≡ resolve_focus s ctx
      → resolve_focus t ctx ≡ resolve_focus s ctx
  unfolding resolve_focus
  resolve_focus_twice v e = ground arith

  resolve_match_twice :
      t.search_match_pos ≡ resolve_match s ctx → resolve_match t ctx ≡ resolve_match s ctx
  unfolding resolve_match clamp
  resolve_match_twice e = ground arith

resolve_todo_scroll_kept :
    (s t : SessionUiState) (ctx : SessionUiContext)
    → t.todo_cursor_mode ≡ s.todo_cursor_mode
    → t.todo_cursor ≡ resolve_todo_cursor s ctx
    → t.todo_scroll ≡ resolve_todo_scroll (resolve_todo_cursor s ctx) s.todo_scroll ctx
    → resolve_todo_scroll (resolve_todo_cursor t ctx) t.todo_scroll ctx
      ≡ resolve_todo_scroll (resolve_todo_cursor s ctx) s.todo_scroll ctx
resolve_todo_scroll_kept s t ctx m e f =
    let c : ℕ = resolve_todo_cursor s ctx in
    ap (λ x. resolve_todo_scroll x t.todo_scroll ctx) (resolve_todo_cursor_twice s t ctx m e)
    ∙ ap (λ x. resolve_todo_scroll c x ctx) f
    ∙ resolve_todo_scroll_twice c s.todo_scroll ctx

parts_twice :
    (s : SessionUiState) (ctx : SessionUiContext)
    → Distinct ctx.feed_entries
    → length ctx.feed_entries ≡ ctx.feed_entry_count
    → floor_of ctx < ctx.feed_entry_count
    → resolve_parts (put_resolved s (resolve_parts s ctx)) ctx ≡ resolve_parts s ctx
unfolding resolve_parts
parts_twice s ctx d len floor =
    let t = put_resolved s (resolve_parts s ctx) in
    λ i. record {
      focus_mode = resolve_focus_twice s t ctx refl refl i;
      search_match_pos = resolve_match_twice s t ctx refl i;
      feed =
          compute_feed_state_twice t ctx (cursor_index s ctx) s.feed_viewport_start s.tail_follow d
            len floor refl i;
      todo_cursor = resolve_todo_cursor_twice s t ctx refl refl i;
      todo_scroll = resolve_todo_scroll_kept s t ctx refl refl refl i;
      message =
          compute_message_state_twice ctx s.message_viewport_start s.message_cursor_index
            s.message_tail_follow i;
    }

-- Fitted twice to one layout, a state is as it was fitted the first time, when the layout's entries have
-- ids of their own, are as many as it counts, and do not all lie below its static floor.
pub resolve_twice :
    (s : SessionUiState) (ctx : SessionUiContext)
    → Distinct ctx.feed_entries
    → length ctx.feed_entries ≡ ctx.feed_entry_count
    → floor_of ctx < ctx.feed_entry_count
    → resolve_session_ui_state (resolve_session_ui_state s ctx) ctx ≡ resolve_session_ui_state s ctx
resolve_twice s ctx d len floor =
    let r = resolve_parts s ctx in
    let s' = put_resolved s r in
    rw resolve_session_ui_state_lem
      (rw resolve_session_ui_state_lem (ap (put_resolved s') (parts_twice s ctx d len floor)))
