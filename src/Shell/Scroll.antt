-- ===== src/Shell/Scroll.antt =====
-- src/app/shell/sessionUiState.ts: the arithmetic of cursors and viewports. Where the source computes a
-- number below 0 (one less than an empty count, a shift past the start), it is then clamped at a floor
-- of 0 or more, so the sums here stop at 0.
use Prim.Native.Nat.{◌-◌}
use athena_flow_cli.Common.{
  ℕ, zero, suc, ◌+◌, ℤ, pos, negsuc, String, Option, none, some, List, [], ◌∷◌, Bool, true, false,
  if◌then◌else◌, ltb, leb, ◌==◌, string_eq, or_else,
}
use athena_flow_cli.Shell.UiState.{SessionUiContext}

-- `Math.max`, `Math.min`
abbrev pub max : ℕ → ℕ → ℕ
max a b = if leb a b then b else a

abbrev pub min : ℕ → ℕ → ℕ
min a b = if leb a b then a else b

unfoldable pub clamp : ℕ → ℕ → ℕ → ℕ
clamp value low high = max low (min value high)

-- `n + delta`
unfoldable pub shift : ℕ → ℤ → ℕ
shift n (pos d) = n + d
shift n (negsuc d) = n - (d + 1)

pub record ScrollState : Type 0 where
  pub cursor : ℕ
  pub viewport_start : ℕ
  pub tail_follow : Bool

-- The largest start of a viewport of `rows` rows over `count` entries.
abbrev pub max_start : ℕ → ℕ → ℕ
max_start count rows = if leb rows 0 then 0 else max 0 (count - rows)

-- The viewport moved as little as shows the cursor.
unfoldable pub scroll_to : ℕ → ℕ → ℕ → ℕ
scroll_to cursor start rows =
    if ltb cursor start
    then cursor
    else if ltb 0 rows
    then (let visible_end = start + rows - 1 in
        if ltb visible_end cursor then cursor - rows + 1 else start)
    else start

unfoldable pub compute_scroll_state : ℕ → ℕ → Bool → ℕ → ℕ → ℕ → ScrollState
compute_scroll_state cursor viewport_start tail_follow entry_count content_rows floor =
    let max_cursor = max floor (entry_count - 1) in
    let last_start = max_start entry_count content_rows in
    let next_cursor = clamp cursor floor max_cursor in
    let next_start = clamp viewport_start floor last_start in
    if tail_follow
    then record { cursor = max_cursor; tail_follow = true; viewport_start = last_start }
    else record {
      cursor = next_cursor;
      tail_follow = false;
      viewport_start = clamp (scroll_to next_cursor next_start content_rows) floor last_start;
    }

-- `ctx.staticFloor ?? DEFAULT_STATIC_FLOOR`
abbrev pub floor_of : SessionUiContext → ℕ
floor_of ctx = or_else ctx.static_floor 0

unfoldable pub max_feed_cursor : SessionUiContext → ℕ
max_feed_cursor ctx = max (floor_of ctx) (ctx.feed_entry_count - 1)

unfoldable pub max_feed_viewport_start : SessionUiContext → ℕ
max_feed_viewport_start ctx = max_start ctx.feed_entry_count ctx.feed_content_rows

unfoldable pub max_message_cursor : SessionUiContext → ℕ
max_message_cursor ctx = max 0 (ctx.message_entry_length - 1)

unfoldable pub max_message_viewport_start : SessionUiContext → ℕ
max_message_viewport_start ctx = max_start ctx.message_entry_count ctx.message_content_rows

-- `entries.findIndex(e => e.id === id)`
unfoldable pub index_of : List String → String → Option ℕ
index_of [] id = none
index_of (e ∷ es) id =
    let rest = index_of es id in
    if e == id then some 0 else elim rest [ none ↦ none | some i ↦ some (suc i) ]

unfoldable pub resolve_id_to_index : List String → Option String → Option ℕ
resolve_id_to_index entries none = none
resolve_id_to_index entries (some id) = index_of entries id

-- `entries[index]?.id ?? null`
unfoldable pub resolve_index_to_id : List String → ℕ → Option String
resolve_index_to_id [] i = none
resolve_index_to_id (e ∷ es) zero = some e
resolve_index_to_id (e ∷ es) (suc i) = resolve_index_to_id es i

pub record FeedState : Type 0 where
  pub feed_cursor_id : Option String
  pub feed_viewport_start : ℕ
  pub tail_follow : Bool

unfoldable pub compute_feed_state : ℕ → ℕ → Bool → SessionUiContext → FeedState
unfolding compute_scroll_state
compute_feed_state cursor_index viewport_start tail_follow ctx =
    let s =
      compute_scroll_state cursor_index viewport_start tail_follow ctx.feed_entry_count
        ctx.feed_content_rows (floor_of ctx) in
    record {
      feed_cursor_id = resolve_index_to_id ctx.feed_entries s.cursor;
      tail_follow = s.tail_follow;
      feed_viewport_start = s.viewport_start;
    }

pub record MessageState : Type 0 where
  pub message_viewport_start : ℕ
  pub message_cursor_index : ℕ
  pub message_tail_follow : Bool

-- The line on which an entry begins, if its index is within the offsets.
unfoldable pub offset_at : List ℕ → ℕ → Option ℕ
offset_at [] i = none
offset_at (o ∷ os) zero = some o
offset_at (o ∷ os) (suc i) = offset_at os i

-- The two tests on the line of the cursor's entry.
unfoldable pub scroll_to_line : ℕ → ℕ → ℕ → ℕ
scroll_to_line line start rows =
    let start' = if ltb line start then line else start in
    if leb (start' + rows) line then line - rows + 1 else start'

unfoldable pub message_start : Option ℕ → ℕ → ℕ → ℕ → ℕ
unfolding clamp scroll_to_line
message_start none start rows last_start = start
message_start (some line) start rows last_start =
    clamp (scroll_to_line line start rows) 0 last_start

unfoldable pub compute_message_state : ℕ → Bool → ℕ → SessionUiContext → MessageState
unfolding clamp max_message_cursor max_message_viewport_start message_start offset_at
compute_message_state viewport_start tail_follow cursor_index ctx =
    let last_cursor = max_message_cursor ctx in
    let last_start = max_message_viewport_start ctx in
    let next_cursor =
      if ltb 0 ctx.message_entry_length then clamp cursor_index 0 last_cursor else 0 in
    let next_start = clamp viewport_start 0 last_start in
    if tail_follow
    then record {
      message_tail_follow = true;
      message_viewport_start = last_start;
      message_cursor_index = if ltb 0 ctx.message_entry_length then last_cursor else 0;
    }
    else record {
      message_tail_follow = false;
      message_viewport_start =
          message_start (offset_at ctx.message_entry_line_offsets next_cursor) next_start
            ctx.message_content_rows last_start;
      message_cursor_index = next_cursor;
    }

unfoldable pub resolve_todo_scroll : ℕ → ℕ → SessionUiContext → ℕ
unfolding clamp
resolve_todo_scroll todo_cursor todo_scroll ctx =
    let last_scroll = max 0 (ctx.todo_visible_count - ctx.todo_list_height) in
    let next_scroll = clamp todo_scroll 0 last_scroll in
    let shown =
      if ltb todo_cursor next_scroll
      then todo_cursor
      else if leb (next_scroll + ctx.todo_list_height) todo_cursor
      then todo_cursor - ctx.todo_list_height + 1
      else next_scroll in
    if leb ctx.todo_list_height 0
    then 0
    else if leb ctx.todo_visible_count 0
    then 0
    else clamp shown 0 last_scroll
