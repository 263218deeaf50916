-- ===== src/Harness/Tokens.antt =====
-- src/harnesses/claude/process/tokenAccumulator.ts: token usage read from the stream of a Claude
-- process. `parse_json` is `JSON.parse` of a line, cut down to what is read of a message; none is a
-- line that is no JSON. A line that is JSON `null`, on which processLine throws, is outside the model.
pub mod Chunks
use athena_flow_cli.Common.{
  ◌++◌, ℕ, ◌+◌, String, Option, none, some, List, [], ◌∷◌, if◌then◌else◌, ◌==◌, string_eq, nat_eq,
  ltb, Bool, true, false, not, ◌&&◌, ◌||◌, or_else, is_some,
}
use athena_flow_cli.Common.Text.{Text, codes, includes, text_starts_with, trim_start, trim_end}
use athena_flow_cli.Common.Text.Split.{split_lines}
use athena_flow_cli.Workflow.Runner.{TokenUsage}

pub record StreamUsage : Type 0 where
  pub input_tokens : Option ℕ
  pub output_tokens : Option ℕ
  pub cache_read_input_tokens : Option ℕ
  pub cache_creation_input_tokens : Option ℕ

-- What is read of `message`: its usage, and its model if that is a string.
pub record Envelope : Type 0 where
  pub usage : Option StreamUsage
  pub model : Option Text

pub record StreamEvent : Type 0 where
  pub kind : String
  pub message : Option Envelope
  pub has_parent : Bool

-- `has_parent` says that `parent_tool_use_id` is neither null nor absent.
pub record StreamMessage : Type 0 where
  pub kind : String
  pub usage : Option StreamUsage
  pub model : Option Text
  pub message : Option Envelope
  pub event : Option StreamEvent
  pub has_parent : Bool

-- The counters of the accumulator, and the accumulator with its buffer.
pub record Totals : Type 0 where
  pub input_tokens : ℕ
  pub output_tokens : ℕ
  pub cache_read : ℕ
  pub cache_write : ℕ
  pub context_size : ℕ
  pub context_window_size : Option ℕ

pub record Accumulator : Type 0 where
  pub buffer : Text
  pub totals : Totals

abbrev pub nothing_read : Totals
nothing_read = record {
  input_tokens = 0;
  output_tokens = 0;
  cache_read = 0;
  cache_write = 0;
  context_size = 0;
  context_window_size = none;
}

abbrev pub start : Accumulator
start = record { buffer = []; totals = nothing_read }

unfoldable pub resolve_context_window_size : Text → Option ℕ
resolve_context_window_size [] = none
resolve_context_window_size (c ∷ s) =
    if includes (c ∷ s) (codes "[1m]")
    then some 1000000
    else if text_starts_with (c ∷ s) (codes "claude-2")
        && not (text_starts_with (c ∷ s) (codes "claude-2.1"))
    then some 100000
    else some 200000

-- The prompt of a turn: its new, its cached and its newly cached tokens.
abbrev pub prompt_size : StreamUsage → ℕ
prompt_size u =
    or_else u.input_tokens 0
    + or_else u.cache_read_input_tokens 0
    + or_else u.cache_creation_input_tokens 0

unfoldable pub apply_context_usage : Totals → Option StreamUsage → Bool → Totals
apply_context_usage a none subagent = a
apply_context_usage a (some u) subagent =
    if subagent then a else record a { context_size = prompt_size u }

-- `if (!contextWindowSize) …` for a model that may be no string
unfoldable pub note_model : Totals → Option Text → Totals
unfolding resolve_context_window_size
note_model a none = a
note_model a (some model) =
    if is_some a.context_window_size
    then a
    else record a { context_window_size = resolve_context_window_size model }

abbrev pub model_in : Option Envelope → Option Text
model_in none = none
model_in (some m) = m.model

abbrev pub usage_in : Option Envelope → Option StreamUsage
usage_in none = none
usage_in (some m) = m.usage

unfoldable pub on_stream_event : Totals → Bool → Option StreamEvent → Totals
unfolding apply_context_usage note_model
on_stream_event a nested none = a
on_stream_event a nested (some e) =
    if e.kind == "message_start"
    then note_model (apply_context_usage a (usage_in e.message) (nested || e.has_parent))
        (model_in e.message)
    else a

-- The usage of a result replaces what was added up.
unfoldable pub on_result : Totals → StreamUsage → Totals
on_result a u = record a {
  input_tokens = or_else u.input_tokens a.input_tokens;
  output_tokens = or_else u.output_tokens a.output_tokens;
  cache_read = or_else u.cache_read_input_tokens a.cache_read;
  cache_write = or_else u.cache_creation_input_tokens a.cache_write;
  context_size = if a.context_size == 0 then prompt_size u else a.context_size;
}

unfoldable pub on_turn : Totals → StreamUsage → Bool → Totals
on_turn a u subagent = record a {
  input_tokens = a.input_tokens + or_else u.input_tokens 0;
  output_tokens = a.output_tokens + or_else u.output_tokens 0;
  cache_read = a.cache_read + or_else u.cache_read_input_tokens 0;
  cache_write = a.cache_write + or_else u.cache_creation_input_tokens 0;
  context_size = if subagent then a.context_size else prompt_size u;
}

unfoldable pub add_usage : Totals → StreamMessage → Option StreamUsage → Bool → Totals
unfolding on_result on_turn
add_usage a m none per_turn = a
add_usage a m (some u) per_turn =
    if m.kind == "result" then on_result a u else if per_turn then on_turn a u m.has_parent else a

unfoldable pub on_message : Totals → StreamMessage → Totals
unfolding on_stream_event note_model add_usage
on_message a m =
    let is_assistant = m.kind == "assistant" in
    let is_message = m.kind == "message" in
    let started =
      on_stream_event a m.has_parent (if m.kind == "stream_event" then m.event else none) in
    let noted =
      (if is_message || is_assistant
        then note_model started (if is_assistant then model_in m.message else m.model)
        else started) in
    let is_envelope = is_assistant && is_some (usage_in m.message) in
    add_usage noted m (if is_envelope then usage_in m.message else m.usage)
      (is_message || is_envelope)

abbrev pub trim : Text → Text
trim s = trim_end (trim_start s)

module _ (parse_json : Text → Option StreamMessage) where
  unfoldable pub process_trimmed : Totals → Text → Totals
  unfolding on_message
  process_trimmed a [] = a
  process_trimmed a (c ∷ s) = elim (parse_json (c ∷ s)) [ none ↦ a | some m ↦ on_message a m ]

  unfoldable pub process_line : Totals → Text → Totals
  unfolding process_trimmed
  process_line a line = process_trimmed a (trim line)

  unfoldable pub process_lines : Totals → List Text → Totals
  unfolding process_line
  process_lines a [] = a
  process_lines a (l ∷ ls) = process_lines (process_line a l) ls

  unfoldable pub feed : Accumulator → Text → Accumulator
  unfolding process_lines split_lines
  feed a chunk =
      let (lines, rest) = split_lines (a.buffer ++ chunk) in
      record { buffer = rest; totals = process_lines a.totals lines }

  unfoldable pub flush : Accumulator → Accumulator
  unfolding process_line
  flush a = elim (trim a.buffer) [
    | [] ↦ a
    | c ∷ s ↦ record { buffer = []; totals = process_line a.totals a.buffer }
  ]

abbrev pub positive : ℕ → Option ℕ
positive n = if ltb 0 n then some n else none

unfoldable pub get_usage : Totals → TokenUsage
get_usage a =
    let total = a.input_tokens + a.output_tokens + a.cache_read + a.cache_write in
    if total == 0 && a.context_size == 0
    then record {
      input = none;
      output = none;
      cache_read = none;
      cache_write = none;
      total = none;
      context_size = none;
      context_window_size = a.context_window_size;
    }
    else record {
      input = positive a.input_tokens;
      output = positive a.output_tokens;
      cache_read = positive a.cache_read;
      cache_write = positive a.cache_write;
      total = positive total;
      context_size = positive a.context_size;
      context_window_size = a.context_window_size;
    }

unfoldable pub reset : Accumulator → Accumulator
reset a = record {
  buffer = [];
  totals = record nothing_read { context_window_size = a.totals.context_window_size };
}
