-- ===== src/Feed/ToolCorrelation.antt =====
-- src/core/feed/internals/toolCorrelation.ts: from a tool's later events to the one that began it, and
-- the output that a tool streams. A text is its code units; `limit` is MAX_STREAMED_TOOL_OUTPUT_CHARS.
pub mod Stream
use athena_flow_cli.Common.{
  ℕ, String, Option, none, some, List, [], ◌∷◌, ◌++◌, if◌then◌else◌, ltb, leb, ◌==◌, string_eq,
  Bool, true, false, length, or_else, is_some,
}
use athena_flow_cli.Common.Dict.{Dict, get, set, delete}
use athena_flow_cli.Common.Text.{Text, codes}

pub record ToolCorrelation : Type 0 where
  pub tool_pre_index : Dict String String
  pub tool_delta_text_by_use_id : Dict String Text
  pub truncated_tool_delta_use_ids : Dict String (Unit {0})

-- `createToolCorrelation`, and what `resetForNewRun` leaves.
abbrev pub no_tools : ToolCorrelation
no_tools = record {
  tool_pre_index = [];
  tool_delta_text_by_use_id = [];
  truncated_tool_delta_use_ids = [];
}

abbrev pub max_streamed_tool_output_chars : ℕ
max_streamed_tool_output_chars = 64000

abbrev pub truncated_notice : Text
truncated_notice = codes "[streaming output truncated to recent content]\n"

-- `text.slice(-limit)`
abbrev pub tail : ℕ → Text → Text
tail limit [] = []
tail limit (c ∷ s) = let rest = tail limit s in if ltb limit (length (c ∷ s)) then rest else c ∷ s

unfoldable pub record_pre : String → String → ToolCorrelation → ToolCorrelation
unfolding set
record_pre use_id event_id t = record t { tool_pre_index = set use_id event_id t.tool_pre_index }

abbrev pub lookup_in : Dict String String → Option String → Option String
lookup_in index none = none
lookup_in index (some use_id) = if use_id == "" then none else get use_id index

unfoldable pub lookup_parent : Option String → ToolCorrelation → Option String
unfolding get
lookup_parent use_id t = lookup_in t.tool_pre_index use_id

unfoldable pub forget_tool : String → ToolCorrelation → ToolCorrelation
unfolding delete
forget_tool use_id t = record t {
  tool_delta_text_by_use_id = delete use_id t.tool_delta_text_by_use_id;
  truncated_tool_delta_use_ids = delete use_id t.truncated_tool_delta_use_ids;
}

-- The streamed text of a tool with a chunk added.
abbrev pub cumulative : String → Text → ToolCorrelation → Text
cumulative use_id chunk t = or_else (get use_id t.tool_delta_text_by_use_id) [] ++ chunk

abbrev pub with_notice : Bool → Text → Text
with_notice truncated text = if truncated then truncated_notice ++ text else text

unfoldable pub add_delta : ℕ → String → Text → ToolCorrelation → ToolCorrelation × Text
unfolding get set
add_delta limit use_id chunk t =
    let text = cumulative use_id chunk t in
    if leb (length text) limit
    then (
      record t { tool_delta_text_by_use_id = set use_id text t.tool_delta_text_by_use_id },
      with_notice (is_some (get use_id t.truncated_tool_delta_use_ids)) text,
    )
    else (
      record t {
        tool_delta_text_by_use_id = set use_id (tail limit text) t.tool_delta_text_by_use_id;
        truncated_tool_delta_use_ids = set use_id tt t.truncated_tool_delta_use_ids;
      },
      truncated_notice ++ tail limit text,
    )

unfoldable pub append_delta : ℕ → Option String → Text → ToolCorrelation → ToolCorrelation × Text
unfolding add_delta
append_delta limit none chunk t = (t, chunk)
append_delta limit (some use_id) chunk t =
    if use_id == "" then (t, chunk) else add_delta limit use_id chunk t

pub data ToolCall : Type 0 where
  pre : String → String → ToolCall
  forget : String → ToolCall
  delta : Option String → Text → ToolCall
  reset : ToolCall

unfoldable pub tool_step : ℕ → ToolCorrelation → ToolCall → ToolCorrelation
unfolding record_pre forget_tool append_delta
tool_step limit t (pre use_id event_id) = record_pre use_id event_id t
tool_step limit t (forget use_id) = forget_tool use_id t
tool_step limit t (delta use_id chunk) = (append_delta limit use_id chunk t).0
tool_step limit t reset = no_tools
