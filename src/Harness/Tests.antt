-- ===== src/Harness/Tests.antt =====
-- A stream in two chunks.
use athena_flow_cli.Common.{Option, none, some, List, [], ◌∷◌, if◌then◌else◌, ◌≡◌, false, arith}
use athena_flow_cli.Common.Text.{Text, codes, same_text, concat}
use native.Mathlib.Decide.{ℕ_discrete}
use athena_flow_cli.Harness.LineParser.{empty}
use athena_flow_cli.Harness.LineParser as LineParser
use athena_flow_cli.Harness.LineParser.Chunks.{Fits, FeedsAll, Inv, lines_of_stream, held_bytes-Inv}
use athena_flow_cli.Common.Text.Split.{split_lines}
use athena_flow_cli.Harness.Tokens.{StreamMessage, start}
use athena_flow_cli.Harness.Tokens as Tokens
use athena_flow_cli.Harness.Tokens.Chunks.{feed_all, feed_all-concat}

abbrev chunks : List Text
chunks = codes "ab\nc" ∷ codes "d\n" ∷ []

-- `JSON.parse` of one message.
abbrev parse_json : Text → Option StreamMessage
parse_json line =
    if same_text line (codes "cd")
    then some (record {
      kind = "message";
      usage = some (record {
        input_tokens = some 3;
        output_tokens = some 2;
        cache_read_input_tokens = none;
        cache_creation_input_tokens = none;
      });
      model = none;
      message = none;
      event = none;
      has_parent = false;
    })
    else none

feed_all-concat_example :
    feed_all parse_json start chunks ≡ Tokens.feed parse_json start (concat chunks)
feed_all-concat_example = feed_all-concat parse_json chunks

chunks-Fits : Fits 4 (concat chunks)
unfolding ℕ_discrete split_lines
chunks-Fits = ((omega arith, (omega arith, tt)), omega arith)

lines_of_stream_example : FeedsAll empty (concat chunks) (LineParser.feed_all 4 empty chunks)
lines_of_stream_example = lines_of_stream 4 chunks chunks-Fits

held_bytes-Inv_example : Inv 1 (LineParser.feed_all 1 empty chunks).0
held_bytes-Inv_example = held_bytes-Inv 1 chunks
