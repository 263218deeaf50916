-- ===== src/Harness/LineParser.antt =====
-- src/harnesses/claude/runtime/boundedLineParser.ts. A chunk is its bytes; that a line is decoded from
-- UTF-8 is left out, so a line is its bytes too.
pub mod Chunks
use athena_flow_cli.Common.{
  ℕ, ◌+◌, ◌<◌, List, [], ◌∷◌, ◌++◌, if◌then◌else◌, ◌==◌, nat_eq, ltb, leb, length, Bool, true,
  false,
}
use athena_flow_cli.Common.Text.{Text, concat}

pub record Parser : Type 0 where
  pub chunks : List Text
  pub total_bytes : ℕ

abbrev pub max_buffer_bytes : ℕ
max_buffer_bytes = 4194304

abbrev pub empty : Parser
empty = record { chunks = []; total_bytes = 0 }

-- A segment before a newline joins the pending chunks, if it is not empty.
abbrev pub push_segment : Parser → Text → Parser
push_segment p segment =
    if ltb 0 (length segment)
    then record p {
      chunks = p.chunks ++ segment ∷ [];
      total_bytes = p.total_bytes + length segment;
    }
    else p

-- The line that is flattened at a newline.
abbrev pub flatten : Parser → List Text
flatten p =
    let line = concat p.chunks in
    if ltb 0 p.total_bytes then (if ltb 0 (length line) then line ∷ [] else []) else []

-- What is left of a chunk after its last newline; `limit` is `MAX_BUFFER_BYTES`.
abbrev pub keep_remainder : ℕ → Parser → Text → Parser
keep_remainder limit p remainder =
    if ltb 0 (length remainder)
    then (if ltb limit (p.total_bytes + length remainder) then empty else record p {
      chunks = p.chunks ++ remainder ∷ [];
      total_bytes = p.total_bytes + length remainder;
    })
    else p

-- The loop of `feed` over a chunk, with the part of it from `start` on.
unfoldable pub scan : ℕ → Parser → (segment : Text) → Text → Parser × List Text
scan limit p segment [] = (keep_remainder limit p segment, [])
scan limit p segment (c ∷ chunk) = elim (c == 10) [
  | true ↦
      let (q, lines) = scan limit empty [] chunk in (q, flatten (push_segment p segment) ++ lines)
  | false ↦ scan limit p (segment ++ c ∷ []) chunk
]

unfoldable pub feed : ℕ → Parser → Text → Parser × List Text
unfolding scan
feed limit p chunk = scan limit p [] chunk

-- The chunks that arrive, one after the other.
unfoldable pub feed_all : ℕ → Parser → List Text → Parser × List Text
unfolding feed
feed_all limit p [] = (p, [])
feed_all limit p (c ∷ cs) =
    let (q, lines) = feed limit p c in let (r, more) = feed_all limit q cs in (r, lines ++ more)
