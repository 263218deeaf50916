-- ===== src/Harness/Tokens/Chunks.antt =====
-- The usage, when the output is cut into chunks.
use athena_flow_cli.Common.{◌≡◌, refl, Option, List, [], ◌∷◌, ◌++◌, append-nil, append_assoc}
use athena_flow_cli.Common.Text.{Text, concat}
use athena_flow_cli.Common.Text.Split.{split_lines, split_lines-append}
use athena_flow_cli.Harness.Tokens.{
  Accumulator, Totals, StreamMessage, start, feed, process_lines, process_line,
}

module _ (parse_json : Text → Option StreamMessage) where
  abbrev pub feed_all : Accumulator → List Text → Accumulator
  feed_all a [] = a
  feed_all a (c ∷ cs) = feed_all (feed parse_json a c) cs

  process_lines-append :
      (t : Totals) (ls ms : List Text)
      → process_lines parse_json t (ls ++ ms)
        ≡ process_lines parse_json (process_lines parse_json t ls) ms
  unfolding process_lines
  process_lines-append t [] ms = refl
  process_lines-append t (l ∷ ls) ms = process_lines-append (process_line parse_json t l) ls ms

  feed-feed :
      (a : Accumulator) (s t : Text)
      → feed parse_json (feed parse_json a s) t ≡ feed parse_json a (s ++ t)
  unfolding feed
  feed-feed a s t =
      rw (← append_assoc a.buffer s t, split_lines-append (a.buffer ++ s) t, process_lines-append)
        refl

  feed_all-feed :
      (a : Accumulator) (s : Text) (cs : List Text)
      → feed_all (feed parse_json a s) cs ≡ feed parse_json a (s ++ concat cs)
  feed_all-feed a s [] = rw append-nil refl
  feed_all-feed a s (c ∷ cs) =
      rw (feed-feed a s c, ← append_assoc s c (concat cs)) (feed_all-feed a (s ++ c) cs)

  -- However the output of a process is cut into chunks, the accumulator ends in the state that the
  -- whole output leaves when it comes at once.
  pub feed_all-concat : (cs : List Text) → feed_all start cs ≡ feed parse_json start (concat cs)
  unfolding feed process_lines split_lines
  feed_all-concat [] = refl
  feed_all-concat (c ∷ cs) = feed_all-feed start c cs
