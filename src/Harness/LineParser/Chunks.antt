-- ===== src/Harness/LineParser/Chunks.antt =====
-- The lines and the buffer, when a stream is cut into chunks.
use athena_flow_cli.Common.{
  eq_of_==, ℕ, ◌+◌, ◌≤◌, ◌≡◌, refl, ap, sym, ◌∙◌, arith, List, [], ◌∷◌, ◌++◌, if◌then◌else◌, ◌==◌,
  nat_eq, ltb, length, length-append, keep, keep-append, Bool, true, false, Bool-cases, inl, inr,
  All,
}
use mathlib.Core.List.{append-nil, append_assoc}
use athena_flow_cli.Common.Text.{Text, concat}
use athena_flow_cli.Common.Text.Split.{
  glue_char, newline, split_lines, split_lines-append, split_lines-Unbroken, split_lines-break,
  Unbroken, Unbroken-rest,
}
use athena_flow_cli.Harness.LineParser.{
  Parser, empty, push_segment, flatten, keep_remainder, scan, feed, feed_all,
}

-- The bytes that a parser holds.
abbrev pub held : Parser → Text
held p = concat p.chunks

pub record Inv (limit : ℕ) (p : Parser) : Type 0 where
  pub counted : p.total_bytes ≡ length (held p)
  pub bounded : p.total_bytes ≤ limit
  pub unbroken : Unbroken (held p)

empty-Inv : (limit : ℕ) → Inv limit empty
empty-Inv limit = record { counted = refl; bounded = omega arith; unbroken = tt }

concat-append : (cs : List Text) (c : Text) → concat (cs ++ c ∷ []) ≡ concat cs ++ c
concat-append [] c = append-nil c
concat-append (d ∷ cs) c = ap (d ++◌) (concat-append cs c) ∙ sym (append_assoc d _ _)

Unbroken-append : (s t : Text) → Unbroken s → Unbroken t → Unbroken (s ++ t)
Unbroken-append [] t hs ht = ht
Unbroken-append (c ∷ s) t hs ht = (hs.0, Unbroken-append s t hs.1 ht)

abbrev pub nonempty : Text → Bool
nonempty l = ltb 0 (length l)

length_zero : (s : Text) → ltb 0 (length s) ≡ false → s ≡ []
length_zero [] h = refl
length_zero (c ∷ s) h = ground arith

-- A rest over the limit is given up.
abbrev pub clipped : ℕ → Text → Text
clipped limit r = if ltb limit (length r) then [] else r

within : (limit : ℕ) (r : Text) → length r ≤ limit → clipped limit r ≡ r
within limit r h = ground arith

flatten-push_segment :
    (limit : ℕ) (p : Parser) (segment : Text)
    → Inv limit p
    → flatten (push_segment p segment) ≡ keep nonempty ((held p ++ segment) ∷ [])
flatten-push_segment limit p segment v = elim (Bool-cases (ltb 0 (length segment))) [
  | inl e ↦ simp (e, v.counted, concat-append) (ground (arith, length-append (held p) segment))
  | inr e ↦ simp (length_zero segment e, append-nil, v.counted) (ground arith)
]

keep_remainder-lem :
    (limit : ℕ) (p : Parser) (r : Text)
    → Inv limit p
    → Unbroken r
    → (held (keep_remainder limit p r) ≡ clipped limit (held p ++ r))
      × Inv limit (keep_remainder limit p r)
keep_remainder-lem limit p r v u = elim (Bool-cases (ltb 0 (length r))) [
  | inl e ↦ elim (Bool-cases (ltb limit (p.total_bytes + length r))) [
    | inl f ↦ rw (e, f) (rw (← total, f) refl, empty-Inv limit)
    | inr f ↦
        rw (e, f)
          (
            rw (← total, f) (concat-append p.chunks r),
            record {
              counted = total ∙ ap length (sym (concat-append p.chunks r));
              bounded = ground arith;
              unbroken = rw (concat-append p.chunks r) (Unbroken-append (held p) r v.unbroken u);
            },
          )
  ]
  | inr e ↦
      rw (e, length_zero r e, append-nil)
        (sym (within limit (held p) (omega (arith, v.counted, v.bounded))), v)
]
  where
    total : p.total_bytes + length r ≡ length (held p ++ r)
    total = omega (arith, length-append (held p) r, v.counted)

abbrev pub Scans : ℕ → Parser → Text → Parser × List Text → Type 0
Scans limit p text (q, out) =
    (out ≡ keep nonempty (split_lines (held p ++ text)).0)
    × (held q ≡ clipped limit (split_lines (held p ++ text)).1)
    × Inv limit q

scan-newline :
    (limit : ℕ) (p : Parser) (segment : Text) (c : ℕ) (chunk : Text)
    → (c == newline) ≡ true
    → scan limit p segment (c ∷ chunk) ≡ (
      (scan limit empty [] chunk).0,
      flatten (push_segment p segment) ++ (scan limit empty [] chunk).1,
    )
unfolding scan
scan-newline limit p segment c chunk e = rw (e, scan) refl

scan-other :
    (limit : ℕ) (p : Parser) (segment : Text) (c : ℕ) (chunk : Text)
    → (c == newline) ≡ false
    → scan limit p segment (c ∷ chunk) ≡ scan limit p (segment ++ c ∷ []) chunk
unfolding scan
scan-other limit p segment c chunk e = rw (e, scan) refl

scan-Scans :
    (limit : ℕ) (p : Parser) (segment chunk : Text)
    → Inv limit p
    → Unbroken segment
    → Scans limit p (segment ++ chunk) (scan limit p segment chunk)
unfolding scan
scan-Scans limit p segment [] v u =
    rw (append-nil, split_lines-Unbroken _ (Unbroken-append (held p) segment v.unbroken u))
      (let (a, b) = keep_remainder-lem limit p segment v u in (refl, a, b))
scan-Scans limit p segment (c ∷ chunk) v u = elim (Bool-cases (c == 10)) [
  | inl e ↦
      rw (scan-newline limit p segment c chunk e, eq_of_== c newline e)
        (at_newline (scan-Scans limit empty [] chunk (empty-Inv limit) tt))
  | inr e ↦ rw (scan-other limit p segment c chunk e) (
      rw (append_assoc segment (c ∷ []) chunk) at (
        scan-Scans limit p (segment ++ c ∷ []) chunk v
          (Unbroken-append segment (c ∷ []) u (e, tt))))
]
  where
    at_newline :
        Scans limit empty chunk (scan limit empty [] chunk)
        → Scans limit p (segment ++ newline ∷ chunk) (
          (scan limit empty [] chunk).0,
          flatten (push_segment p segment) ++ (scan limit empty [] chunk).1,
        )
    at_newline h =
        rw
          (
            ← append_assoc (held p) segment (newline ∷ chunk),
            split_lines-break (held p ++ segment) chunk
                (Unbroken-append (held p) segment v.unbroken u),
            flatten-push_segment limit p segment v,
            h.0,
          )
          (sym (keep-append nonempty ((held p ++ segment) ∷ []) (split_lines chunk).0), h.1, h.2)

-- Every line of a text, the last and incomplete one too, fits the buffer.
abbrev pub Fits : ℕ → Text → Type 0
Fits limit s = All (λ l. length l ≤ limit) (split_lines s).0 × (length (split_lines s).1 ≤ limit)

abbrev pub prepend : Text → List Text × Text → List Text × Text
prepend s ([], r) = ([], s ++ r)
prepend s (l ∷ ls, r) = ((s ++ l) ∷ ls, r)

prepend-nil : (p : List Text × Text) → p ≡ prepend [] p
prepend-nil ([], r) = refl
prepend-nil (l ∷ ls, r) = refl

prepend-glue :
    (c : ℕ) (s : Text) (p : List Text × Text)
    → glue_char c (prepend s p).0 (prepend s p).1 ≡ prepend (c ∷ s) p
prepend-glue c s ([], r) = refl
prepend-glue c s (l ∷ ls, r) = refl

split_lines-prepend : (s t : Text) → Unbroken s → split_lines (s ++ t) ≡ prepend s (split_lines t)
unfolding split_lines
split_lines-prepend [] t h = prepend-nil (split_lines t)
split_lines-prepend (c ∷ s) t h =
    rw (split_lines-prepend s t h.1, h.0) (prepend-glue c s (split_lines t))

prepend-Fits :
    (limit : ℕ) (s : Text) (p : List Text × Text)
    → All (λ l. length l ≤ limit) (prepend s p).0
    → length (prepend s p).1 ≤ limit
    → length s ≤ limit
prepend-Fits limit s ([], r) a b = omega (arith, length-append s r)
prepend-Fits limit s (l ∷ ls, r) a b = omega (arith, length-append s l, a.0)

All-tail :
    (limit : ℕ) (xs ys : List Text)
    → All (λ l. length l ≤ limit) (xs ++ ys)
    → All (λ l. length l ≤ limit) ys
All-tail limit [] ys h = h
All-tail limit (x ∷ xs) ys h = All-tail limit xs ys h.1

-- The rest after a part of a text that fits is itself fit, and goes on to fit.
Fits-append :
    (limit : ℕ) (s t : Text)
    → Fits limit (s ++ t)
    → (length (split_lines s).1 ≤ limit) × Fits limit ((split_lines s).1 ++ t)
Fits-append limit s t h =
    let more : Fits limit ((split_lines s).1 ++ t) = (
      All-tail limit (split_lines s).0 _ (rw (split_lines-append s t) at h.0),
      rw (split_lines-append s t) at h.1,
    ) in
    let shown = rw (split_lines-prepend (split_lines s).1 t (Unbroken-rest s)) at more in
    (prepend-Fits limit (split_lines s).1 (split_lines t) shown.0 shown.1, more)

-- The lines of the whole text without the empty ones, and the incomplete line that is held.
abbrev pub FeedsAll : Parser → Text → Parser × List Text → Type 0
FeedsAll p text (q, out) =
    (out ≡ keep nonempty (split_lines (held p ++ text)).0)
    × (held q ≡ (split_lines (held p ++ text)).1)

feed_all-FeedsAll :
    (limit : ℕ) (p : Parser) (cs : List Text)
    → Inv limit p
    → Fits limit (held p ++ concat cs)
    → FeedsAll p (concat cs) (feed_all limit p cs)
unfolding feed_all feed
feed_all-FeedsAll limit p [] v f =
    rw (append-nil, split_lines-Unbroken (held p) v.unbroken) (refl, refl)
feed_all-FeedsAll limit p (c ∷ cs) v f =
    let (a, b, w) = scan-Scans limit p [] c v tt in
    let g =
      Fits-append limit (held p ++ c) (concat cs) (rw (append_assoc (held p) c (concat cs)) f) in
    let kept : held (scan limit p [] c).0 ≡ (split_lines (held p ++ c)).1 =
      b ∙ within limit _ g.0 in
    let (out, rest) = feed_all-FeedsAll limit (scan limit p [] c).0 cs w (rw kept g.1) in
    rw (← append_assoc (held p) c (concat cs), split_lines-append (held p ++ c) (concat cs), a)
      (rw (keep-append, out, kept) refl, rw kept at rest)

-- When no line of the stream, the last and incomplete one included, is longer than the buffer's limit,
-- then however the stream is cut into chunks, the lines that come out are its complete lines without
-- the empty ones, and its incomplete line is held.
pub lines_of_stream :
    (limit : ℕ) (cs : List Text)
    → Fits limit (concat cs)
    → FeedsAll empty (concat cs) (feed_all limit empty cs)
lines_of_stream limit cs f = feed_all-FeedsAll limit empty cs (empty-Inv limit) f

feed_all-Inv :
    (limit : ℕ) (p : Parser) (cs : List Text) → Inv limit p → Inv limit (feed_all limit p cs).0
unfolding feed_all feed
feed_all-Inv limit p [] v = v
feed_all-Inv limit p (c ∷ cs) v =
    feed_all-Inv limit (scan limit p [] c).0 cs (scan-Scans limit p [] c v tt).2

-- Whatever chunks arrive, the parser never holds more bytes than its limit, its count is right, and
-- it holds no newline.
pub held_bytes-Inv : (limit : ℕ) (cs : List Text) → Inv limit (feed_all limit empty cs).0
held_bytes-Inv limit cs = feed_all-Inv limit empty cs (empty-Inv limit)
