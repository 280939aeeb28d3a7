-- ===== src/Webutils/Extraction.antt =====
-- webutils/browser.go: which markdown of a page is used. The parsing of HTML and the conversion to
-- markdown are libraries; what they give for a page is a parameter.
pub mod Best
use go_core_mcp.Prelude.{
  ℕ, suc, ◌+◌, ◌-◌, ◌*◌, ◌/◌, Bool, true, false, not, ◌&&◌, ◌||◌, ◌==◌, Option, none, some, List,
  [], ◌∷◌, Bytes, lit, bytes_eq, ltb, leb, if◌then◌else◌, length,
}
use go_core_mcp.Strings.{trim_space, has_prefix, contains, split, count_byte}
use go_core_mcp.Coreutils.Runes.{runes}

-- `markdownQuality`
pub record MarkdownQuality : Type 0 where
  pub text_runes : ℕ
  pub score : ℕ
  pub semantic_signals : ℕ

abbrev pub no_quality : MarkdownQuality
no_quality = record { text_runes = 0; score = 0; semantic_signals = 0 }

-- `renderedDOMResult`
pub record RenderedDom : Type 0 where
  pub markdown : Bytes
  pub quality : MarkdownQuality
  pub source_kind : Bytes

-- strings.Count of a text that is not empty
count : Bytes → Bytes → ℕ
count s sep = length (split s sep) - 1

at_most : ℕ → ℕ → ℕ
at_most most n = if ltb most n then most else n

-- The counters of the loop over the lines.
pub record Marks : Type 0 where
  pub headings : ℕ
  pub lists : ℕ
  pub code_blocks : ℕ
  pub block_quotes : ℕ
  pub in_code_block : Bool
  pub table_separator : Bool

abbrev no_marks : Marks
no_marks = record {
  headings = 0;
  lists = 0;
  code_blocks = 0;
  block_quotes = 0;
  in_code_block = false;
  table_separator = false;
}

after_digits : Bytes → Bytes
after_digits [] = []
after_digits (c ∷ s) = let rest = after_digits s in if leb 48 c && leb c 57 then rest else c ∷ s

-- `isOrderedMarkdownListLine`: digits, a point and a blank
unfoldable pub is_ordered : Bytes → Bool
unfolding after_digits
is_ordered text =
    let line = trim_space text in
    let rest = after_digits line in ltb (length rest) (length line) && has_prefix rest (lit ". ")

-- unicode.IsLetter or unicode.IsNumber
module _ (is_text : ℕ → Bool) where
  text_count : List ℕ → ℕ
  text_count [] = 0
  text_count (r ∷ rs) = let rest = text_count rs in if is_text r then suc rest else rest

  -- `hasUsefulContent`
  unfoldable pub has_useful_content : Bytes → Bool
  unfolding text_count
  has_useful_content content = ltb 0 (text_count (runes (trim_space content)))

  mark_kind : Bytes → Marks → Marks
  unfolding is_ordered
  mark_kind line k =
      if has_prefix line (lit "#")
      then record k { headings = k.headings + 1 }
      else if has_prefix line (lit "- ") || has_prefix line (lit "* ") || is_ordered line
      then record k { lists = k.lists + 1 }
      else if has_prefix line (lit "> ")
      then record k { block_quotes = k.block_quotes + 1 }
      else k

  mark_table : Bytes → Marks → Marks
  mark_table line k =
      if contains line (lit "---") && leb 2 (count_byte line 124)
      then record k { table_separator = true }
      else k

  mark_fence : Marks → Marks
  mark_fence k = record k {
    code_blocks = if k.in_code_block then k.code_blocks else k.code_blocks + 1;
    in_code_block = not k.in_code_block;
  }

  mark_line : Bytes → Marks → Marks
  unfolding mark_kind mark_table mark_fence bytes_eq
  mark_line line k =
      if bytes_eq line []
      then k
      else if has_prefix line (lit "```")
      then mark_fence k
      else if k.in_code_block
      then k
      else mark_table line (mark_kind line k)

  mark_lines : List Bytes → Marks → Marks
  unfolding mark_line
  mark_lines [] k = k
  mark_lines (line ∷ lines) k = mark_lines lines (mark_line (trim_space line) k)

  -- What `assessMarkdownQuality` makes of its counters.
  weighed : ℕ → ℕ → ℕ → ℕ → Marks → MarkdownQuality
  unfolding at_most
  weighed text bonus images links k =
      let tables = if k.table_separator then 1 else 0 in
      record {
        text_runes = text;
        semantic_signals =
            at_most 2 k.headings
            + at_most 4 k.lists
            + at_most 1 tables
            + at_most 2 k.code_blocks
            + at_most 2 k.block_quotes
            + at_most 2 images;
        score =
            text
            + bonus
            + 80 * at_most 2 k.headings
            + 40 * at_most 4 k.lists
            + 120 * at_most 1 tables
            + 120 * at_most 2 k.code_blocks
            + 50 * at_most 2 k.block_quotes
            + 20 * at_most 2 images
            + 10 * at_most 5 links;
      }

  -- `assessMarkdownQuality`
  unfoldable pub assess_markdown_quality : Bytes → ℕ → MarkdownQuality
  unfolding text_count count mark_lines weighed
  assess_markdown_quality text bonus =
      let content = trim_space text in
      if not (has_useful_content content)
      then no_quality
      else weighed (text_count (runes content)) bonus (count content (lit "!["))
          (count content (lit "](")) (mark_lines (split content (10 ∷ [])) no_marks)

-- `isInadequateMarkdown`
unfoldable pub is_inadequate_markdown : MarkdownQuality → Bool
is_inadequate_markdown q = ltb 0 q.text_runes && ltb q.text_runes 12 && q.semantic_signals == 0

-- `shouldPreferRenderedDOM`, of which both branches on the length of the text are the same
unfoldable pub should_prefer_rendered_dom : MarkdownQuality → MarkdownQuality → Bytes → Bool
unfolding bytes_eq
should_prefer_rendered_dom readable dom source =
    let better =
      leb ((readable.text_runes * 4) / 5) dom.text_runes
      && leb (readable.semantic_signals + 1) dom.semantic_signals
      && leb (readable.score + 50) dom.score in
    if readable.text_runes == 0 || dom.text_runes == 0
    then false
    else if bytes_eq source (lit "article")
    then false
    else if leb 220 readable.text_runes
    then better
    else better

-- The candidate takes the place of the best one so far.
pub beats : MarkdownQuality → MarkdownQuality → Bool
beats q best = ltb best.score q.score || (q.score == best.score && ltb best.text_runes q.text_runes)

replace_if : Bool → RenderedDom → RenderedDom → RenderedDom
replace_if true c best = c
replace_if false c best = best

better_of : RenderedDom → Option RenderedDom → RenderedDom
unfolding beats replace_if
better_of c none = c
better_of c (some best) = replace_if (beats c.quality best.quality) c best

-- The loop of `extractRenderedDOMMarkdownResult` over the candidates that render and convert.
unfoldable pub best_candidate : List RenderedDom → Option RenderedDom → Option RenderedDom
unfolding better_of
best_candidate [] best = best
best_candidate (c ∷ cs) best =
    best_candidate cs (if c.quality.text_runes == 0 then best else some (better_of c best))

-- A content, its format and the way it was extracted.
pub record Extracted : Type 0 where
  pub content : Bytes
  pub content_format : Bytes
  pub extraction_method : Bytes

abbrev of_dom : RenderedDom → Extracted
of_dom d = record {
  content = d.markdown;
  content_format = lit "markdown";
  extraction_method = lit "rendered_dom_markdown";
}

abbrev of_readable : Bytes → Extracted
of_readable text = record {
  content = text;
  content_format = lit "markdown";
  extraction_method = lit "readability_markdown";
}

choose : MarkdownQuality → Option Bytes → Option RenderedDom → Bytes → Extracted
unfolding should_prefer_rendered_dom
choose q (some text) (some d) fallback =
    if should_prefer_rendered_dom q d.quality d.source_kind then of_dom d else of_readable text
choose q (some text) none fallback = of_readable text
choose q none (some d) fallback = of_dom d
choose q none none fallback = record {
  content = fallback;
  content_format = lit "text";
  extraction_method = lit "inner_text";
}

adequate : MarkdownQuality → Option Bytes → Option Bytes
unfolding is_inadequate_markdown
adequate q none = none
adequate q (some text) = if is_inadequate_markdown q then none else some text

-- `extractContentFromHTML`, of the markdown that readability gives and that of the rendered page; of an
-- error, the markdown is the empty text.
unfoldable pub extract_content :
    (Bytes → MarkdownQuality) → Option Bytes → Option RenderedDom → Bytes → Extracted
unfolding choose adequate
extract_content assess readable dom fallback =
    let q = assess (elim readable [ none ↦ [] | some text ↦ text ]) in
    choose q (adequate q readable) dom (trim_space fallback)
