-- ===== src/Webutils/Extraction/Best.antt =====
-- webutils/browser.go: the candidate of the rendered page that is kept.
use mathlib.Core.Path.{subst}
use go_core_mcp.Prelude.{
  ap, refl, some_inj, ℕ, ◌≡◌, ◌⊎◌, sym, inl, inr, true, false, ◌==◌, Bool-cases, Option, none, some,
  List, [], ◌∷◌, ◌++◌, arith, All, All-map, All-append, append_assoc, append-nil, ◌+◌, ◌≤◌,
}
use go_core_mcp.Webutils.Extraction.{
  MarkdownQuality, RenderedDom, beats, replace_if, better_of, best_candidate,
}

-- What is not beaten by the old best is not beaten by one that beats it.
beats_trans : (x b c : MarkdownQuality) → beats x b ≡ false → beats c b ≡ true → beats x c ≡ false
unfolding beats
beats_trans x b c h k = ground arith

beats_self : (q : MarkdownQuality) → beats q q ≡ false
unfolding beats
beats_self q = ground arith

-- A candidate without text, or one that the best does not have to give way to.
abbrev Unbeating : RenderedDom → RenderedDom → Type 0
Unbeating best c = (c.quality.text_runes ≡ 0) ⊎ (beats c.quality best.quality ≡ false)

abbrev AllUnbeating : Option RenderedDom → List RenderedDom → Type 0
AllUnbeating none cs = All (λ c. c.quality.text_runes ≡ 0) cs
AllUnbeating (some best) cs = All (Unbeating best) cs

zero_text : (n : ℕ) → (n == 0) ≡ true → n ≡ 0
zero_text n h = ground arith

none_before :
    (best : RenderedDom) (seen : List RenderedDom)
    → AllUnbeating none seen
    → AllUnbeating (some best) seen
none_before best seen h = All-map (λ c z. inl z) seen h

weaken :
    (c best : RenderedDom)
    → beats c.quality best.quality ≡ true
    → (x : RenderedDom) → Unbeating best x
    → Unbeating c x
weaken c best k x (inl z) = inl z
weaken c best k x (inr h) = inr (beats_trans x.quality best.quality c.quality h k)

-- One candidate more, with text.
one_more :
    (best : Option RenderedDom) (seen : List RenderedDom) (c : RenderedDom)
    → AllUnbeating best seen
    → AllUnbeating (some (better_of c best)) (seen ++ c ∷ [])
unfolding better_of replace_if
one_more none seen c h =
    All-append (Unbeating c) seen (c ∷ []) (none_before c seen h) (inr (beats_self c.quality), tt)
one_more (some best) seen c h = elim (Bool-cases (beats c.quality best.quality)) [
  | inl k ↦ rw k (
      All-append (Unbeating c) seen (c ∷ []) (All-map (weaken c best k) seen h)
        (inr (beats_self c.quality), tt))
  | inr k ↦ rw k (All-append (Unbeating best) seen (c ∷ []) h (inr k, tt))
]

-- One candidate more, without text.
one_empty :
    (best : Option RenderedDom) (seen : List RenderedDom) (c : RenderedDom)
    → AllUnbeating best seen
    → c.quality.text_runes ≡ 0
    → AllUnbeating best (seen ++ c ∷ [])
one_empty none seen c h z = All-append (λ x. x.quality.text_runes ≡ 0) seen (c ∷ []) h (z, tt)
one_empty (some best) seen c h z = All-append (Unbeating best) seen (c ∷ []) h (inl z, tt)

best_candidate-after :
    (cs seen : List RenderedDom) (best : Option RenderedDom)
    → AllUnbeating best seen
    → AllUnbeating (best_candidate cs best) (seen ++ cs)
unfolding best_candidate
best_candidate-after [] seen best h = subst (AllUnbeating best) (sym (append-nil seen)) h
best_candidate-after (c ∷ cs) seen best h = elim (Bool-cases (c.quality.text_runes == 0)) [
  | inl z ↦
      rw (best_candidate, z)
        (subst (AllUnbeating (best_candidate cs best)) (append_assoc seen (c ∷ []) cs) (
          best_candidate-after cs (seen ++ c ∷ []) best
            (one_empty best seen c h (zero_text c.quality.text_runes z))))
  | inr z ↦
      rw (best_candidate, z)
        (subst (AllUnbeating (best_candidate cs (some (better_of c best))))
          (append_assoc seen (c ∷ []) cs)
          (best_candidate-after cs (seen ++ c ∷ []) (some (better_of c best))
            (one_more best seen c h)))
]

-- A candidate without text, one with a lower score, or one with the score of the best and no more
-- text.
abbrev pub Yields : RenderedDom → RenderedDom → Type 0
Yields best c =
    (c.quality.text_runes ≡ 0)
    ⊎ ((c.quality.score + 1 ≤ best.quality.score)
        ⊎ ((c.quality.score ≡ best.quality.score)
            × (c.quality.text_runes ≤ best.quality.text_runes)))

abbrev pub Among : RenderedDom → List RenderedDom → Type 0
Among x [] = ⊥
Among x (c ∷ cs) = (x ≡ c) ⊎ Among x cs

abbrev pub YieldsAll : Option RenderedDom → List RenderedDom → Type 0
YieldsAll none cs = All (λ c. c.quality.text_runes ≡ 0) cs
YieldsAll (some best) cs = Among best cs × All (Yields best) cs

either_kept :
    (c : RenderedDom) (best : Option RenderedDom) {x : RenderedDom}
    → better_of c best ≡ x
    → (best ≡ some x) ⊎ (x ≡ c)
unfolding better_of replace_if
either_kept c none h = inr (sym h)
either_kept c (some best) h = elim (Bool-cases (beats c.quality best.quality)) [
  | inl k ↦ inr (sym (rw k at h))
  | inr k ↦ inl (ap some (rw k at h))
]

best_candidate-Among :
    (cs : List RenderedDom) (best : Option RenderedDom) {x : RenderedDom}
    → best_candidate cs best ≡ some x
    → (best ≡ some x) ⊎ Among x cs
unfolding best_candidate
best_candidate-Among [] best h = inl h
best_candidate-Among (c ∷ cs) best h = elim (Bool-cases (c.quality.text_runes == 0)) [
  | inl z ↦ elim (best_candidate-Among cs best (rw (best_candidate, z) at h)) [
    | inl e ↦ inl e
    | inr m ↦ inr (inr m)
  ]
  | inr z ↦ elim (best_candidate-Among cs (some (better_of c best)) (rw (best_candidate, z) at h)) [
    | inl e ↦ elim (either_kept c best (some_inj e)) [ inl old ↦ inl old | inr new ↦ inr (inl new) ]
    | inr m ↦ inr (inr m)
  ]
]

unbeating_scores :
    (q best : MarkdownQuality)
    → beats q best ≡ false
    → (q.score + 1 ≤ best.score) ⊎ ((q.score ≡ best.score) × (q.text_runes ≤ best.text_runes))
unfolding beats
unbeating_scores q best h = elim (Bool-cases (q.score == best.score)) [
  | inl same ↦ inr (ground arith, ground arith)
  | inr differ ↦ inl (ground arith)
]

Unbeating-Yields : (best c : RenderedDom) → Unbeating best c → Yields best c
Unbeating-Yields best c (inl z) = inl z
Unbeating-Yields best c (inr h) = inr (unbeating_scores c.quality best.quality h)

all_yield :
    (best : Option RenderedDom) (cs : List RenderedDom)
    → ((x : RenderedDom) → best ≡ some x → Among x cs)
    → AllUnbeating best cs
    → YieldsAll best cs
all_yield none cs m h = h
all_yield (some best) cs m h = (m best refl, All-map (Unbeating-Yields best) cs h)

-- If a candidate is kept, it is one of those that were given, and no candidate with text has a higher
-- score, nor the same score and more text. If none is kept, none has text.
pub best_candidate-YieldsAll : (cs : List RenderedDom) → YieldsAll (best_candidate cs none) cs
best_candidate-YieldsAll cs =
    all_yield (best_candidate cs none) cs
      (λ x e. elim (best_candidate-Among cs none e) [ inl f ↦ cc | inr m ↦ m ])
      (best_candidate-after cs [] none tt)
