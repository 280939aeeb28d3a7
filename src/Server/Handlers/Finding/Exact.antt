-- ===== src/Server/Handlers/Finding/Exact.antt =====
-- internal/mcpserver/tools.go: what `runFind` finds, against a description without limits.
use go_core_mcp.Prelude.{
  ℕ, zero, suc, ◌+◌, ◌-◌, ◌≤◌, ◌≡◌, refl, sym, ◌∙◌, ap, inl, inr, Bool, true, false, Bool-cases,
  List, [], ◌∷◌, ◌++◌, append_assoc, append-nil, Bytes, bytes_eq, arith, leb, leb-false, leb→le,
  if◌then◌else◌, length, length-append, take, All,
}
use go_core_mcp.Prelude.Int.{pos, leb_ℤ}
use go_core_mcp.Outcome.{Outcome, ok, err, panic}
use go_core_mcp.Strings.Paths.{slash}
use go_core_mcp.Server.{ToolError}
use go_core_mcp.Server.Workspace.{Kind, directory, regular, other, inside}
use go_core_mcp.Server.Machine.{Machine, Visit, broken, entry}
use go_core_mcp.Server.Handlers.Finding.{
  Found, relative_path, add_entry, progress, add_if, by_kind, visit, walk_on, walk, nothing_found,
}

le→leb : (a b : ℕ) → a ≤ b → leb a b ≡ true
le→leb a b h = ground arith

leb_above : (a b : ℕ) → b + 1 ≤ a → leb a b ≡ false
leb_above a b h = ground arith

take-nil : (k : ℕ) → take {A = Bytes} k [] ≡ []
take-nil zero = refl
take-nil (suc k) = refl

module _ {W : Type 0} (m : Machine W) (root : Bytes)
    (matches : Bytes → Outcome ToolError Bool) where
  -- The line of an entry: a directory with a slash, a regular file without, and nothing else.
  pub shown : Kind → Bytes → List Bytes
  shown directory path = (relative_path m.workspace path ++ slash) ∷ []
  shown regular path = relative_path m.workspace path ∷ []
  shown other path = []

  is_yes : Outcome ToolError Bool → Bool
  is_yes (ok b) = b
  is_yes (err e) = false
  is_yes panic = false

  hit : Visit → List Bytes
  hit broken = []
  hit (entry path name k) =
      if bytes_eq path root then [] else if is_yes (matches name) then shown k path else []

  -- The lines of all the entries below the root whose names match, in the order of the walk.
  pub hits : List Visit → List Bytes
  hits [] = []
  hits (v ∷ vs) = hit v ++ hits vs

  -- An entry that can be read, inside the workspace, with a name that can be matched.
  abbrev pub IsReadable : Visit → Type 0
  IsReadable broken = ⊥
  IsReadable (entry path name k) =
      (inside m.workspace path ≡ true) × ((b : Bool) × (matches name ≡ ok b))

  -- What the walk should end with, from what was found before.
  record EndsWith (n : ℕ) (f : Found) (rest : List Bytes) (out : Outcome ToolError (Found × Bool))
      : Type 0 where
    pub last : Found
    pub is : out ≡ ok (last, leb (suc n) (length f.lines + length rest))
    pub lines : last.lines ≡ f.lines ++ take (suc n - length f.lines) rest

  module _ (n : ℕ) where
    longer :
        (f f' : Found) (l : Bytes)
        → f'.lines ≡ f.lines ++ l ∷ []
        → length f'.lines ≡ length f.lines + 1
    longer f f' l same = ap length same ∙ length-append f.lines (l ∷ [])

    -- One line more, at or below the limit.
    with_line :
        (f f' : Found) (l : Bytes) (rest : List Bytes)
        (go : Found → Outcome ToolError (Found × Bool))
        → length f.lines ≤ n
        → f'.lines ≡ f.lines ++ l ∷ []
        → (length f'.lines ≤ n → EndsWith n f' rest (go f'))
        → EndsWith n f (l ∷ rest) (walk_on m go (ok (progress m (pos (suc n)) f')))
    unfolding walk_on progress
    with_line f f' l rest go few same next =
        elim (Bool-cases (leb_ℤ (pos (suc n)) (pos (length f'.lines)))) [
          | inl e ↦
              let one : suc n - length f.lines ≡ 1 =
                omega (arith, few, longer f f' l same, leb→le _ _ e) in
              rw e (record {
                last = f';
                is =
                    ap (λ b. ok (f', b))
                      (sym (le→leb _ _ (omega (arith, longer f f' l same, leb→le _ _ e))));
                lines = same ∙ ap (λ k. f.lines ++ take k (l ∷ rest)) (sym one);
              })
          | inr e ↦
              let below : length f'.lines ≤ n = omega (arith, leb-false _ _ e) in
              let later = next below in
              let left : suc n - length f.lines ≡ suc (suc n - length f'.lines) =
                omega (arith, few, below, longer f f' l same) in
              let total : length f'.lines + length rest ≡ length f.lines + suc (length rest) =
                omega (arith, longer f f' l same) in
              rw e (record {
                last = later.last;
                is = later.is ∙ ap (λ k. ok (later.last, leb (suc n) k)) total;
                lines =
                    later.lines
                    ∙ ap (λ ls. ls ++ take (suc n - length f'.lines) rest) same
                    ∙ append_assoc f.lines (l ∷ []) _
                    ∙ ap (λ k. f.lines ++ take k (l ∷ rest)) (sym left);
              })
        ]

    entry_ends :
        (k : Kind) (path : Bytes) (b : Bool) (f : Found) (rest : List Bytes)
        (go : Found → Outcome ToolError (Found × Bool))
        → length f.lines ≤ n
        → ((g : Found) → length g.lines ≤ n → EndsWith n g rest (go g))
        → EndsWith n f
            ((if b then shown k path else []) ++ rest)
            (walk_on m go (by_kind m (ok b) (pos (suc n)) k path f))
    unfolding by_kind add_if walk_on shown add_entry
    entry_ends other path true f rest go few next = next f few
    entry_ends other path false f rest go few next = next f few
    entry_ends directory path false f rest go few next = next f few
    entry_ends regular path false f rest go few next = next f few
    entry_ends directory path true f rest go few next =
        with_line f (add_entry m directory (relative_path m.workspace path) f)
          (relative_path m.workspace path ++ slash) rest go few refl (next _)
    entry_ends regular path true f rest go few next =
        with_line f (add_entry m regular (relative_path m.workspace path) f)
          (relative_path m.workspace path) rest go few refl (next _)

    walk-EndsWith :
        (visits : List Visit) (f : Found)
        → All IsReadable visits
        → length f.lines ≤ n
        → EndsWith n f (hits visits) (walk m root matches (pos (suc n)) visits f)
    unfolding walk hits hit visit walk_on is_yes
    walk-EndsWith [] f readable few = record {
      last = f;
      is = ap (λ b. ok (f, b)) (sym (leb_above _ _ (omega (arith, few))));
      lines = sym (append-nil f.lines) ∙ ap (λ ls. f.lines ++ ls) (sym (take-nil _));
    }
    walk-EndsWith (broken ∷ visits) f readable few = absurd readable.0
    walk-EndsWith (entry path name k ∷ visits) f readable few =
        elim (Bool-cases (bytes_eq path root)) [
          | inl e ↦ rw e (walk-EndsWith visits f readable.1 few)
          | inr e ↦
              let (b, matched) = readable.0.1 in
              rw (e, readable.0.0, matched)
                (entry_ends k path b f (hits visits)
                  (λ g. walk m root matches (pos (suc n)) visits g) few
                  (λ g below. walk-EndsWith visits g readable.1 below))
        ]

  -- Where every entry can be read and matched, a walk with a limit ends with the first lines of all
  -- that match, as many as the limit, and reports a cut just if there are as many as the limit.
  pub walk_exact :
      (n : ℕ) (visits : List Visit)
      → All IsReadable visits
      → (last : Found) × (walk m root matches (pos (suc n)) visits nothing_found
          ≡ ok (last, leb (suc n) (length (hits visits))))
        × (last.lines ≡ take (suc n) (hits visits))
  walk_exact n visits readable =
      let ends = walk-EndsWith n visits nothing_found readable (omega arith) in
      let all : 0 + length (hits visits) ≡ length (hits visits) = omega arith in
      let room : suc n - 0 ≡ suc n = omega arith in
      (
        ends.last,
        ends.is ∙ ap (λ k. ok (ends.last, leb (suc n) k)) all,
        ends.lines ∙ ap (λ k. take k (hits visits)) room,
      )
