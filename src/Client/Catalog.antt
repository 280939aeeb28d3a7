-- ===== src/Client/Catalog.antt =====
-- internal/mcpclient/client.go: the tools that `ListTools` returns.
use mathlib.Core.Path.{subst}
use go_core_mcp.Prelude.{
  not-false, or-false, map-append, ℕ, zero, suc, ◌+◌, ◌≤◌, ◌≡◌, refl, sym, ◌∙◌, ap, inl, inr, true,
  false, not, ◌||◌, Bool-cases, Option-cases, Option, List, [], ◌∷◌, ◌++◌, map, Bytes, lit,
  bytes_eq, bytes_eq_refl, bytes_eq-false, mem, arith, All, All-append,
}
use go_core_mcp.Outcome.{Outcome-cases, ok_inj, ok}
use go_core_mcp.Exec.{>>=-ends, >>=-succeeds, ◌>>=◌, lift}
use go_core_mcp.Strings.Numbers.{itoa}
use go_core_mcp.Protocol.{ToolDefinition}
use go_core_mcp.Client.Waiting.{Writing-cases}
use go_core_mcp.Client.{
  Link, Outgoing, Wire, take_id, receive, write, written, encoded_id, admit, add_tools, list_pages,
  list_tools, go_on, Run, ToolsPage, call,
}

abbrev pub Distinct : List Bytes → Type 0
Distinct [] = Unit
Distinct (n ∷ ns) = (mem n ns ≡ false) × Distinct ns

bytes_eq-sym : (s t : Bytes) → bytes_eq s t ≡ false → bytes_eq t s ≡ false
bytes_eq-sym s t h =
    bytes_eq-false t s λ e. cc (sym (bytes_eq_refl s) ∙ ap (bytes_eq s) (sym e) ∙ h)

mem-last :
    (k n : Bytes) (ns : List Bytes)
    → mem k ns ≡ false
    → bytes_eq k n ≡ false
    → mem k (ns ++ n ∷ []) ≡ false
unfolding mem
mem-last k n [] h e = ground (arith, e)
mem-last k n (m ∷ ns) h e =
    let (differ, absent) = or-false (bytes_eq k m) (mem k ns) h in
    rw (differ, mem) (mem-last k n ns absent e)

pub Distinct-last :
    (n : Bytes) (ns : List Bytes) → Distinct ns → mem n ns ≡ false → Distinct (ns ++ n ∷ [])
unfolding mem
Distinct-last n [] d h = (refl, tt)
Distinct-last n (m ∷ ns) d h =
    let (differ, absent) = or-false (bytes_eq n m) (mem n ns) h in
    (mem-last m n ns d.0 (bytes_eq-sym n m differ), Distinct-last n ns d.1 absent)

module _ (wire : Wire) where
  -- A tool with a name and a schema that decodes.
  pub record IsDescribed (t : ToolDefinition) : Type 0 where
    pub has_name : bytes_eq t.name [] ≡ false
    pub has_schema : bytes_eq t.input_schema [] ≡ false
    pub is_schema : wire.is_schema t.input_schema ≡ true

  -- Tools that are described, no two of one name.
  pub record IsCatalog (tools : List ToolDefinition) : Type 0 where
    pub described : All IsDescribed tools
    pub distinct : Distinct (map (λ t. t.name) tools)

  admit_sound :
      (t : ToolDefinition) (seen : List Bytes) {u : Unit {0}}
      → admit wire t seen ≡ ok u
      → IsDescribed t × (mem t.name seen ≡ false)
  unfolding admit
  admit_sound t seen h =
      let named = Bool-cases (bytes_eq t.name [] || bytes_eq t.input_schema []) in
      let decodes = Bool-cases (not (wire.is_schema t.input_schema)) in
      let known = Bool-cases (mem t.name seen) in
      elim named [
        | inl a ↦ cc (rw (admit, a) at h)
        | inr a ↦ elim decodes [
          | inl b ↦ cc (rw (admit, a, b) at h)
          | inr b ↦ elim known [
            | inl c ↦ cc (rw (admit, a, b, c) at h)
            | inr c ↦
                let (has_name, has_schema) = or-false _ _ a in
                (
                  record {
                    has_name = has_name;
                    has_schema = has_schema;
                    is_schema = not-false _ b;
                  },
                  c,
                )
          ]
        ]
      ]

  add_tools-IsCatalog :
      (ts tools : List ToolDefinition) {all : List ToolDefinition}
      → IsCatalog tools
      → add_tools wire ts tools ≡ ok all
      → IsCatalog all
  unfolding add_tools
  add_tools-IsCatalog [] tools c h = subst IsCatalog (ok_inj h) c
  add_tools-IsCatalog (t ∷ ts) tools c h =
      elim (Outcome-cases (admit wire t (map (λ u. u.name) tools))) [
        | inl (u, e) ↦
            let (fine, new) = admit_sound t (map (λ u. u.name) tools) e in
            add_tools-IsCatalog ts (tools ++ t ∷ [])
              (record {
                described = All-append IsDescribed tools (t ∷ []) c.described (fine, tt);
                distinct =
                    subst Distinct (sym (map-append (λ u. u.name) tools (t ∷ [])))
                      (Distinct-last t.name (map (λ u. u.name) tools) c.distinct new);
              })
              (rw (add_tools, e) at h)
        | inr (inl (x, e)) ↦ cc (rw (add_tools, e) at h)
        | inr (inr e) ↦ cc (rw (add_tools, e) at h)
      ]

  call-counts :
      {A : Type 0} (decode : Bytes → Option A) (method params : Bytes) (link : Link)
      → (call wire decode method params link).1.next_id ≡ link.next_id + 1
  unfolding call take_id receive write written encoded_id ◌>>=◌
  call-counts decode method params link =
      elim (Option-cases (wire.marshal_id (itoa (link.next_id + 1)))) [
        | inl e ↦ rw e refl
        | inr (id, e) ↦
            let request : Outgoing = record { id = id; method = method; params = params } in
            elim (Bool-cases (wire.encodes request)) [
              | inr bad ↦ rw (e, bad) refl
              | inl good ↦ elim (Writing-cases (wire.takes link.sent request)) [
                | inr (inl fails) ↦ rw (e, good, fails) refl
                | inr (inr stuck) ↦ rw (e, good, stuck) refl
                | inl wrote ↦ rw (e, good, wrote) refl
              ]
            ]
      ]

  go_on-calls :
      (rest : Bytes → List ToolDefinition → Run (List ToolDefinition)) (cursor : Bytes)
      (tools : List ToolDefinition) (link : Link) (most : ℕ)
      → link.next_id ≤ most
      → ((c : Bytes) → (rest c tools link).1.next_id ≤ most)
      → (go_on wire rest cursor tools link).1.next_id ≤ most
  unfolding go_on
  go_on-calls rest [] tools link most h k = h
  go_on-calls rest (c ∷ cs) tools link most h k = k (c ∷ cs)

  page_calls :
      (pages : ℕ) (cursor : Bytes) (tools : List ToolDefinition) (link : Link)
      → (list_pages wire pages cursor tools link).1.next_id ≤ link.next_id + pages
  unfolding list_pages
  page_calls zero cursor tools link = omega arith
  page_calls (suc pages) cursor tools link =
      let ask : Run ToolsPage =
        call wire wire.decode_page (lit "tools/list") (wire.list_params cursor) in
      let after : Link = (ask link).1 in
      let one = call-counts wire.decode_page (lit "tools/list") (wire.list_params cursor) link in
      >>=-ends ask _ link (λ (l : Link). l.next_id ≤ link.next_id + suc pages) (omega (arith, one))
        λ page.
          >>=-ends (lift (add_tools wire page.tools tools)) _ after
            (λ (l : Link). l.next_id ≤ link.next_id + suc pages) (omega (arith, one))
            λ more.
              go_on-calls (λ c ts. list_pages wire pages c ts) page.next_cursor more after
                (link.next_id + suc pages) (omega (arith, one))
                λ c. omega (arith, one, page_calls pages c more after)

  go_on-IsCatalog :
      (rest : Bytes → List ToolDefinition → Run (List ToolDefinition)) (cursor : Bytes)
      (tools : List ToolDefinition) (link : Link) {all : List ToolDefinition}
      → IsCatalog tools
      → ((c : Bytes) → (rest c tools link).0 ≡ ok all → IsCatalog all)
      → (go_on wire rest cursor tools link).0 ≡ ok all
      → IsCatalog all
  unfolding go_on
  go_on-IsCatalog rest [] tools link c k h = subst IsCatalog (ok_inj h) c
  go_on-IsCatalog rest (d ∷ ds) tools link c k h = k (d ∷ ds) h

  list_pages-IsCatalog :
      (pages : ℕ) (cursor : Bytes) (tools : List ToolDefinition) (link : Link)
      {all : List ToolDefinition}
      → IsCatalog tools
      → (list_pages wire pages cursor tools link).0 ≡ ok all
      → IsCatalog all
  unfolding list_pages
  list_pages-IsCatalog zero cursor tools link c h = cc
  list_pages-IsCatalog (suc pages) cursor tools link c h =
      let ask : Run ToolsPage =
        call wire wire.decode_page (lit "tools/list") (wire.list_params cursor) in
      let after : Link = (ask link).1 in
      let (page, asked, s1) = >>=-succeeds ask _ link h in
      let (more, fine, s2) = >>=-succeeds (lift (add_tools wire page.tools tools)) _ after s1 in
      let catalog = add_tools-IsCatalog page.tools tools c fine in
      go_on-IsCatalog (λ c ts. list_pages wire pages c ts) page.next_cursor more after catalog
        (λ d. list_pages-IsCatalog pages d more after catalog) s2

  -- The tools that `ListTools` returns have names, no two the same, and schemas that decode.
  pub list_tools-IsCatalog :
      (link : Link) {tools : List ToolDefinition}
      → (list_tools wire link).0 ≡ ok tools
      → IsCatalog tools
  unfolding list_tools
  list_tools-IsCatalog link h =
      list_pages-IsCatalog 10 [] [] link (record { described = tt; distinct = tt }) h

  -- `ListTools` makes ten calls at most, whatever cursors the server answers with.
  pub list_tools-calls : (link : Link) → (list_tools wire link).1.next_id ≤ link.next_id + 10
  unfolding list_tools
  list_tools-calls link = page_calls 10 [] [] link
