-- ===== src/Agent/Loop/Discovery.antt =====
-- Which tools a session can come to use.
use mathlib.Core.Path.{subst}
use go_core_mcp.Prelude.{
  ◌≤◌, ◌≡◌, ◌⊎◌, refl, sym, ◌∙◌, true, false, inl, inr, Option, none, some, List, [], ◌∷◌, ◌++◌,
  Bytes, bytes_eq, bytes_eq_iff, mem, arith, leb, if◌then◌else◌, length, length-append, Bool-cases,
  Option-cases, All,
}
use go_core_mcp.Protocol.{ToolDefinition}
use go_core_mcp.Json.{Fields}
use go_core_mcp.Agent.Messages.{Tool}
use go_core_mcp.Agent.Policy.{allowed_core_tools, allowed_web_tools}
use go_core_mcp.Agent.Profiles.{Profile, max_exposed_tools}
use go_core_mcp.Agent.ToolCall.{find_tool}
use go_core_mcp.Agent.Loop.{
  put_tool, keep_allowed, filter_discovered, merge_web, discover, usable, expose_from,
  expose_profile,
}

-- An entry whose key is its tool's name, which one of the lists allows.
abbrev pub IsAllowedEntry : List Bytes → List Bytes → Bytes × ToolDefinition → Type 0
IsAllowedEntry core web (n, t) = (n ≡ t.name) × ((mem n core ≡ true) ⊎ (mem n web ≡ true))

module _ (P : Bytes × ToolDefinition → Type 0) where
  put_tool-All :
      (n : Bytes) (t : ToolDefinition) (ts : List (Bytes × ToolDefinition))
      → P (n, t)
      → All P ts
      → All P (put_tool n t ts)
  unfolding put_tool
  put_tool-All n t [] h hs = (h, tt)
  put_tool-All n t ((m, u) ∷ ts) h hs = elim (Bool-cases (bytes_eq m n)) [
    | inl e ↦ rw e (h, hs.1)
    | inr e ↦ rw e (hs.0, put_tool-All n t ts h hs.1)
  ]

  keep_allowed-All :
      (allowlist : List Bytes) (kept : List (Bytes × ToolDefinition)) (ts : List ToolDefinition)
      → ((t : ToolDefinition) → mem t.name allowlist ≡ true → P (t.name, t))
      → All P kept
      → All P (keep_allowed allowlist kept ts)
  unfolding keep_allowed
  keep_allowed-All allowlist kept [] h hs = hs
  keep_allowed-All allowlist kept (t ∷ ts) h hs = elim (Bool-cases (mem t.name allowlist)) [
    | inl e ↦
        rw (e, keep_allowed)
          (keep_allowed-All allowlist (put_tool t.name t kept) ts h
            (put_tool-All t.name t kept (h t e) hs))
    | inr e ↦ rw (e, keep_allowed) (keep_allowed-All allowlist kept ts h hs)
  ]

  merge_web-All :
      (found web : List (Bytes × ToolDefinition))
      → All P found
      → All P web
      → All P (merge_web found web)
  unfolding merge_web
  merge_web-All found [] h k = h
  merge_web-All found ((n, t) ∷ ts) h k = elim (Option-cases (find_tool n found)) [
    | inl e ↦
        rw (e, merge_web) (merge_web-All (put_tool n t found) ts (put_tool-All n t found k.0 h) k.1)
    | inr (u, e) ↦ rw (e, merge_web) (merge_web-All found ts h k.1)
  ]

-- Whatever tools the servers advertise, each that is discovered stands under its own name, which is
-- on the allowlist of the core tools or on that of the web tools.
pub discover-IsAllowedEntry :
    (core : List ToolDefinition) (web : Option (List ToolDefinition))
    → All (IsAllowedEntry allowed_core_tools allowed_web_tools) (discover core web)
unfolding discover filter_discovered
discover-IsAllowedEntry core none =
    keep_allowed-All (IsAllowedEntry allowed_core_tools allowed_web_tools) allowed_core_tools []
      core (λ t h. (refl, inl h)) tt
discover-IsAllowedEntry core (some web) =
    merge_web-All (IsAllowedEntry allowed_core_tools allowed_web_tools) _ _
      (keep_allowed-All (IsAllowedEntry allowed_core_tools allowed_web_tools) allowed_core_tools []
        core (λ t h. (refl, inl h)) tt)
      (keep_allowed-All (IsAllowedEntry allowed_core_tools allowed_web_tools) allowed_web_tools []
        web (λ t h. (refl, inr h)) tt)

find_tool-put_tool :
    (n m : Bytes) (t : ToolDefinition) (ts : List (Bytes × ToolDefinition))
    → find_tool m (put_tool n t ts) ≡ (if bytes_eq n m then some t else find_tool m ts)
unfolding find_tool put_tool
find_tool-put_tool n m t [] = refl
find_tool-put_tool n m t ((k, u) ∷ ts) =
    ground
      (arith, find_tool-put_tool n m t ts, bytes_eq_iff k n, bytes_eq_iff k m, bytes_eq_iff n m)

names_differ :
    (n m : Bytes) (t : ToolDefinition) (ts : List (Bytes × ToolDefinition))
    → find_tool n ts ≡ none
    → find_tool m ts ≡ some t
    → bytes_eq n m ≡ false
names_differ n m t ts e h = ground (arith, bytes_eq_iff n m)

merge_web-keeps :
    (found web : List (Bytes × ToolDefinition)) (m : Bytes) {t : ToolDefinition}
    → find_tool m found ≡ some t
    → find_tool m (merge_web found web) ≡ some t
unfolding merge_web
merge_web-keeps found [] m h = h
merge_web-keeps found ((n, u) ∷ ts) m {t} h = elim (Option-cases (find_tool n found)) [
  | inl e ↦
      let other : bytes_eq n m ≡ false = names_differ n m t found e h in
      rw (e, merge_web)
        (merge_web-keeps (put_tool n u found) ts m (find_tool-put_tool n m u found ∙ rw other h))
  | inr (v, e) ↦ rw (e, merge_web) (merge_web-keeps found ts m h)
]

-- The web server cannot replace a tool of the core server.
pub discover-core :
    (core web : List ToolDefinition) (n : Bytes) {t : ToolDefinition}
    → find_tool n (discover core none) ≡ some t
    → find_tool n (discover core (some web)) ≡ some t
unfolding discover
discover-core core web n h = merge_web-keeps _ (filter_discovered web allowed_web_tools) n h

expose_from-nil :
    (decode : Bytes → Option Fields) (found exposed : List (Bytes × ToolDefinition))
    (tools : List Tool)
    → expose_from decode found exposed tools [] ≡ (exposed, tools)
unfolding expose_from
expose_from-nil decode found exposed tools = refl

grown :
    (tools : List Tool) (a : Tool)
    → leb max_exposed_tools (length tools) ≡ false
    → length (tools ++ a ∷ []) ≤ max_exposed_tools
grown tools a e = rw (length-append tools (a ∷ [])) (ground (arith))

expose_from-full :
    (decode : Bytes → Option Fields) (found exposed : List (Bytes × ToolDefinition))
    (tools : List Tool) (n : Bytes) (ns : List Bytes)
    → leb max_exposed_tools (length tools) ≡ true
    → expose_from decode found exposed tools (n ∷ ns) ≡ (exposed, tools)
unfolding expose_from
expose_from-full decode found exposed tools n ns e = ground arith

expose_from-skip :
    (decode : Bytes → Option Fields) (found exposed : List (Bytes × ToolDefinition))
    (tools : List Tool) (n : Bytes) (ns : List Bytes)
    → leb max_exposed_tools (length tools) ≡ false
    → usable decode (find_tool n found) ≡ none
    → expose_from decode found exposed tools (n ∷ ns) ≡ expose_from decode found exposed tools ns
unfolding expose_from
expose_from-skip decode found exposed tools n ns e f = ground arith

expose_from-take :
    (decode : Bytes → Option Fields) (found exposed : List (Bytes × ToolDefinition))
    (tools : List Tool) (n : Bytes) (ns : List Bytes) {t : ToolDefinition} {a : Tool}
    → leb max_exposed_tools (length tools) ≡ false
    → usable decode (find_tool n found) ≡ some (t, a)
    → expose_from decode found exposed tools (n ∷ ns)
      ≡ expose_from decode found (put_tool n t exposed) (tools ++ a ∷ []) ns
unfolding expose_from
expose_from-take decode found exposed tools n ns e f = ground arith

expose_from-few :
    (decode : Bytes → Option Fields) (found exposed : List (Bytes × ToolDefinition))
    (tools : List Tool) (names : List Bytes)
    → length tools ≤ max_exposed_tools
    → length (expose_from decode found exposed tools names).1 ≤ max_exposed_tools
expose_from-few decode found exposed tools [] h =
    subst (λ x. length x.1 ≤ max_exposed_tools) (sym (expose_from-nil decode found exposed tools)) h
expose_from-few decode found exposed tools (n ∷ ns) h =
    elim (Bool-cases (leb max_exposed_tools (length tools))) [
      | inl e ↦
          subst (λ x. length x.1 ≤ max_exposed_tools)
            (sym (expose_from-full decode found exposed tools n ns e)) h
      | inr e ↦ elim (Option-cases (usable decode (find_tool n found))) [
        | inl f ↦
            subst (λ x. length x.1 ≤ max_exposed_tools)
              (sym (expose_from-skip decode found exposed tools n ns e f))
              (expose_from-few decode found exposed tools ns h)
        | inr ((t, a), f) ↦
            subst (λ x. length x.1 ≤ max_exposed_tools)
              (sym (expose_from-take decode found exposed tools n ns e f))
              (expose_from-few decode found (put_tool n t exposed) (tools ++ a ∷ []) ns
                (grown tools a e))
      ]
    ]

-- However many tools a profile names, the model is given at most six.
pub expose_profile-IsFew :
    (decode : Bytes → Option Fields) (found : List (Bytes × ToolDefinition)) (profile : Profile)
    → length (expose_profile decode found profile).1 ≤ max_exposed_tools
unfolding expose_profile
expose_profile-IsFew decode found profile =
    expose_from-few decode found [] [] profile.tools (omega arith)
