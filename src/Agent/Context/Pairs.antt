-- ===== src/Agent/Context/Pairs.antt =====
-- What is dropped from a conversation is its oldest part, and no tool result is left without the
-- message that asked for it.
use mathlib.Core.Path.{subst}
use go_core_mcp.Prelude.{
  ℕ, zero, suc, ◌≡◌, ◌⊎◌, refl, sym, ◌∙◌, ap, false, inl, inr, some, List, [], ◌∷◌, ◌++◌, lit,
  arith, length, Bool-cases, append_assoc,
}
use go_core_mcp.Prelude.Int.{ℤ, pos, leb_ℤ}
use go_core_mcp.Outcome.{ok, ◌>>=◌, >>=-eq-ok}
use go_core_mcp.Agent.Messages.{Message, Tool}
use go_core_mcp.Agent.Context.{
  has_role, last_user, clamp_tools, total_tokens, drop_tools, drop_oldest_exchange, drop_until,
  budget_of, prune_messages,
}

-- The first message, if there is one, is no tool result.
abbrev pub StartsClean : List Message → Type 0
StartsClean [] = Unit
StartsClean (m ∷ ms) = has_role (lit "tool") m ≡ false

-- `rest` is what is left of `tail` behind a front; where something was dropped it starts clean.
abbrev pub IsRestOf : List Message → List Message → Type 0
IsRestOf rest tail =
    (front : List Message) × (front ++ rest ≡ tail) × ((front ≡ []) ⊎ StartsClean rest)

drop_tools_lem :
    (ms : List Message)
    → (front : List Message) × (front ++ drop_tools ms ≡ ms) × StartsClean (drop_tools ms)
unfolding drop_tools
drop_tools_lem [] = ([], refl, tt)
drop_tools_lem (m ∷ ms) = elim (Bool-cases (has_role (lit "tool") m)) [
  | inl e ↦
      let (front, whole, clean) = drop_tools_lem ms in
      (m ∷ front, rw e (ap (λ t. m ∷ t) whole), rw e clean)
  | inr e ↦ ([], rw e, rw e e)
]

-- What is left of messages that start clean starts clean.
starts_clean :
    (front rest whole : List Message)
    → (front ≡ []) ⊎ StartsClean rest
    → front ++ rest ≡ whole
    → StartsClean whole
    → StartsClean rest
starts_clean [] rest whole s e clean = subst StartsClean (sym e) clean
starts_clean (m ∷ front) rest whole (inl h) e clean = absurd (cc h)
starts_clean (m ∷ front) rest whole (inr h) e clean = h

drop_until-IsRestOf :
    (fuel : ℕ) (budget : ℤ) (tail : List Message) {rest : List Message}
    → drop_until fuel budget tail ≡ ok rest
    → IsRestOf rest tail
unfolding drop_until drop_oldest_exchange
drop_until-IsRestOf zero budget tail h = cc
drop_until-IsRestOf (suc fuel) budget [] {rest} h = ([], ground arith, inl refl)
drop_until-IsRestOf (suc fuel) budget (m ∷ ms) {rest} h =
    elim (Bool-cases (leb_ℤ (pos (total_tokens (m ∷ ms))) budget)) [
      | inl e ↦ ([], ground arith, inl refl)
      | inr e ↦
          let (front, whole, clean) = drop_tools_lem ms in
          let onward : drop_until fuel budget (drop_tools ms) ≡ ok rest = ground arith in
          let (more, again, start) = drop_until-IsRestOf fuel budget (drop_tools ms) onward in
          (
            m ∷ (front ++ more),
            ap (λ t. m ∷ t) (append_assoc front more rest ∙ ap (λ t. front ++ t) again ∙ whole),
            inr (starts_clean more rest (drop_tools ms) start again clean),
          )
    ]

-- A pruned conversation is the system message, the last request, and what is left of the messages
-- behind it (their tool results cut) when a front of them is dropped. If what stands behind the
-- request starts with no tool result, neither does what is kept of it.
pub prune_messages-IsRestOf :
    (system : Message) (ms : List Message) (tools : List Tool) {user : Message}
    {after pruned : List Message}
    → last_user (system ∷ ms) ≡ some (user, after)
    → prune_messages (system ∷ ms) tools ≡ ok pruned
    → StartsClean (clamp_tools after)
    → (rest : List Message) × (pruned ≡ system ∷ user ∷ rest)
      × IsRestOf rest (clamp_tools after)
      × StartsClean rest
unfolding prune_messages
prune_messages-IsRestOf system ms tools {user} {after} {pruned} found h clean =
    let tail = clamp_tools after in
    let budget = budget_of tools system user in
    elim (Bool-cases (leb_ℤ budget (pos 0))) [
      | inl e ↦ absurd (ground arith)
      | inr e ↦
          let chain : (drop_until (suc (length tail)) budget tail >>= λ rest.
          ok (system ∷ user ∷ rest))
              ≡ ok pruned =
            rw e at (rw found at h) in
          let (rest, result, whole) =
            >>=-eq-ok (drop_until (suc (length tail)) budget tail) _ chain in
          let part = drop_until-IsRestOf (suc (length tail)) budget tail result in
          (rest, cc whole, part, starts_clean part.0 rest tail part.2 part.1 clean)
    ]
