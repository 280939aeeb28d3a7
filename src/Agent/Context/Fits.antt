-- ===== src/Agent/Context/Fits.antt =====
-- A pruned conversation fits into the context, and pruning fails only where nothing could fit.
use mathlib.Core.Path.{subst}
use native.Mathlib.Decide.{dec_lt}
use go_core_mcp.Prelude.{
  ℕ, zero, suc, ◌+◌, ◌-◌, ◌≤◌, ◌<◌, ◌≡◌, ◌≢◌, true, false, inl, inr, none, some, List, [], ◌∷◌,
  arith, length, Bool-cases, Option-cases,
}
use go_core_mcp.Prelude.Int.{ℤ, pos, leb_ℤ, ◌≤ℤ◌}
use go_core_mcp.Outcome.{ok, err}
use go_core_mcp.Agent.Messages.{Message, Tool, max_output_tokens}
use go_core_mcp.Agent.Context.{
  context_tokens, message_tokens, tools_tokens, does_not_fit, last_user, clamp_tools, total_tokens,
  drop_tools, drop_oldest_exchange, drop_until, budget_of, prune_messages,
}

length-drop_tools : (ms : List Message) → length (drop_tools ms) ≤ length ms
unfolding drop_tools
length-drop_tools [] = omega arith
length-drop_tools (m ∷ ms) = ground (arith, length-drop_tools ms)

-- With a budget that is not negative, and rounds for every message, the loop ends with a rest that fits.
drop_until_fits :
    (fuel : ℕ) (budget : ℤ) (tail : List Message)
    → length tail < fuel
    → pos 0 ≤ℤ budget
    → (rest : List Message) × (drop_until fuel budget tail ≡ ok rest)
      × (pos (total_tokens rest) ≤ℤ budget)
unfolding drop_until drop_oldest_exchange
drop_until_fits zero budget tail h b = absurd (omega arith)
drop_until_fits (suc fuel) budget [] h b = ([], ground arith, unfold total_tokens in b)
drop_until_fits (suc fuel) budget (m ∷ ms) h b =
    elim (Bool-cases (leb_ℤ (pos (total_tokens (m ∷ ms))) budget)) [
      | inl e ↦ (m ∷ ms, ground arith, ground arith)
      | inr e ↦
          let (rest, result, small) =
            drop_until_fits fuel budget (drop_tools ms) (omega (arith, length-drop_tools ms)) b in
          (rest, ground arith, small)
    ]

abbrev pub room : ℕ
room = context_tokens - max_output_tokens

spent :
    (tools : List Tool) (system user : Message) (rest : List Message)
    → tools_tokens tools + message_tokens system + message_tokens user < room
    → pos (total_tokens rest) ≤ℤ budget_of tools system user
    → tools_tokens tools + total_tokens (system ∷ user ∷ rest) ≤ room
unfolding budget_of total_tokens
spent tools system user rest fits small = ground arith

-- Where the tools, the system message and the last request leave room, pruning succeeds: it keeps
-- both messages, and all that is sent stays within the context less the tokens of the answer.
pub prune_messages-ok :
    (system user : Message) (ms after : List Message) (tools : List Tool)
    → last_user (system ∷ ms) ≡ some (user, after)
    → tools_tokens tools + message_tokens system + message_tokens user < room
    → (rest : List Message) × (prune_messages (system ∷ ms) tools ≡ ok (system ∷ user ∷ rest))
      × (tools_tokens tools + total_tokens (system ∷ user ∷ rest) ≤ room)
unfolding prune_messages
prune_messages-ok system user ms after tools found fits =
    let tail = clamp_tools after in
    let budget = budget_of tools system user in
    let left : pos 0 ≤ℤ budget = unfold budget_of in ground arith in
    let positive : leb_ℤ budget (pos 0) ≡ false = unfold budget_of in ground arith in
    let (rest, result, small) =
      drop_until_fits (suc (length tail)) budget tail (omega arith) left in
    (rest, rw found (rw positive (rw result)), spent tools system user rest fits small)

-- Where they leave none, it fails.
pub prune_messages-refuses :
    (system user : Message) (ms after : List Message) (tools : List Tool)
    → last_user (system ∷ ms) ≡ some (user, after)
    → room ≤ tools_tokens tools + message_tokens system + message_tokens user
    → prune_messages (system ∷ ms) tools ≡ err does_not_fit
unfolding prune_messages
prune_messages-refuses system user ms after tools found full =
    let none_left : leb_ℤ (budget_of tools system user) (pos 0) ≡ true =
      unfold budget_of in ground arith in
    rw found (rw none_left)

no_request :
    (system : Message) (ms : List Message) (tools : List Tool) {pruned : List Message}
    → last_user (system ∷ ms) ≡ none
    → prune_messages (system ∷ ms) tools ≢ ok pruned
unfolding prune_messages
no_request system ms tools e h = cc (rw e at h)

-- Whatever pruning returns fits.
pub prune_messages_fits :
    (ms : List Message) (tools : List Tool) {pruned : List Message}
    → prune_messages ms tools ≡ ok pruned
    → tools_tokens tools + total_tokens pruned ≤ room
prune_messages_fits [] tools h = absurd (unfold prune_messages in cc h)
prune_messages_fits (system ∷ ms) tools {pruned} h = elim (Option-cases (last_user (system ∷ ms))) [
  | inl e ↦ absurd (no_request system ms tools e h)
  | inr ((user, after), e) ↦
      elim (dec_lt (tools_tokens tools + message_tokens system + message_tokens user) room) [
        | yes fits ↦
            let (rest, result, small) = prune_messages-ok system user ms after tools e fits in
            let same : system ∷ user ∷ rest ≡ pruned = cc (result, h) in
            subst (λ c. tools_tokens tools + total_tokens c ≤ room) same small
        | no full ↦
            absurd (cc (prune_messages-refuses system user ms after tools e (omega arith), h))
      ]
]
