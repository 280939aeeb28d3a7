-- ===== src/Client/Waiting.antt =====
-- internal/mcpclient/client.go: what a call waits for.
use go_core_mcp.Prelude.{
  arith, ◌+◌, ◌≡◌, ◌≢◌, ◌⊎◌, refl, sym, ap, inl, inr, Bool, true, false, not, ◌||◌, Bool-cases,
  Option, Option-cases, none, some, List, [], ◌∷◌, ◌++◌, map, Bytes, bytes_eq, bytes_eq_iff, All,
}
use go_core_mcp.Outcome.{Outcome, ok, err}
use go_core_mcp.Exec.{◌>>=◌}
use go_core_mcp.Strings.Numbers.{itoa}
use go_core_mcp.Client.{
  Incoming, Outgoing, Event, done, broken, closed, arrived, ClientError, waiting, Writing, taken,
  refused, blocked, Link, Wire, answer, unrelated, await, call, write, take_id, receive, encoded_id,
  written,
}

pub Writing-cases : (w : Writing) → (w ≡ taken) ⊎ ((w ≡ refused) ⊎ (w ≡ blocked))
Writing-cases taken = inl refl
Writing-cases refused = inr (inl refl)
Writing-cases blocked = inr (inr refl)

-- One of the events ends a call: its context is done, or the transport has ended.
abbrev pub HasEnd : List Event → Type 0
HasEnd [] = ⊥
HasEnd (done ∷ events) = Unit
HasEnd (broken ∷ events) = Unit
HasEnd (closed ∷ events) = Unit
HasEnd (arrived m ∷ events) = HasEnd events

answer-returns :
    {A : Type 0} (decode : Bytes → Option A) (m : Incoming) → answer decode m ≢ err waiting
unfolding answer
answer-returns decode m h = elim (Option-cases m.error) [
  | inr (message, e) ↦ cc (rw (answer, e) at h)
  | inl e ↦ elim (Option-cases (decode m.result)) [
    | inl d ↦ cc (rw (answer, e, d) at h)
    | inr (a, d) ↦ cc (rw (answer, e, d) at h)
  ]
]

await-returns :
    {A : Type 0} (decode : Bytes → Option A) (id : Bytes) (events : List Event)
    → HasEnd events
    → (await decode id events).0 ≢ err waiting
unfolding await
await-returns decode id [] ends h = absurd ends
await-returns decode id (done ∷ events) ends h = cc
await-returns decode id (broken ∷ events) ends h = cc
await-returns decode id (closed ∷ events) ends h = cc
await-returns decode id (arrived m ∷ events) ends h = elim (Bool-cases (unrelated id m)) [
  | inl skip ↦ await-returns decode id events ends (rw (await, skip) at h)
  | inr mine ↦ answer-returns decode m (rw (await, mine) at h)
]

-- The response that a call returns the result of: the first event that is no message to ignore is a
-- message with the call's id, without an error, and with a result that decodes.
pub record IsResponse {A : Type 0} (decode : Bytes → Option A) (id : Bytes)
    (events left : List Event) (a : A) : Type 0 where
  pub ignored : List Incoming
  pub response : Incoming
  pub in_order : events ≡ map arrived ignored ++ arrived response ∷ left
  pub all_unrelated : All (λ m. unrelated id m ≡ true) ignored
  pub same_id : response.id ≡ id
  pub no_error : response.error ≡ none
  pub decodes : decode response.result ≡ some a

answer_sound :
    {A : Type 0} (decode : Bytes → Option A) (m : Incoming) {a : A}
    → answer decode m ≡ ok a
    → (m.error ≡ none) × (decode m.result ≡ some a)
unfolding answer
answer_sound decode m h = elim (Option-cases m.error) [
  | inr (message, e) ↦ cc (rw (answer, e) at h)
  | inl e ↦ elim (Option-cases (decode m.result)) [
    | inl d ↦ cc (rw (answer, e, d) at h)
    | inr (b, d) ↦ (e, cc (d, rw (answer, e, d) at h))
  ]
]

second : (a b : Bool) → (a || not b) ≡ false → b ≡ true
second a b h = ground arith

related : (id : Bytes) (m : Incoming) → unrelated id m ≡ false → m.id ≡ id
unfolding unrelated
related id m h = (bytes_eq_iff m.id id).0 (second (bytes_eq m.id []) (bytes_eq m.id id) h)

pub await-IsResponse :
    {A : Type 0} (decode : Bytes → Option A) (id : Bytes) (events : List Event) {a : A}
    {left : List Event}
    → await decode id events ≡ (ok a, left)
    → IsResponse decode id events left a
unfolding await
await-IsResponse decode id [] h = cc (ap (λ p. p.0) h)
await-IsResponse decode id (done ∷ events) h = cc (ap (λ p. p.0) h)
await-IsResponse decode id (broken ∷ events) h = cc (ap (λ p. p.0) h)
await-IsResponse decode id (closed ∷ events) h = cc (ap (λ p. p.0) h)
await-IsResponse decode id (arrived m ∷ events) {a} {left} h = elim (Bool-cases (unrelated id m)) [
  | inl skip ↦
      let later = await-IsResponse decode id events (rw (await, skip) at h) in
      record {
        ignored = m ∷ later.ignored;
        response = later.response;
        in_order = ap (λ es. arrived m ∷ es) later.in_order;
        all_unrelated = (skip, later.all_unrelated);
        same_id = later.same_id;
        no_error = later.no_error;
        decodes = later.decodes;
      }
  | inr mine ↦
      let pair : ◌≡◌ {A = Outcome ClientError _ × List Event} (answer decode m, events)
          (ok a, left) =
        rw (await, mine) at h in
      let sound = answer_sound decode m (ap (λ p. p.0) pair) in
      record {
        ignored = [];
        response = m;
        in_order = ap (λ es. arrived m ∷ es) (ap (λ p. p.1) pair);
        all_unrelated = tt;
        same_id = related id m mine;
        no_error = sound.0;
        decodes = sound.1;
      }
]

pair_eq : {A B : Type 0} {p : A × B} {a : A} {b : B} → p.0 ≡ a → p.1 ≡ b → ◌≡◌ {A = A × B} p (a, b)
pair_eq e f = λ i. (e i, f i)

module _ {A : Type 0} (wire : Wire) (decode : Bytes → Option A) (method params : Bytes) where
  -- A call that succeeds: it has written one request, under an id that is new, and returns the
  -- result of the response to it.
  pub record IsAnswered (link left : Link) (a : A) : Type 0 where
    pub id : Bytes
    pub fresh : wire.marshal_id (itoa (link.next_id + 1)) ≡ some id
    pub counted : left.next_id ≡ link.next_id + 1
    pub asked : left.sent ≡ link.sent ++ record { id = id; method = method; params = params } ∷ []
    pub responds : IsResponse decode id link.events left.events a

  -- A call returns a result only if it is that of a response with the id of its request, without an
  -- error; every message that came before it is a notification or has another id.
  pub call-IsAnswered :
      (link : Link) {a : A} {left : Link}
      → call wire decode method params link ≡ (ok a, left)
      → IsAnswered link left a
  unfolding call take_id receive write written encoded_id ◌>>=◌
  call-IsAnswered link {a} {left} h =
      elim (Option-cases (wire.marshal_id (itoa (link.next_id + 1)))) [
        | inl none_is ↦ cc (ap (λ p. p.0) (rw (encoded_id, none_is) at h))
        | inr (id, e) ↦
            let request : Outgoing = record { id = id; method = method; params = params } in
            elim (Bool-cases (wire.encodes request)) [
              | inr bad ↦ cc (ap (λ p. p.0) (rw (encoded_id, e, bad) at h))
              | inl good ↦ elim (Writing-cases (wire.takes link.sent request)) [
                | inr (inl fails) ↦ cc (ap (λ p. p.0) (rw (encoded_id, e, good, fails) at h))
                | inr (inr fails) ↦ cc (ap (λ p. p.0) (rw (encoded_id, e, good, fails) at h))
                | inl wrote ↦
                    let run = rw (encoded_id, e, good, wrote) at h in
                    record {
                      id = id;
                      fresh = e;
                      counted = sym (ap (λ p. p.1.next_id) run);
                      asked = sym (ap (λ p. p.1.sent) run);
                      responds =
                          await-IsResponse decode id link.events
                            (pair_eq (ap (λ p. p.0) run) (ap (λ p. p.1.events) run));
                    }
              ]
            ]
      ]

  -- A call whose context is done, or whose transport ends, at some time, returns, whatever other
  -- messages come before, provided that its write to the pipe does not block.
  pub call-returns :
      (link : Link)
      → ((m : Outgoing) → wire.takes link.sent m ≢ blocked)
      → HasEnd link.events
      → (call wire decode method params link).0 ≢ err waiting
  unfolding call take_id receive write written encoded_id ◌>>=◌
  call-returns link free ends h = elim (Option-cases (wire.marshal_id (itoa (link.next_id + 1)))) [
    | inl none_is ↦ cc (rw (encoded_id, none_is) at h)
    | inr (id, e) ↦
        let request : Outgoing = record { id = id; method = method; params = params } in
        elim (Bool-cases (wire.encodes request)) [
          | inr bad ↦ cc (rw (encoded_id, e, bad) at h)
          | inl good ↦ elim (Writing-cases (wire.takes link.sent request)) [
            | inr (inl fails) ↦ cc (rw (encoded_id, e, good, fails) at h)
            | inr (inr stuck) ↦ absurd (free request stuck)
            | inl wrote ↦
                await-returns decode id link.events ends (rw (encoded_id, e, good, wrote) at h)
          ]
        ]
  ]
