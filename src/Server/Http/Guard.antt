-- ===== src/Server/Http/Guard.antt =====
-- Which requests reach the server behind the HTTP transport.
use go_core_mcp.Prelude.{
  ltb-false, bytes_eq_refl, ℕ, suc, ◌≤◌, ◌≡◌, ◌≢◌, ◌⊎◌, refl, sym, ◌∙◌, ap, inl, inr, true, false,
  not, not-false, or-false, ◌||◌, Option, none, some, [], ◌∷◌, ◌++◌, Bytes, lit, bytes_eq,
  bytes_eq_iff, ltb, leb, leb-false, arith, length, take, drop, take-append-drop, length-take,
  Bool-cases,
}
use go_core_mcp.Outcome.{Outcome, ok}
use go_core_mcp.Strings.{trim_space, has_prefix}
use go_core_mcp.Schema.{SchemaError}
use go_core_mcp.Server.Calls.{Env}
use go_core_mcp.Server.Dispatch.{State}
use go_core_mcp.Server.Http.{
  HttpOptions, HttpRequest, Answer, refused, equal_fold, authorized, handle_http, handle_http_post,
  max_http_request_bytes, answer_body, answer_trimmed, answer_message, is_json,
}

-- The header's scheme is Bearer, in any case, and what follows is the token.
pub record Bears (header token : Bytes) : Type 0 where
  pub scheme : Bytes
  pub parts : scheme ++ token ≡ header
  pub seven : length scheme ≡ 7
  pub bearer : equal_fold scheme (lit "Bearer ") ≡ true

seven_of : (header : Bytes) → leb (length header) 7 ≡ false → length (take 7 header) ≡ 7
seven_of header h = omega (arith, length-take 7 header, leb-false (length header) 7 h)

authorized_sound :
    (header token : Bytes) → authorized header token ≡ true → (token ≡ []) ⊎ Bears header token
unfolding authorized
authorized_sound header [] h = inl refl
authorized_sound header (c ∷ token) h =
    elim (Bool-cases (leb (length header) 7 || not (equal_fold (take 7 header) (lit "Bearer ")))) [
      | inl bad ↦ cc (rw (authorized, bad) at h)
      | inr good ↦
          let (long, scheme) = or-false (leb (length header) 7) _ good in
          inr (record {
            scheme = take 7 header;
            parts =
                ap (λ t. take 7 header ++ t)
                  (sym ((bytes_eq_iff (drop 7 header) (c ∷ token)).0 (rw (authorized, good) at h)))
                ∙ take-append-drop 7 header;
            seven = seven_of header long;
            bearer = not-false _ scheme;
          })
    ]

take-all : (n : ℕ) (s : Bytes) → length s ≤ n → take n s ≡ s
take-all ℕ.zero [] h = refl
take-all (suc n) [] h = refl
take-all (suc n) (c ∷ s) h = ap (λ t. c ∷ t) (take-all n s (omega (arith, h)))
take-all ℕ.zero (c ∷ s) h = absurd (omega (arith, h))

within :
    (content : Bytes)
    → ltb max_http_request_bytes (length (take (suc max_http_request_bytes) content)) ≡ false
    → length content ≤ max_http_request_bytes
within content h = omega (arith, length-take (suc max_http_request_bytes) content, ltb-false _ _ h)

json_sound :
    {World : Type 0} (env : Env World) (media_type : Bytes → Option Bytes) (t : Option Bytes)
    → is_json env media_type t ≡ true
    → t ≡ some (lit "application/json")
unfolding is_json
json_sound env media_type none h = cc
json_sound env media_type (some t) h = ap some ((bytes_eq_iff t (lit "application/json")).0 h)

not_nil : (t : Bytes) → t ≡ [] → bytes_eq t [] ≡ false → ⊥
not_nil t e h = cc (bytes_eq_refl [], ap (λ u. bytes_eq u []) e, h)

module _ {World : Type 0} (env : Env World) (media_type : Bytes → Option Bytes)
    (options : HttpOptions) (r : HttpRequest) (s : State World) where
  -- A request that is served: what holds of it, and what is done with it.
  pub record IsServed (out : Outcome SchemaError (Answer × State World)) : Type 0 where
    pub may : (options.bearer_token ≡ []) ⊎ Bears r.authorization options.bearer_token
    pub posted : r.method ≡ lit "POST"
    pub typed : media_type r.content_type ≡ some (lit "application/json")
    pub content : Bytes
    pub read : r.body ≡ some content
    pub fits : length content ≤ max_http_request_bytes
    pub not_empty : trim_space content ≢ []
    pub not_batch : has_prefix (trim_space content) (lit "[") ≡ false
    pub does : out ≡ answer_message env media_type (env.decode_request (trim_space content)) s

  -- A refusal changes nothing.
  pub record IsTurnedAway (out : Outcome SchemaError (Answer × State World)) : Type 0 where
    pub status : ℕ
    pub text : Bytes
    pub says : out ≡ ok (refused status text, s)
    pub is_error : 400 ≤ status

  turned_away :
      (status : ℕ) (text : Bytes) → 400 ≤ status → IsTurnedAway (ok (refused status text, s))
  turned_away status text h = record { status = status; text = text; says = refl; is_error = h }

  trimmed_cases :
      (content : Bytes)
      → (options.bearer_token ≡ []) ⊎ Bears r.authorization options.bearer_token
      → r.method ≡ lit "POST"
      → media_type r.content_type ≡ some (lit "application/json")
      → r.body ≡ some content
      → length content ≤ max_http_request_bytes
      → IsTurnedAway (answer_trimmed env media_type (trim_space content) s)
        ⊎ IsServed (answer_trimmed env media_type (trim_space content) s)
  unfolding answer_trimmed
  trimmed_cases content may posted typed read fits =
      elim (Bool-cases (bytes_eq (trim_space content) [])) [
        | inl e ↦ rw e (inl (turned_away 400 _ (omega arith)))
        | inr full ↦ elim (Bool-cases (has_prefix (trim_space content) (lit "["))) [
          | inl e ↦ rw (full, e) (inl (turned_away 400 _ (omega arith)))
          | inr single ↦
              rw (full, single)
                (inr (record {
                  may = may;
                  posted = posted;
                  typed = typed;
                  content = content;
                  read = read;
                  fits = fits;
                  not_empty = λ e. not_nil (trim_space content) e full;
                  not_batch = single;
                  does = refl;
                }))
        ]
      ]

  body_cases :
      (body : Option Bytes)
      → r.body ≡ body
      → (options.bearer_token ≡ []) ⊎ Bears r.authorization options.bearer_token
      → r.method ≡ lit "POST"
      → media_type r.content_type ≡ some (lit "application/json")
      → IsTurnedAway (answer_body env media_type body s)
        ⊎ IsServed (answer_body env media_type body s)
  unfolding answer_body
  body_cases none has may posted typed = inl (turned_away 400 _ (omega arith))
  body_cases (some content) has may posted typed =
      elim (Bool-cases
        (ltb max_http_request_bytes (length (take (suc max_http_request_bytes) content)))) [
          | inl e ↦ rw e (inl (turned_away 413 _ (omega arith)))
          | inr small ↦
              let fits = within content small in
              rw (small, take-all (suc max_http_request_bytes) content (omega (arith, fits)))
                (trimmed_cases content may posted typed has fits)
        ]

  -- A request is turned away with a status of 400 or more, and the server is left as it was; or it
  -- has the bearer token, if there is one, is a POST of at most a mebibyte of JSON that is not a
  -- batch, and what is done is what the server does with the one message in it.
  pub handle_http-cases :
      IsTurnedAway (handle_http env media_type options r s)
      ⊎ IsServed (handle_http env media_type options r s)
  unfolding handle_http handle_http_post
  handle_http-cases = elim (Bool-cases (authorized r.authorization options.bearer_token)) [
    | inr e ↦ rw e (inl (turned_away 401 _ (omega arith)))
    | inl allowed ↦ elim (Bool-cases (bytes_eq r.method (lit "POST"))) [
      | inr e ↦ rw (allowed, e) (inl (turned_away 405 _ (omega arith)))
      | inl post ↦ elim (Bool-cases (is_json env media_type (media_type r.content_type))) [
        | inr e ↦ rw (allowed, post, e) (inl (turned_away 415 _ (omega arith)))
        | inl json ↦
            rw (allowed, post, json)
              (body_cases r.body refl (authorized_sound _ _ allowed)
                ((bytes_eq_iff r.method (lit "POST")).0 post) (json_sound env media_type _ json))
      ]
    ]
  ]
