-- ===== src/Agent/Profiles/Choice.antt =====
-- Which profile a request gets.
use go_core_mcp.Prelude.{
  ℕ, ◌≤◌, ◌<◌, ◌≡◌, ◌⊎◌, refl, Bool, true, false, ◌&&◌, and-true, leb→le, inl, inr, List, [], ◌∷◌,
  ◌++◌, Bytes, mem, bytes_eq, arith, ltb, leb, ◌==◌, if◌then◌else◌, length, All, Bool-cases,
}
use go_core_mcp.Agent.Profiles.{
  Profile, Candidate, max_exposed_tools, fallback_profile, profiles, score, best_from, no_profile,
  chosen, select_profile, lits,
}
use go_core_mcp.Agent.Policy.{allowed_core_tools, allowed_web_tools}

-- What the candidates and the fallback share: few tools, each of them allowed.
abbrev pub IsAllowedTool : Bytes → Type 0
IsAllowedTool t = mem t (allowed_core_tools ++ allowed_web_tools) ≡ true

pub record IsBounded (p : Profile) : Type 0 where
  pub few : length p.tools ≤ max_exposed_tools
  pub allowed : All IsAllowedTool p.tools

pick-keeps : (P : Profile → Type 0) (b : Bool) (p q : Profile) → P p → P q → P (if b then p else q)
pick-keeps P true p q hp hq = hp
pick-keeps P false p q hp hq = hq

-- What holds of the start and of every candidate holds of the best one.
best_from-keeps :
    (P : Profile → Type 0) (text : Bytes) (best : Profile) (n : ℕ) (cs : List Candidate)
    → P best
    → All (λ c. P c.profile) cs
    → P (best_from text best n cs).0
unfolding best_from
best_from-keeps P text best n [] h hs = h
best_from-keeps P text best n (c ∷ cs) h hs =
    best_from-keeps P text (if ltb n (score text c.keywords) then c.profile else best)
      (if ltb n (score text c.keywords) then score text c.keywords else n) cs
      (pick-keeps P (ltb n (score text c.keywords)) c.profile best hs.0 h) hs.1

-- All tools of a list are allowed, as a test.
all_allowed : List Bytes → Bool
all_allowed [] = true
all_allowed (t ∷ ts) = mem t (allowed_core_tools ++ allowed_web_tools) && all_allowed ts

is_bounded : Profile → Bool
unfolding all_allowed
is_bounded p = leb (length p.tools) max_exposed_tools && all_allowed p.tools

all_bounded : List Candidate → Bool
unfolding is_bounded
all_bounded [] = true
all_bounded (c ∷ cs) = is_bounded c.profile && all_bounded cs

all_allowed_sound : (ts : List Bytes) → all_allowed ts ≡ true → All IsAllowedTool ts
unfolding all_allowed
all_allowed_sound [] h = tt
all_allowed_sound (t ∷ ts) h =
    let (first, rest) =
      and-true (mem t (allowed_core_tools ++ allowed_web_tools)) (all_allowed ts) h in
    (first, all_allowed_sound ts rest)

is_bounded_sound : (p : Profile) → is_bounded p ≡ true → IsBounded p
unfolding is_bounded
is_bounded_sound p h =
    let (few, allowed) =
      and-true (leb (length p.tools) max_exposed_tools) (all_allowed p.tools) h in
    record { few = leb→le _ _ few; allowed = all_allowed_sound p.tools allowed }

all_bounded_sound :
    (cs : List Candidate) → all_bounded cs ≡ true → All (λ c. IsBounded c.profile) cs
unfolding all_bounded
all_bounded_sound [] h = tt
all_bounded_sound (c ∷ cs) h =
    let (first, rest) = and-true (is_bounded c.profile) (all_bounded cs) h in
    (is_bounded_sound c.profile first, all_bounded_sound cs rest)

profiles_table : all_bounded profiles ≡ true
unfolding all_bounded profiles mem bytes_eq allowed_core_tools allowed_web_tools lits
profiles_table = refl

fallback_table : is_bounded fallback_profile ≡ true
unfolding is_bounded fallback_profile mem bytes_eq allowed_core_tools allowed_web_tools lits
fallback_table = refl

chosen-IsBounded : (p : Profile) (n : ℕ) → IsBounded p → IsBounded (chosen (p, n))
unfolding chosen
chosen-IsBounded p n h = elim (Bool-cases (n == 0)) [
  | inl e ↦ rw (e, chosen) (is_bounded_sound fallback_profile fallback_table)
  | inr e ↦
      let small : ltb max_exposed_tools (length p.tools) ≡ false = ground arith in
      rw (e, chosen) (rw small h)
]

-- Whatever the request, its profile has at most six tools, and each is on an allowlist.
pub select_profile-IsBounded :
    (to_lower : Bytes → Bytes) (request : Bytes) → IsBounded (select_profile to_lower request)
unfolding select_profile
select_profile-IsBounded to_lower request =
    let found = best_from (to_lower request) no_profile 0 profiles in
    let best : IsBounded found.0 =
      best_from-keeps IsBounded (to_lower request) no_profile 0 profiles
        (record { few = omega arith; allowed = tt }) (all_bounded_sound profiles profiles_table) in
    chosen-IsBounded found.0 found.1 best

-- One of the candidates.
abbrev pub HasCandidate : Candidate → List Candidate → Type 0
HasCandidate c [] = ⊥
HasCandidate c (d ∷ ds) = (c ≡ d) ⊎ HasCandidate c ds

-- The winner of a round: its score is the greatest seen, and it is the start or one of the candidates.
pub record IsWinner (text : Bytes) (best : Profile) (n : ℕ) (cs : List Candidate) (r : Profile × ℕ)
    : Type 0 where
  pub from_start : n ≤ r.1
  pub highest : All (λ c. score text c.keywords ≤ r.1) cs
  pub origin :
      ((r.0 ≡ best) × (r.1 ≡ n))
      ⊎ ((c : Candidate) × HasCandidate c cs × (r.0 ≡ c.profile) × (r.1 ≡ score text c.keywords))

-- No keyword of any candidate occurs in the request.
abbrev pub NothingMatches : Bytes → Type 0
NothingMatches text = All (λ c. score text c.keywords ≡ 0) profiles

-- A candidate whose score is positive and not below that of any other.
pub record IsBest (text : Bytes) (c : Candidate) : Type 0 where
  pub listed : HasCandidate c profiles
  pub matched : 0 < score text c.keywords
  pub highest : All (λ d. score text d.keywords ≤ score text c.keywords) profiles
