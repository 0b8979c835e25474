-- ===== src/Parser/FirstMatch.antt =====
-- Which matcher of pkg/parser/errorid names a finding.
use cifuzz.Base.{
  ◌≡◌, refl, ap, Bool, true, false, List, [], ◌∷◌, ◌++◌, All, ◌⊎◌, inl, inr, if◌then◌else◌,
}
use cifuzz.Text.{Bytes}
use cifuzz.Parser.ErrorId.{
  Matcher, matches, first_match, for_finding, specific_matchers, global_matchers,
}

abbrev pub all_matchers : List Matcher
all_matchers = specific_matchers ++ global_matchers

-- A matcher of the list that matches, and none before it does.
pub record IsFirst (matchers : List Matcher) (details : Bytes) (id : Bytes) : Type 0 where
  pub before : List Matcher
  pub matcher : Matcher
  pub behind : List Matcher
  pub splits : matchers ≡ before ++ (matcher ∷ behind)
  pub misses : All (λ m. matches m details ≡ false) before
  pub hits : matches matcher details ≡ true
  pub names : id ≡ matcher.id

later :
    (m : Matcher) (matchers : List Matcher) (details id : Bytes)
    → matches m details ≡ false
    → IsFirst matchers details id
    → IsFirst (m ∷ matchers) details id
later m matchers details id e h = record {
  before = m ∷ h.before;
  matcher = h.matcher;
  behind = h.behind;
  splits = ap (λ l. m ∷ l) h.splits;
  misses = (e, h.misses);
  hits = h.hits;
  names = h.names;
}

-- What the search for an id gives
IsAnswer : List Matcher → Bytes → Bytes → Type 0
IsAnswer matchers details id =
    (All (λ m. matches m details ≡ false) matchers × (id ≡ [])) ⊎ IsFirst matchers details id

IsAnswer-cons :
    (m : Matcher) (matchers : List Matcher) (details id : Bytes) (b : Bool)
    → matches m details ≡ b
    → IsAnswer matchers details id
    → IsAnswer (m ∷ matchers) details (if b then m.id else id)
unfolding IsAnswer
IsAnswer-cons m matchers details id true e h = inr (record {
  before = [];
  matcher = m;
  behind = matchers;
  splits = refl;
  misses = tt;
  hits = e;
  names = refl;
})
IsAnswer-cons m matchers details id false e (inl h) = inl ((e, h.0), h.1)
IsAnswer-cons m matchers details id false e (inr h) = inr (later m matchers details id e h)

first_match_lem :
    (matchers : List Matcher) (details : Bytes)
    → IsAnswer matchers details (first_match matchers details)
unfolding first_match IsAnswer
first_match_lem [] details = inl (tt, refl)
first_match_lem (m ∷ matchers) details =
    IsAnswer-cons m matchers details (first_match matchers details) _ refl
      (first_match_lem matchers details)

-- `ForFinding` gives the id of a matcher that matches the details and that no matching one stands
-- before, and "" when none matches.
pub for_finding_lem :
    (details : Bytes)
    → (All (λ m. matches m details ≡ false) all_matchers × (for_finding details ≡ []))
      ⊎ IsFirst all_matchers details (for_finding details)
unfolding for_finding IsAnswer
for_finding_lem details = first_match_lem all_matchers details
