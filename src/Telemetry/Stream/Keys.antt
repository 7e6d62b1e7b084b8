-- ===== src/Telemetry/Stream/Keys.antt =====
-- The keys of streams: scopes are told apart, as long as no part has a NUL character.
use ufo_observation_command.Base.{
  String, NoNul, join_nul, join_nul-injective, ◌≡◌, sym, ◌∙◌, ok, arith, [], ◌∷◌,
}
use ufo_observation_command.Telemetry.Types.{Scope}
use ufo_observation_command.Telemetry.Stream.{stream_key}

abbrev pub ScopeNoNul : Scope → Type 0
ScopeNoNul s = NoNul s.tenant_id × NoNul s.mission_id × NoNul s.buoy_id × NoNul s.capture_id

joined :
    (s : Scope) {k : String}
    → stream_key s ≡ ok k
    → k ≡ join_nul (s.tenant_id ∷ s.mission_id ∷ s.buoy_id ∷ s.capture_id ∷ [])
unfolding stream_key
joined s h = ground arith

-- Two scopes with one key are the same scope.
pub stream_key-injective :
    (s t : Scope) (k : String)
    → ScopeNoNul s
    → ScopeNoNul t
    → stream_key s ≡ ok k
    → stream_key t ≡ ok k
    → s ≡ t
stream_key-injective s t k hs ht ks kt =
    let (a, b, c, d) =
      join_nul-injective _ _ _ _ _ _ _ _ hs.0 hs.1 hs.2 ht.0 ht.1 ht.2
        (sym (joined s ks) ∙ joined t kt) in
    λ i. record { tenant_id = a i; mission_id = b i; buoy_id = c i; capture_id = d i }
