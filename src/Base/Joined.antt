-- ===== src/Base/Joined.antt =====
-- Texts joined by NUL characters can be taken apart again, where the parts have none.
use Prim.Native.Char.{Char, code}
use Prim.Native.String.{String, ◌++◌ as ◌⧺◌}
use mathlib.Core.Path.{◌≡◌, refl, sym, ap, ◌∙◌}
use mathlib.Core.Logic.{◌≢◌}
use mathlib.Core.List.{[], ◌∷◌}
use text.Mathlib.TextLemmas.{
  nil-append, cons-append, head-eq_of_cons-eq, tail-eq_of_cons-eq, append_cancel_left,
}
use ufo_observation_command.Base.Text.{nul, join_nul}

abbrev pub NoNul : String → Type 0
NoNul String.[] = Unit
NoNul (String.◌∷◌ c s) = (code c ≢ 0) × NoNul s

zero_head : (t : String) → (c : Char) × (code c ≡ 0) × (nul ⧺ t ≡ String.◌∷◌ c t)
unfolding nul
zero_head t = ("\0", refl, cons-append "\0" "" t ∙ ap (String.◌∷◌ "\0") (nil-append t))

pub nul_split :
    (s s' t t' : String)
    → NoNul s
    → NoNul s'
    → s ⧺ (nul ⧺ t) ≡ s' ⧺ (nul ⧺ t')
    → (s ≡ s') × (t ≡ t')
nul_split String.[] String.[] t t' h h' e =
    (refl, append_cancel_left nul t t' (sym (nil-append (nul ⧺ t)) ∙ e ∙ nil-append (nul ⧺ t')))
nul_split String.[] (String.◌∷◌ c s') t t' h h' e =
    let (z, code_z, p) = zero_head t in
    absurd (
      h'.0 (
        ap code (
          sym (
            head-eq_of_cons-eq
              (sym p ∙ sym (nil-append (nul ⧺ t)) ∙ e ∙ cons-append c s' (nul ⧺ t'))))
        ∙ code_z))
nul_split (String.◌∷◌ c s) String.[] t t' h h' e =
    let (z, code_z, p) = zero_head t' in
    absurd (
      h.0 (
        ap code
          (head-eq_of_cons-eq (sym (cons-append c s (nul ⧺ t)) ∙ e ∙ nil-append (nul ⧺ t') ∙ p))
        ∙ code_z))
nul_split (String.◌∷◌ c s) (String.◌∷◌ c' s') t t' h h' e =
    let q : String.◌∷◌ c (s ⧺ (nul ⧺ t)) ≡ String.◌∷◌ c' (s' ⧺ (nul ⧺ t')) =
      sym (cons-append c s (nul ⧺ t)) ∙ e ∙ cons-append c' s' (nul ⧺ t') in
    let (ss, ts) = nul_split s s' t t' h.1 h'.1 (tail-eq_of_cons-eq q) in
    (λ i. String.◌∷◌ (head-eq_of_cons-eq q i) (ss i), ts)

-- Four parts, as the keys of the sources have.
pub join_nul-injective :
    (a b c d a' b' c' d' : String)
    → NoNul a
    → NoNul b
    → NoNul c
    → NoNul a'
    → NoNul b'
    → NoNul c'
    → join_nul (a ∷ b ∷ c ∷ d ∷ []) ≡ join_nul (a' ∷ b' ∷ c' ∷ d' ∷ [])
    → (a ≡ a') × (b ≡ b') × (c ≡ c') × (d ≡ d')
unfolding join_nul
join_nul-injective a b c d a' b' c' d' ha hb hc ha' hb' hc' e =
    let (pa, e1) = nul_split a a' _ _ ha ha' e in
    let (pb, e2) = nul_split b b' _ _ hb hb' e1 in
    let (pc, pd) = nul_split c c' _ _ hc hc' e2 in (pa, pb, pc, pd)
