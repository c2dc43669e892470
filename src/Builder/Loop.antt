-- ===== src/Builder/Loop.antt =====
-- The loop over the inbounds, for any builder that refuses certain inbounds for good and the others
-- for a lack of TLS at most.
use multi_proxy_panel.Prelude.{
  ◌≡◌, refl, sym, Bool, true, false, ◌&&◌, not, List, [], ◌∷◌, any, if◌then◌else◌, Bool-cases, inl,
  inr, false≢true,
}
use multi_proxy_panel.Prelude.Text.{contains}
use multi_proxy_panel.Protocol.{ProtocolType}
use multi_proxy_panel.Json.{Value}
use multi_proxy_panel.Builder.{
  InboundConfig, Built, built, refused, is_built, and_build, collect_next, collect_inbounds,
}

abbrev pub kept : Built Value → List Value → List Value
kept (built v) vs = v ∷ vs
kept (refused e m) vs = vs

-- The inbounds that can be built.
abbrev pub served : (InboundConfig → Built Value) → List InboundConfig → List Value
served build [] = []
served build (i ∷ is) = kept (build i) (served build is)

still_refused :
    (skip : Bool) (b : Built Value) (rest : Built (List Value))
    → is_built rest ≡ false
    → is_built (collect_next skip b rest) ≡ false
still_refused skip b (built vs) h = absurd (false≢true (sym h))
still_refused skip (built v) (refused e m) h = refl
still_refused skip (refused e m) (refused f n) h = elim (Bool-cases (skip && contains m "TLS")) [
  | inl t ↦ rw t refl
  | inr g ↦ rw g refl
]

pub neither : (b r : Bool) → (if b then true else r) ≡ false → (b ≡ false) × (r ≡ false)
neither true r h = absurd (false≢true (sym h))
neither false r h = (refl, h)

other : (b r : Bool) → (if b then true else r) ≡ true → b ≡ false → r ≡ true
other true r h f = absurd (false≢true (sym f))
other false r h f = h

refused_whole :
    {B : Type 0} (b : Built (List Value)) (f : List Value → B)
    → is_built b ≡ false
    → is_built (and_build b (λ vs. built (f vs))) ≡ false
refused_whole (built vs) f h = h
refused_whole (refused e m) f h = refl

module _ (build : InboundConfig → Built Value) (skippable : ProtocolType → Bool)
    (rejected : InboundConfig → Bool)
    (keeps : (i : InboundConfig) (vs : List Value)
      → rejected i ≡ false
      → collect_next (skippable i.protocol) (build i) (built vs) ≡ built (kept (build i) vs))
    (refuses : (i : InboundConfig) (rest : Built (List Value))
      → rejected i ≡ true
      → is_built (collect_next (skippable i.protocol) (build i) rest) ≡ false) where
  pub collect_inbounds-served :
      (is : List InboundConfig)
      → any rejected is ≡ false
      → collect_inbounds build skippable is ≡ built (served build is)
  unfolding collect_inbounds
  collect_inbounds-served [] h = refl
  collect_inbounds-served (i ∷ is) h =
      let (f, rest) = neither (rejected i) (any rejected is) h in
      rw (collect_inbounds-served is rest) (keeps i (served build is) f)

  pub collect_inbounds-refused :
      (is : List InboundConfig)
      → any rejected is ≡ true
      → is_built (collect_inbounds build skippable is) ≡ false
  unfolding collect_inbounds
  collect_inbounds-refused [] h = absurd (false≢true h)
  collect_inbounds-refused (i ∷ is) h = elim (Bool-cases (rejected i)) [
    | inl t ↦ refuses i _ t
    | inr f ↦
        still_refused (skippable i.protocol) (build i) _
          (collect_inbounds-refused is (other (rejected i) (any rejected is) h f))
  ]

  -- Nothing else ends the loop.
  pub collect_inbounds-is_built :
      {B : Type 0} (f : List Value → B) (is : List InboundConfig)
      → is_built (and_build (collect_inbounds build skippable is) (λ vs. built (f vs)))
        ≡ not (any rejected is)
  collect_inbounds-is_built f is = elim (Bool-cases (any rejected is)) [
    | inl t ↦ rw t (refused_whole _ f (collect_inbounds-refused is t))
    | inr g ↦ rw (g, collect_inbounds-served is g) refl
  ]
