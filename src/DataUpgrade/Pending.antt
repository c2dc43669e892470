-- ===== src/DataUpgrade/Pending.antt =====
-- Which steps are left to run: an interrupted upgrade goes on where it stopped.
use Prim.Native.Nat.{Ordering}
use multi_proxy_panel.Prelude.{
  ◌≡◌, refl, sym, ap, ◌∙◌, subst, inl, inr, Bool, true, false, List, [], ◌∷◌, ◌++◌, Option, arith,
  unwrap_or, retain, All, In, All-In, Bool-cases,
}
use multi_proxy_panel.DataUpgrade.Versions.{
  Text, parse, text_eq, compare_versions, compare_versions-reverse, compare_versions_trans,
}
use multi_proxy_panel.DataUpgrade.{UpgradeStep, legacy_baseline_version, upgrade_steps, due}

-- The steps that a start of the binary `app` still has to run over a database at `stored`.
unfoldable pub pending : Text → Text → List UpgradeStep
pending stored app = retain (due stored app) upgrade_steps

-- Each step is introduced before all later ones.
abbrev pub Ascending : List UpgradeStep → Type 0
Ascending [] = Unit
Ascending (s ∷ ss) =
    All (λ t. compare_versions s.introduced_in t.introduced_in ≡ Ordering.lt) ss × Ascending ss

pub upgrade_steps-Ascending : Ascending upgrade_steps
unfolding compare_versions parse
upgrade_steps-Ascending = ((refl, (refl, (refl, tt))), ((refl, (refl, tt)), ((refl, tt), (tt, tt))))

not_due_again :
    (app : Text) (t s : UpgradeStep)
    → compare_versions t.introduced_in s.introduced_in ≡ Ordering.lt
    → due s.introduced_in app t ≡ false
unfolding due
not_due_again app t s h = ground (arith, compare_versions-reverse t.introduced_in s.introduced_in)

not_due_itself : (app : Text) (s : UpgradeStep) → due s.introduced_in app s ≡ false
unfolding due
not_due_itself app s = ground (arith, compare_versions-reverse s.introduced_in s.introduced_in)

due_later :
    (stored app : Text) (s u : UpgradeStep)
    → due stored app s ≡ true
    → compare_versions s.introduced_in u.introduced_in ≡ Ordering.lt
    → due s.introduced_in app u ≡ due stored app u
unfolding due
due_later stored app s u d h =
    ground (arith, compare_versions_trans stored s.introduced_in u.introduced_in)

-- The steps behind `s` are due after `s` exactly when they were due before.
retain-later :
    (stored app : Text) (s : UpgradeStep) (ss : List UpgradeStep)
    → due stored app s ≡ true
    → All (λ t. compare_versions s.introduced_in t.introduced_in ≡ Ordering.lt) ss
    → retain (due s.introduced_in app) ss ≡ retain (due stored app) ss
retain-later stored app s [] d h = refl
retain-later stored app s (u ∷ ss) d h =
    rw (due_later stored app s u d h.0, retain-later stored app s ss d h.1)

In-of_retain :
    (p : UpgradeStep → Bool) (ss before after : List UpgradeStep) (s : UpgradeStep)
    → retain p ss ≡ before ++ s ∷ after
    → In s ss × (p s ≡ true)
In-of_retain p [] [] after s h = cc
In-of_retain p [] (b ∷ before) after s h = cc
In-of_retain p (t ∷ ss) [] after s h = elim (Bool-cases (p t)) [
  | inl e ↦ let same : t ≡ s = cc (rw e at h) in (inl (sym same), ap p (sym same) ∙ e)
  | inr e ↦ let (m, q) = In-of_retain p ss [] after s (rw e at h) in (inr m, q)
]
In-of_retain p (t ∷ ss) (b ∷ before) after s h = elim (Bool-cases (p t)) [
  | inl e ↦ let (m, q) = In-of_retain p ss before after s (cc (rw e at h)) in (inr m, q)
  | inr e ↦ let (m, q) = In-of_retain p ss (b ∷ before) after s (rw e at h) in (inr m, q)
]

-- After the step `s` is recorded, the steps behind it are left.
pub resume :
    (stored app : Text) (ss before after : List UpgradeStep) (s : UpgradeStep)
    → Ascending ss
    → retain (due stored app) ss ≡ before ++ s ∷ after
    → retain (due s.introduced_in app) ss ≡ after
resume stored app [] [] after s a h = cc
resume stored app [] (b ∷ before) after s a h = cc
resume stored app (t ∷ ss) [] after s a h = elim (Bool-cases (due stored app t)) [
  | inl e ↦
      let same : t ≡ s = cc (rw e at h) in
      let rest : retain (due stored app) ss ≡ after = cc (rw e at h) in
      subst (λ u. retain (due u.introduced_in app) (t ∷ ss) ≡ after) same
        (rw (not_due_itself app t, retain-later stored app t ss e a.0) rest)
  | inr e ↦
      let (m, q) = In-of_retain (due stored app) ss [] after s (rw e at h) in
      rw (not_due_again app t s (All-In _ ss a.0 m))
        (resume stored app ss [] after s a.1 (rw e at h))
]
resume stored app (t ∷ ss) (b ∷ before) after s a h = elim (Bool-cases (due stored app t)) [
  | inl e ↦
      let rest : retain (due stored app) ss ≡ before ++ s ∷ after = cc (rw e at h) in
      let (m, q) = In-of_retain (due stored app) ss before after s rest in
      rw (not_due_again app t s (All-In _ ss a.0 m)) (resume stored app ss before after s a.1 rest)
  | inr e ↦
      let rest : retain (due stored app) ss ≡ b ∷ before ++ s ∷ after = rw e at h in
      let (m, q) = In-of_retain (due stored app) ss (b ∷ before) after s rest in
      rw (not_due_again app t s (All-In _ ss a.0 m))
        (resume stored app ss (b ∷ before) after s a.1 rest)
]

pub not_due_at_home : (app : Text) (s : UpgradeStep) → due app app s ≡ false
unfolding due
not_due_at_home app s = ground (arith, compare_versions-reverse app s.introduced_in)

pub retain-home : (app : Text) (ss : List UpgradeStep) → retain (due app app) ss ≡ []
retain-home app [] = refl
retain-home app (s ∷ ss) = rw (not_due_at_home app s) (retain-home app ss)

pub text_eq-eq : (s t : Text) → text_eq s t ≡ true → s ≡ t
text_eq-eq [] [] h = refl
text_eq-eq [] (b ∷ t) h = cc
text_eq-eq (a ∷ s) [] h = cc
text_eq-eq (a ∷ s) (b ∷ t) h = ground (arith, text_eq-eq s t)

abbrev pub recorded_or_legacy : Option Text → Text
recorded_or_legacy v = unwrap_or v legacy_baseline_version
