-- ===== src/DataUpgrade/Steps.antt =====
-- What the loop over the steps leaves: which steps have run, and what is recorded.
use multi_proxy_panel.Prelude.{
  suc, ◌≡◌, refl, sym, ap, ◌∙◌, subst, ◌⊎◌, inl, inr, List, [], ◌∷◌, ◌++◌, Option, some, retain,
  Bool-cases,
}
use multi_proxy_panel.Db.{PanelError, database, Result, ok, err, Conn, Sql, ◌>>=◌, ◌>>◌, statement}
use multi_proxy_panel.Db.Post.{bind-post, statement-post, read-post}
use multi_proxy_panel.DataUpgrade.Versions.{Text}
use multi_proxy_panel.DataUpgrade.{
  Meta, StepFn, UpgradeStep, due, get_system_version, set_system_version, on_rows, run_steps,
}

module _ {W : Type 0} where
  -- Where it returns the version is recorded, where it fails nothing is.
  pub set_system_version-post :
      (Q : Result (Unit {0}) × Conn (Meta W) → Type 0) (v : Text) (c : Conn (Meta W))
      → ((e : PanelError) (d : Conn (Meta W)) → d.tables ≡ c.tables → Q (err e, d))
      → ((u : Unit {0}) (d : Conn (Meta W))
          → d.tables ≡ record c.tables { version = some v }
          → Q (ok u, d))
      → Q (set_system_version v c)
  unfolding set_system_version get_system_version
  set_system_version-post Q v c failed returned =
      read-post Q (λ (m : Meta W). m.version)
        (λ x. statement λ m. (ok tt, record m { version = some v })) c failed
        (λ d same.
          statement-post Q (λ (m : Meta W). (ok tt, record m { version = some v })) d
            (failed database (record d { asked = suc d.asked }) same)
            (λ go.
              returned tt
                (record d { tables = record d.tables { version = some v }; asked = suc d.asked })
                (ap (λ (m : Meta W). record m { version = some v }) same)))

  abbrev Outcome : Text → Conn (Meta W) → Result (Unit {0}) × Conn (Meta W) → Type 0
  Outcome v c (ok u, d) = d.tables ≡ record c.tables { version = some v }
  Outcome v c (err e, d) = d.tables ≡ c.tables

  set_system_version-Outcome : (v : Text) (c : Conn (Meta W)) → Outcome v c (set_system_version v c)
  set_system_version-Outcome v c =
      set_system_version-post (λ x. Outcome v c x) v c (λ e d h. h) (λ u d h. h)

abbrev pub version_after : Option Text → List UpgradeStep → Option Text
version_after v [] = v
version_after v (s ∷ ss) = version_after (some s.introduced_in) ss

pub last_step :
    (v : Option Text) (t : UpgradeStep) (ss : List UpgradeStep)
    → (before : List UpgradeStep) × (s : UpgradeStep) × (t ∷ ss ≡ before ++ s ∷ [])
      × (version_after v (t ∷ ss) ≡ some s.introduced_in)
last_step v t [] = ([], t, refl, refl)
last_step v t (s ∷ ss) =
    let (before, last, e, w) = last_step (some t.introduced_in) s ss in
    (t ∷ before, last, ap (λ l. t ∷ l) e, w)

module _ {W : Type 0} (run : StepFn → Sql W (Unit {0})) where
  -- Nothing more has run, or the next step has, with or without success.
  abbrev pub Begun : List UpgradeStep → W → W → Type 0
  Begun [] r new = new ≡ r
  Begun (s ∷ ss) r new =
      (new ≡ r) ⊎ ((d : Conn W) × (d.tables ≡ r) × (new ≡ (run s.run d).1.tables))

  pub begun_none : (r : W) (ss : List UpgradeStep) → Begun ss r r
  begun_none r [] = refl
  begun_none r (s ∷ ss) = inl refl

  -- The steps before have run one after the other, each with success, and then at most one more.
  abbrev pub HaveRun : List UpgradeStep → List UpgradeStep → W → W → Type 0
  HaveRun [] after r new = Begun after r new
  HaveRun (s ∷ ss) after r new =
      (d : Conn W) × (e : Conn W) × (d.tables ≡ r)
      × (run s.run d ≡ (ok tt, e))
      × HaveRun ss after e.tables new

  abbrev pub Finished : Result (Unit {0}) → List UpgradeStep → Type 0
  Finished (ok u) after = after ≡ []
  Finished (err e) after = Unit

  abbrev pub Recorded : List UpgradeStep → Meta W → Result (Unit {0}) × Conn (Meta W) → Type 0
  Recorded ss old x =
      (before : List UpgradeStep) × (after : List UpgradeStep) × (ss ≡ before ++ after)
      × (x.1.tables.version ≡ version_after old.version before)
      × HaveRun before after old.rows x.1.tables.rows
      × Finished x.0 after

  abbrev inside : Conn (Meta W) → Conn W
  inside c = record { tables = c.tables.rows; asked = c.asked; env = c.env }

  module _ (s : UpgradeStep) (c : Conn (Meta W)) where
    rows-on_rows : (on_rows (run s.run) c).1.tables.rows ≡ (run s.run (inside c)).1.tables
    unfolding on_rows
    rows-on_rows = refl

    result-on_rows : (on_rows (run s.run) c).0 ≡ (run s.run (inside c)).0
    unfolding on_rows
    result-on_rows = refl

    version-on_rows : (on_rows (run s.run) c).1.tables.version ≡ c.tables.version
    unfolding on_rows
    version-on_rows = refl

    -- The step has run, and its version is not recorded.
    begun :
        (ss : List UpgradeStep) (e : PanelError) (x : Conn (Meta W))
        → x.tables ≡ (on_rows (run s.run) c).1.tables
        → Recorded (s ∷ ss) c.tables (err e, x)
    begun ss e x h = (
      [],
      s ∷ ss,
      refl,
      ap (λ (m : Meta W). m.version) h ∙ version-on_rows,
      inr (inside c, refl, ap (λ (m : Meta W). m.rows) h ∙ rows-on_rows),
      tt,
    )

    recorded :
        (ss : List UpgradeStep) (d : Conn (Meta W)) (x : Result (Unit {0}) × Conn (Meta W))
        → on_rows (run s.run) c ≡ (ok tt, d)
        → Recorded ss (record d.tables { version = some s.introduced_in }) x
        → Recorded (s ∷ ss) c.tables x
    recorded ss d x h (before, after, e, v, ran, f) =
        let rows : d.tables.rows ≡ (run s.run (inside c)).1.tables =
          sym (ap (λ y. y.1.tables.rows) h) ∙ rows-on_rows in
        (
          s ∷ before,
          after,
          ap (λ l. s ∷ l) e,
          v,
          (
            inside c,
            (run s.run (inside c)).1,
            refl,
            ap (λ r. (r, (run s.run (inside c)).1)) (sym result-on_rows ∙ ap (λ y. y.0) h),
            subst (λ r. HaveRun before after r x.1.tables.rows) rows ran,
          ),
          f,
        )

  pub run_steps-Recorded :
      (stored app : Text) (ss : List UpgradeStep) (c : Conn (Meta W))
      → Recorded (retain (due stored app) ss) c.tables (run_steps run stored app ss c)
  unfolding run_steps
  run_steps-Recorded stored app [] c = unfold ◌>>=◌ in ([], [], refl, refl, refl, refl)
  run_steps-Recorded stored app (s ∷ ss) c = elim (Bool-cases (due stored app s)) [
    | inr e ↦ rw e (run_steps-Recorded stored app ss c)
    | inl e ↦ rw e (
        bind-post Kept (on_rows (run s.run))
          (λ u. set_system_version s.introduced_in >> run_steps run stored app ss) c
          (λ p d h. begun s c (retain (due stored app) ss) p d (sym (ap (λ y. y.1.tables) h)))
          (λ u d h.
            bind-post Kept (set_system_version s.introduced_in) (λ u. run_steps run stored app ss) d
              (λ p x k.
                begun s c (retain (due stored app) ss) p x
                  (outcome d _ k ∙ sym (ap (λ y. y.1.tables) h)))
              (λ u x k.
                recorded s c (retain (due stored app) ss) d (run_steps run stored app ss x) h (
                  subst
                    (λ m. Recorded (retain (due stored app) ss) m (run_steps run stored app ss x))
                    (outcome d _ k) (run_steps-Recorded stored app ss x)))))
  ]
    where
      Kept : Result (Unit {0}) × Conn (Meta W) → Type 0
      Kept x = Recorded (s ∷ retain (due stored app) ss) c.tables x

      outcome :
          (d : Conn (Meta W)) (y : Result (Unit {0}) × Conn (Meta W))
          → set_system_version s.introduced_in d ≡ y
          → Outcome s.introduced_in d y
      outcome d y k =
          subst (λ y. Outcome s.introduced_in d y) k (set_system_version-Outcome s.introduced_in d)
