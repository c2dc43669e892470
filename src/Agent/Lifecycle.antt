-- ===== src/Agent/Lifecycle.antt =====
-- The processes that an earlier Agent left: `reap_stale` of crates/pp-core/src/lifecycle.rs. The
-- JSON of a PID file and `canonicalize` are arguments. A step may fail, and then changes nothing.
use multi_proxy_panel.Prelude.{
  ℕ, suc, ◌≡◌, sym, ap, ◌∙◌, String, str_eq, Bool, true, false, not, List, Option, none, some, find,
  retain, In, In-retain, ◌==◌, ==_iff, if◌then◌else◌, inl, inr, Bool-cases, false≢true, unwrap_or,
}
use multi_proxy_panel.Db.{io, Result, ok, err, Conn, Sql, pure, gets, attempt, done, ◌>>=◌, ◌>>◌}

pub record Process : Type 0 where
  pub pid : ℕ
  pub exe : String

pub record PidFile : Type 0 where
  pub pid : ℕ
  pub exe : String

pub record Os : Type 0 where
  pub pid_file : Option String
  pub processes : List Process

unfoldable pub os_step : (Os → Os) → Sql Os (Unit {0})
os_step f c =
    if c.env.fails c.asked
    then (err io, record c { asked = suc c.asked })
    else (ok tt, record c { tables = f c.tables; asked = suc c.asked })

abbrev tried : (Os → Os) → Sql Os (Unit {0})
tried f = attempt (os_step f) >> done

abbrev no_pid_file : Os → Os
no_pid_file o = record o { pid_file = none }

abbrev pub kill : ℕ → Os → Os
kill pid o = record o { processes = retain (λ p. not (p.pid == pid)) o.processes }

abbrev pub with_pid : ℕ → Os → Option Process
with_pid pid o = find (λ p. p.pid == pid) o.processes

module _ (decode : String → Option PidFile) (canonicalize : String → Option String) where
  abbrev pub canonical : String → String
  canonical path = unwrap_or (canonicalize path) path

  -- The path of the process's program is found and is that of the binary.
  unfoldable pub exe_matches : Option Process → String → Bool
  exe_matches none binary = false
  exe_matches (some p) binary = str_eq (canonical p.exe) (canonical binary)

  unfoldable pub reap_record : String → Option PidFile → Sql Os (Unit {0})
  unfolding exe_matches
  reap_record binary none = tried no_pid_file
  reap_record binary (some r) = do
    p ← gets (with_pid r.pid)
    (if exe_matches p binary then tried (kill r.pid) else done)
    tried no_pid_file

  abbrev content_of : Option String → Result (Unit {0}) → Option String
  content_of raw (ok u) = raw
  content_of raw (err e) = none

  unfoldable pub reap_content : String → Option String → Sql Os (Unit {0})
  unfolding reap_record
  reap_content binary none = done
  reap_content binary (some content) = reap_record binary (decode content)

  unfoldable pub reap_stale : String → Sql Os (Unit {0})
  unfolding reap_content
  reap_stale binary = do
    read ← attempt (os_step (λ o. o))
    raw ← gets (λ o. o.pid_file)
    reap_content binary (content_of raw read)

-- The process is still there.
abbrev IsThere : Process → Conn Os → Type 0
IsThere p c = In p c.tables.processes

module _ (decode : String → Option PidFile) (canonicalize : String → Option String)
    (binary : String) (p : Process)
    (stranger : str_eq (canonical decode canonicalize p.exe) (canonical decode canonicalize binary)
      ≡ false) where
  spared_by_try :
      (f : Os → Os) (c : Conn Os)
      → ((o : Os) → In p o.processes → In p (f o).processes)
      → IsThere p c
      → IsThere p (tried f c).1
  unfolding os_step ◌>>=◌
  spared_by_try f c keeps h = elim (Bool-cases (c.env.fails c.asked)) [
    | inl bad ↦ rw bad h
    | inr good ↦ rw good (keeps c.tables h)
  ]

  spared_by_kill :
      (n : ℕ) (c : Conn Os)
      → with_pid p.pid c.tables ≡ some p
      → exe_matches decode canonicalize (with_pid n c.tables) binary ≡ true
      → IsThere p c
      → IsThere p (tried (kill n) c).1
  unfolding exe_matches os_step ◌>>=◌
  spared_by_kill n c own matches h = elim (Bool-cases (p.pid == n)) [
    | inl e ↦ absurd (
        false≢true (
          sym stranger
          ∙ sym (ap (λ o. exe_matches decode canonicalize o binary) own)
          ∙ ap (λ k. exe_matches decode canonicalize (with_pid k c.tables) binary)
              ((==_iff p.pid n).0 e)
          ∙ matches))
    | inr d ↦
        spared_by_try (kill n) c (λ o m. In-retain (λ q. not (q.pid == n)) o.processes m (ap not d))
          h
  ]

  spared_by_record :
      (o : Option PidFile) (c : Conn Os)
      → with_pid p.pid c.tables ≡ some p
      → IsThere p c
      → IsThere p (reap_record decode canonicalize binary o c).1
  unfolding reap_record ◌>>=◌
  spared_by_record none c own h = spared_by_try no_pid_file c (λ o m. m) h
  spared_by_record (some r) c own h =
      elim (Bool-cases (exe_matches decode canonicalize (with_pid r.pid c.tables) binary)) [
        | inl t ↦ rw t (spared_by_try no_pid_file _ (λ o m. m) (spared_by_kill r.pid c own t h))
        | inr f ↦ rw f (spared_by_try no_pid_file c (λ o m. m) h)
      ]

  spared_by_content :
      (o : Option String) (c : Conn Os)
      → with_pid p.pid c.tables ≡ some p
      → IsThere p c
      → IsThere p (reap_content decode canonicalize binary o c).1
  unfolding reap_content pure
  spared_by_content none c own h = h
  spared_by_content (some raw) c own h = spared_by_record (decode raw) c own h

  -- A process whose program is not the managed binary outlives the reaping, whatever the PID file
  -- says and whatever fails.
  pub reap_stale-spares :
      (c : Conn Os)
      → with_pid p.pid c.tables ≡ some p
      → In p c.tables.processes
      → In p (reap_stale decode canonicalize binary c).1.tables.processes
  unfolding reap_stale os_step ◌>>=◌
  reap_stale-spares c own h = elim (Bool-cases (c.env.fails c.asked)) [
    | inl bad ↦ rw bad (spared_by_content none (record c { asked = suc c.asked }) own h)
    | inr good ↦
        rw good (spared_by_content c.tables.pid_file (record c { asked = suc c.asked }) own h)
  ]
