-- ===== src/ApiKey/Granting.antt =====
-- To whom require_api_key answers with an authentication.
use multi_proxy_panel.Prelude.{
  ℕ, ◌-◌, ◌≡◌, refl, sym, ap, ◌∙◌, subst, String, str_eq, eq_iff, Bool, true, false, List, Option,
  none, some, ltb, find, find-Just, retain-In, All-In, All, In, retain, Just, if◌then◌else◌,
}
use multi_proxy_panel.Db.{Result, ok, err, Env, Conn, Sql, pure, ◌>>=◌}
use multi_proxy_panel.Db.Runs.{
  Pred, Holds, Runs, Runs-pure, Runs-statement, Runs-memory, Runs-modify, Runs-gets, Runs-attempt,
  Runs-bind, Runs-utc_now, Runs-weaken, Runs-given, Runs-if, Never,
}
use multi_proxy_panel.RateLimiter.{Float64}
use multi_proxy_panel.ApiKey.{
  api_key_cache_ttl, ApiKey, CachedApiKey, KeyState, Answer, admitted, refused, StatusCode,
  unauthorized, forbidden, too_many_requests, internal_server_error, if_fresh, fresh, cache_get,
  cache_insert, invalidate, past, blocked, limited_check, within_rate, limit_rate, answer_cached,
  remember, answer_found, answer_searched, answer_uncached, require_api_key,
}

abbrev late : Option ℕ → ℕ → Bool
late none now = false
late (some t) now = ltb t now

module _ (verify : String → String → Bool) (digest : String → String)
    (matches : String → String → Bool) (fl : Float64) (keys : List ApiKey) where
  -- A key of the table that is active, and against which a key of this digest verifies.
  abbrev pub Verified : String → ApiKey → Type 0
  Verified d k =
      In k keys
      × (k.is_active ≡ true)
      × ((raw : String) × (digest raw ≡ d) × (verify raw k.key_hash ≡ true))

  -- The entry holds what the key's row held.
  abbrev pub Mirrors : CachedApiKey → ApiKey → Type 0
  Mirrors e k =
      (e.key_id ≡ k.id)
      × (e.name ≡ k.name)
      × (e.scopes ≡ k.scopes)
      × (e.expires_at ≡ k.expires_at)
      × (e.ip_allowlist ≡ k.ip_allowlist)

  abbrev pub Sound : String × CachedApiKey → Type 0
  Sound entry = (k : ApiKey) × Verified entry.0 k × Mirrors entry.1 k

  -- The table is as given, and every cached entry was verified against it.
  abbrev pub Coherent : KeyState → Type 0
  Coherent s = (s.api_keys ≡ keys) × All Sound s.cache

  abbrev Inv : Pred KeyState
  Inv e s = Coherent s

  -- What an answer tells.
  abbrev pub Granted : String → String → Env → Answer → Type 0
  Granted d ip e (refused code) = Unit
  Granted d ip e (admitted auth) =
      (k : ApiKey) × Verified d k
      × (auth.key_id ≡ k.id)
      × (auth.scopes ≡ k.scopes)
      × (blocked matches ip k.ip_allowlist ≡ false)
      × ((i : ℕ) × (late k.expires_at (e.now i) ≡ false))

  abbrev After : String → String → Answer → Pred KeyState
  After d ip a e s = Inv e s × Granted d ip e a

  past-Runs :
      (o : Option ℕ)
      → Runs Inv
          (past o)
          (λ p e s. Inv e s × (p ≡ false → (i : ℕ) × (late o (e.now i) ≡ false)))
          Never
  unfolding past
  past-Runs none =
      Runs-weaken {post = λ p e s. Inv e s × (p ≡ false → (i : ℕ) × (false ≡ false))} _
        (Runs-pure false) (λ e s p. (p, λ q. (0, refl))) (λ a e s p. p)
  past-Runs (some t) = Runs-bind _ _ Runs-utc_now λ now.
      Runs-weaken _
        (Runs-pure {post = λ p e s. Inv e s × (p ≡ false → (i : ℕ) × (ltb t (e.now i) ≡ false))}
          (ltb t now))
        (λ e s p. (p.0, λ q. (p.1.0, ap (λ n. ltb t n) (sym p.1.1) ∙ q))) (λ a e s p. p)

  module _ {P : Pred KeyState}
      (kept : (e : Env) (s t : KeyState)
        → s.api_keys ≡ t.api_keys
        → s.cache ≡ t.cache
        → P e s
        → P e t) where
    within_rate-Keeps :
        (id : String) (rate : Option ℕ) → Runs P (within_rate fl id rate) (λ b. P) Never
    unfolding within_rate limited_check
    within_rate-Keeps id none = Runs-pure true
    within_rate-Keeps id (some limit) =
        Runs-if (ltb 0 limit) _ _
          (λ t.
            Runs-bind {mid = λ now. P} _ _
              (Runs-weaken _ Runs-utc_now (λ e s p. p) (λ a e s p. p.0))
              λ now. Runs-memory _ (λ e s p. kept e s _ refl refl p))
          (λ t. Runs-pure true)

    limit_rate-Runs :
        (d ip id : String) (rate : Option ℕ) (next : Sql KeyState Answer)
        → ((e : Env) (s : KeyState) → P e s → Inv e s)
        → Runs P next (After d ip) Never
        → Runs P (limit_rate verify digest matches fl id rate next) (After d ip) Never
    unfolding limit_rate
    limit_rate-Runs d ip id rate next inv runs =
        Runs-bind _ _ (within_rate-Keeps id rate) λ allowed.
          Runs-if allowed _ _ (λ t. runs)
            (λ t.
              Runs-weaken {post = After d ip} _ (Runs-pure (refused too_many_requests))
                (λ e s p. (inv e s p, tt)) (λ a e s p. p))

  -- The state is coherent, and the date is not past.
  abbrev InTime : Option ℕ → Pred KeyState
  InTime o e s = Inv e s × ((i : ℕ) × (late o (e.now i) ≡ false))

  InTime-kept :
      (o : Option ℕ) (e : Env) (s t : KeyState)
      → s.api_keys ≡ t.api_keys
      → s.cache ≡ t.cache
      → InTime o e s
      → InTime o e t
  InTime-kept o e s t rows cache p = ((sym rows ∙ p.0.0, subst (λ c. All Sound c) cache p.0.1), p.1)

  refuse : (d ip : String) (code : StatusCode) → Runs Inv (pure (refused code)) (After d ip) Never
  refuse d ip code =
      Runs-weaken {post = After d ip} _ (Runs-pure (refused code)) (λ e s p. (p, tt)) (λ a e s p. p)

  -- The checks that a cached entry and a found row share: date, address, rate.
  checked-Runs :
      (d ip id : String) (o : Option ℕ) (list : Option (List String)) (rate : Option ℕ)
      (expired next : Sql KeyState Answer)
      → Runs Inv expired (After d ip) Never
      → (blocked matches ip list ≡ false → Runs (InTime o) next (After d ip) Never)
      → Runs Inv
          (past o >>= λ gone.
            if gone
            then expired
            else if blocked matches ip list
            then pure (refused forbidden)
            else limit_rate verify digest matches fl id rate next)
          (After d ip)
          Never
  checked-Runs d ip id o list rate expired next out go = Runs-bind _ _ (past-Runs o) λ gone.
      Runs-if gone _ _ (λ t. Runs-weaken _ out (λ e s p. p.0) (λ a e s p. p))
        (λ t.
          Runs-weaken {pre = InTime o} _
            (Runs-if (blocked matches ip list) _ _
              (λ b. Runs-weaken _ (refuse d ip forbidden) (λ e s p. p.0) (λ a e s p. p))
              (λ b. limit_rate-Runs (InTime-kept o) d ip id rate next (λ e s p. p.0) (go b)))
            (λ e s p. (p.0, p.1 t)) (λ a e s p. p))

  answer_cached-Runs :
      (d ip : String) (e : CachedApiKey)
      → Sound (d, e)
      → Runs Inv (answer_cached verify digest matches fl ip e) (After d ip) Never
  unfolding answer_cached invalidate
  answer_cached-Runs d ip e (k, v, m) =
      checked-Runs d ip e.key_id e.expires_at e.ip_allowlist e.rate_limit _ _
        (Runs-bind {mid = λ u. Inv} _ _ (Runs-modify _ (λ x s p. (p.0, tt)))
          λ u. refuse d ip unauthorized)
        (λ b.
          Runs-weaken {post = After d ip} _ (Runs-pure _)
            (λ x s p. (
              p.0,
              (
                k,
                v,
                m.0,
                m.2,
                ap (λ l. blocked matches ip l) (sym m.4) ∙ b,
                (p.1.0, ap (λ o. late o (x.now p.1.0)) (sym m.3) ∙ p.1.1),
              ),
            ))
            (λ a x s p. p))

  remember-Runs :
      (key ip : String) (k : ApiKey)
      → Verified (digest key) k
      → blocked matches ip k.ip_allowlist ≡ false
      → Runs
          (InTime k.expires_at)
          (remember verify digest matches fl key k)
          (After (digest key) ip)
          Never
  unfolding remember cache_insert
  remember-Runs key ip k v b =
      Runs-bind {mid = λ now. InTime k.expires_at} _ _
        (Runs-weaken _ Runs-utc_now (λ x s p. p) (λ a x s p. p.0))
        λ now.
          Runs-bind {mid = λ u. InTime k.expires_at} _ _
            (Runs-modify _
              (λ x s p. ((p.0.0, ((k, v, (refl, refl, refl, refl, refl)), p.0.1)), p.1)))
            λ u.
              Runs-weaken {post = After (digest key) ip} _ (Runs-pure _)
                (λ x s p. (p.0, (k, v, refl, refl, b, p.1))) (λ a x s p. p)

  answer_found-Runs :
      (key ip : String) (o : Option ApiKey)
      → Just (Verified (digest key)) o
      → Runs Inv (answer_found verify digest matches fl key ip o) (After (digest key) ip) Never
  unfolding answer_found
  answer_found-Runs key ip none v = refuse (digest key) ip unauthorized
  answer_found-Runs key ip (some k) v =
      checked-Runs (digest key) ip k.id k.expires_at k.ip_allowlist k.rate_limit _ _
        (refuse (digest key) ip unauthorized) (λ b. remember-Runs key ip k v b)

  verified :
      (key : String) (o : Option ApiKey)
      → Just (λ k. In k (retain (λ x. x.is_active) keys) × (verify key k.key_hash ≡ true)) o
      → Just (Verified (digest key)) o
  verified key none h = tt
  verified key (some k) h =
      let (m, a) = retain-In (λ (x : ApiKey). x.is_active) keys k h.0 in (m, a, (key, refl, h.1))

  abbrev active : List ApiKey
  active = retain (λ k. k.is_active) keys

  answer_searched-Runs :
      (key ip : String) (r : Result (List ApiKey))
      → Runs
          (Holds {A = List ApiKey} (λ ks e s. Inv e s × (ks ≡ active)) Inv r)
          (answer_searched verify digest matches fl key ip r)
          (After (digest key) ip)
          Never
  unfolding answer_searched
  answer_searched-Runs key ip (err x) = refuse (digest key) ip internal_server_error
  answer_searched-Runs key ip (ok ks) = Runs-given _ (λ e.
      answer_found-Runs key ip (find (λ k. verify key k.key_hash) ks) (
        subst (λ l. Just (Verified (digest key)) (find (λ k. verify key k.key_hash) l)) (sym e)
          (verified key _ (find-Just (λ (k : ApiKey). verify key k.key_hash) active))))

  uncached-Runs :
      (key ip : String) (o : Option CachedApiKey)
      → Just (λ e. Sound (digest key, e)) o
      → Runs Inv (answer_uncached verify digest matches fl key ip o) (After (digest key) ip) Never
  unfolding answer_uncached
  uncached-Runs key ip (some e) h = answer_cached-Runs (digest key) ip e h
  uncached-Runs key ip none h =
      Runs-bind _ _
        (Runs-attempt {broken = Inv} {post = λ ks e s. Inv e s × (ks ≡ active)} _ (
          Runs-statement _ (λ e s p. p)
            (λ e s p. (p, ap (λ l. retain (λ (k : ApiKey). k.is_active) l) p.0))))
        λ r. answer_searched-Runs key ip r

  cached-Just :
      (key : String) (cache : List (String × CachedApiKey))
      → All Sound cache
      → Just
          (λ (e : String × CachedApiKey). Sound (digest key, e.1))
          (find (λ e. str_eq e.0 (digest key)) cache)
  cached-Just key cache h =
      step (find (λ e. str_eq e.0 (digest key)) cache)
        (find-Just (λ (e : String × CachedApiKey). str_eq e.0 (digest key)) cache)
    where
      step :
          (o : Option (String × CachedApiKey))
          → Just (λ e. In e cache × (str_eq e.0 (digest key) ≡ true)) o
          → Just (λ e. Sound (digest key, e.1)) o
      step none q = tt
      step (some e) q =
          subst (λ d. Sound (d, e.1)) ((eq_iff e.0 (digest key)).0 q.1) (All-In Sound cache h q.0)

  -- A fresh entry is one that was found.
  fresh-Runs :
      (d : String) (o : Option (String × CachedApiKey))
      → Just (λ e. Sound (d, e.1)) o
      → Runs Inv (fresh o) (λ r e s. Inv e s × Just (λ x. Sound (d, x)) r) Never
  unfolding fresh
  fresh-Runs d none h =
      Runs-weaken {post = λ r e s. Inv e s × Just (λ x. Sound (d, x)) r} _ (Runs-pure none)
        (λ e s p. (p, tt)) (λ a e s p. p)
  fresh-Runs d (some (k, x)) h =
      Runs-bind {mid = λ n. Inv} _ _ (Runs-weaken _ Runs-utc_now (λ e s p. p) (λ a e s p. p.0))
        λ now.
          Runs-weaken {post = λ r e s. Inv e s × Just (λ y. Sound (d, y)) r} _
            (Runs-pure (if_fresh x now))
            (λ e s p. (p, kept (ltb api_key_cache_ttl (now - x.cached_at)))) (λ a e s p. p)
    where
      kept : (b : Bool) → Just (λ y. Sound (d, y)) (if b then none else some x)
      kept true = tt
      kept false = h

  cache_get-Runs :
      (key : String)
      → Runs Inv
          (cache_get (digest key))
          (λ r e s. Inv e s × Just (λ x. Sound (digest key, x)) r)
          Never
  unfolding cache_get
  cache_get-Runs key =
      Runs-bind {mid = λ o e s. Inv e s × Just (λ e. Sound (digest key, e.1)) o} _ _
        (Runs-weaken {post' = λ o e s. Inv e s × Just (λ e. Sound (digest key, e.1)) o} _
          (Runs-gets _) (λ e s p. p)
          (λ o e s p. (
            p.0,
            subst (Just (λ e. Sound (digest key, e.1))) (sym p.1) (cached-Just key s.cache p.0.1),
          )))
        λ o. Runs-given _ (λ h. fresh-Runs (digest key) o h)

  require-Runs :
      (key ip : String)
      → Runs Inv (require_api_key verify digest matches fl key ip) (After (digest key) ip) Never
  unfolding require_api_key
  require-Runs key ip =
      Runs-if (str_eq key "") _ _ (λ t. refuse (digest key) ip unauthorized)
        (λ t.
          Runs-bind _ _ (cache_get-Runs key)
            λ cached. Runs-given _ (λ h. uncached-Runs key ip cached h))

  -- Where every cached entry was verified against the table, require_api_key answers every request
  -- and leaves that true, whatever statement fails. A request that it admits is admitted as a key of
  -- the table that is active, with this key's scopes; a text with the same digest as the request's key
  -- verifies against it; its allowlist does not block the address; and at some reading of the clock it
  -- is not past its expiry date.
  pub require_api_key-Granted :
      (key ip : String) (c : Conn KeyState)
      → Coherent c.tables
      → (a : Answer) × ((require_api_key verify digest matches fl key ip c).0 ≡ ok a)
        × Granted (digest key) ip (require_api_key verify digest matches fl key ip c).1.env a
        × Coherent (require_api_key verify digest matches fl key ip c).1.tables
  require_api_key-Granted key ip c h =
      answered (require_api_key verify digest matches fl key ip c).0 _ _
        ((require-Runs key ip).from c h)
    where
      answered :
          (r : Result Answer) (e : Env) (s : KeyState)
          → Holds {A = Answer} (After (digest key) ip) Never r e s
          → (a : Answer) × (r ≡ ok a) × Granted (digest key) ip e a × Coherent s
      answered (ok a) e s p = (a, refl, p.1, p.0)
      answered (err x) e s p = absurd p
