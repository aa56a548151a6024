-- ===== src/Proxy/Cached.antt =====
-- What the cache of translations and the queue of samples hold, and the steps that keep it.
use mathlib.Core.Path.{subst}
use mysql_redshift_agent.Prelude.{
  ℕ, ◌<◌, ◌≤◌, ◌≡◌, ◌≢◌, refl, sym, ap, ◌∙◌, inl, inr, Bool, true, ◌&&◌, not, Option, some, List,
  [], ◌∷◌, ◌++◌, All, length, length-append, ltb, Bool-cases, if_both, arith,
}
use mysql_redshift_agent.Text.{Text, codes, text_eq}
use mysql_redshift_agent.Text.Laws.{text_eq_iff}
use mysql_redshift_agent.Proxy.GoText.{Unicode, byte_length}
use mysql_redshift_agent.Proxy.Router.{Parsed}
use mysql_redshift_agent.Proxy.Normalize.{key}
use mysql_redshift_agent.Proxy.Cache.{Lru, Cache, cache_get, cache_set}
use mysql_redshift_agent.Proxy.Values.{Types, Result}
use mysql_redshift_agent.Proxy.Client.{
  TranslateRequest, TranslateResponse, SaveReq, Outside, translated, translate,
}
use mysql_redshift_agent.Proxy.Saves.{channel_size, save_async, worker}
use mysql_redshift_agent.Proxy.Retry.{
  Fixes, unfixed, fixed, Ends, no_attempt, succeeded, exhausted, not_fixed,
}
use mysql_redshift_agent.Proxy.Server.{
  Answer, Retried, won, Setup, State, on_mysql, sample_of, saved, fix_request,
}

module _ (t : Types) (o : Outside t) (l : Lru) (u : Unicode) (digest : Text → Text) where
  -- The agent has answered a request for a statement of the key with the SQL.
  pub data Origin (k v : Text) : Type 0 where
    origin :
        (req : TranslateRequest) (resp : TranslateResponse) (w w' : o.World)
        → key digest u req.sql ≡ k
        → translate t o req w ≡ (translated resp, w')
        → resp.redshift_sql ≡ v
        → Origin k v

  Fixes-Origin :
      {query sql : Text} {w : o.World} {n : ℕ} {cur : Text} {wc : o.World} {prev : Option Text}
      → Fixes t o query sql w n cur wc prev
      → Origin (key digest u query) sql
      → Origin (key digest u query) cur
  Fixes-Origin unfixed h = h
  Fixes-Origin {query} (fixed {cur = cur} {w' = w'} {w'' = w''} {e = e} {r = r} f q p) h =
      origin (fix_request query e cur) r w' w'' (unfold fix_request in refl) p refl

  -- Every entry of the cache is an answer of the agent for a statement of its key.
  abbrev pub HasOrigins : Cache l → Type 0
  HasOrigins c = (k v : Text) → (l.get k c.inner).0 ≡ some v → Origin k v

  pub cache_get-HasOrigins :
      (k : Text) (c : Cache l) → HasOrigins c → HasOrigins (cache_get l k c).1
  unfolding cache_get
  cache_get-HasOrigins k c h j v e = h j v (sym (l.get_got j k c.inner) ∙ e)

  pub cache_set-HasOrigins :
      (k v : Text) (c : Cache l) → HasOrigins c → Origin k v → HasOrigins (cache_set l k v c)
  unfolding cache_set
  cache_set-HasOrigins k v c h g j x e = elim (Bool-cases (text_eq j k)) [
    | inl same ↦
        let q = (text_eq_iff j k).0 same in
        let p : v ≡ x = cc (l.get_added k v c.inner, e, q) in
        subst (λ a. Origin a x) (sym q) (subst (Origin k) p g)
    | inr other ↦
        let apart : j ≢ k = λ q. cc ((text_eq_iff j k).1 q, other) in
        elim (l.get_other j k v c.inner apart) [
          | inl q ↦ h j x (sym q ∙ e)
          | inr q ↦ absurd (cc (q, e))
        ]
  ]

  -- A sample that is worth a post: an answer of the agent, with rows, and shorter than 8000 bytes.
  pub record IsSample (req : SaveReq) : Type 0 where
    pub from : Origin (key digest u req.mysql_sql) req.redshift_sql
    pub rows : 0 < req.row_count
    pub short : byte_length req.redshift_sql < 8000
    pub runtime : req.source ≡ codes "runtime"

  pub record IsKept (s : State t o l) : Type 0 where
    pub origins : HasOrigins s.cache
    pub bounded : length s.queue ≤ channel_size
    pub samples : All IsSample s.queue

  All_snoc :
      (xs : List SaveReq) (x : SaveReq) → All IsSample xs → IsSample x → All IsSample (xs ++ x ∷ [])
  All_snoc [] x h k = (k, tt)
  All_snoc (y ∷ xs) x h k = (h.0, All_snoc xs x h.1 k)

  pub won-Origin :
      (query sql : Text) (max : ℕ) (w : o.World) (end : Retried t × o.World) (r : Result t)
      (cur : Text) (ms : ℕ)
      → Ends t o query max sql w end
      → end.0 ≡ won r cur ms
      → Origin (key digest u query) sql
      → Origin (key digest u query) cur
  won-Origin query sql max w end r cur ms (no_attempt z e) h g = absurd (cc (ap (λ p. p.0) e, h))
  won-Origin query sql max w end r cur ms (succeeded n c wc w' prev x ms' f m q e) h g =
      let p : c ≡ cur = cc (ap (λ p. p.0) e, h) in
      subst (Origin (key digest u query)) p (Fixes-Origin f g)
  won-Origin query sql max w end r cur ms (exhausted n c wc w' prev x f m q e) h g =
      absurd (cc (ap (λ p. p.0) e, h))
  won-Origin query sql max w end r cur ms (not_fixed n c wc w' w'' prev x y f m q z e) h g =
      absurd (cc (ap (λ p. p.0) e, h))

  module _ (parse : Text → Parsed) (setup : Setup) where
    pub saved-All :
        (query : Text) (r : Result t) (cur : Text) (ms : ℕ) (queue : List SaveReq)
        → Origin (key digest u query) cur
        → length queue ≤ channel_size
        → All IsSample queue
        → (length (saved t o l u digest parse setup query r cur ms queue) ≤ channel_size)
          × All IsSample (saved t o l u digest parse setup query r cur ms queue)
    unfolding saved
    saved-All query r cur ms queue g b h =
        if_both Kept worth (save_async sample queue) queue (λ e. asked (split e)) (λ e. (b, h))
      where
        sample : SaveReq
        sample = sample_of t o l u digest parse setup query r cur ms

        worth : Bool
        worth = setup.has_kb && (ltb 0 (length r.rows) && ltb (byte_length cur) 8000)

        Kept : List SaveReq → Type 0
        Kept q = (length q ≤ channel_size) × All IsSample q

        split : worth ≡ true → (0 < length r.rows) × (byte_length cur < 8000)
        split e = ground arith

        room : ltb (length queue) channel_size ≡ true → length queue < channel_size
        room e = ground arith

        asked : (0 < length r.rows) × (byte_length cur < 8000) → Kept (save_async sample queue)
        asked w =
            unfold save_async in
            if_both Kept (ltb (length queue) channel_size) (queue ++ sample ∷ []) queue
              (λ e. (
                omega (arith, length-append queue (sample ∷ []), room e),
                All_snoc queue sample h
                    (record { from = g; rows = w.0; short = w.1; runtime = refl }),
              ))
              (λ e. (b, h))

    pub mysql-IsKept :
        (query : Text) (tables : List Text) (s : State t o l)
        → IsKept s
        → IsKept (on_mysql t o l u digest parse setup query tables s).1
    unfolding on_mysql
    mysql-IsKept query tables s h =
        if_both {A = Answer t × State t o l} (λ p. IsKept p.1) (not setup.has_mysql) _ _ (λ e. h)
          (λ e. record { origins = h.origins; bounded = h.bounded; samples = h.samples })

    pub worker-IsSample :
        (queue : List SaveReq) (w : o.World)
        → (length queue ≤ channel_size) × All IsSample queue
        → (length (worker t o queue w).0 ≤ channel_size) × All IsSample (worker t o queue w).0
    unfolding worker
    worker-IsSample [] w h = h
    worker-IsSample (x ∷ queue) w h = (omega (arith, h.0), h.1.1)
